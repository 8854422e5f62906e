-- ===== src/Network/Links/Store/Deleted.antt =====
-- What `deleteLink` leaves.
use smoothie.Base.{
  ℕ, String, ◌≡◌, refl, ◌∙◌, ◌≢◌, inl, inr, ◌&&◌, none, some, arith, if◌then◌else◌, ◌==◌, nat_eq,
  string_eq, pair_eq, beq_refl, Bool-cases, is_some, length,
}
use smoothie.Base.Dict.{Dict, put, remove, has}
use smoothie.Base.Error.{ok}
use smoothie.Network.Value.{Attrs, value_eq}
use smoothie.Network.Mininet.{Entry, Graph, Net, Mininet}
use smoothie.Network.Links.Library.{LinkLib, entry, find, joins}
use smoothie.Network.Links.Store.{drop_seen, set_edge, forget, delete_link}
use smoothie.Network.Links.Store.Edges.{
  Alike, with_edges, entry-row, entry-drop_seen, empty_entry, find-entry, find-some,
  drop_seen-Alike,
}
use smoothie.Network.Links.Store.Removing.{without, apart, entry-without, find-without}
use smoothie.Network.Links.Store.Invariant.{IsLinked}

drop_seen-entry :
    (g : Graph) (a b : String) (f : Entry)
    → entry g a b ≡ some f
    → (edge : Dict String (Dict String Entry)) × (drop_seen g.edge a b ≡ ok edge)
unfolding drop_seen has is_some
drop_seen-entry g a b f h =
    let (m, q, r) = entry-row g a b f h in
    elim (Bool-cases (length (remove m b) == 0)) [
      | inl e ↦ (remove g.edge a, rw (drop_seen, q, has, r, e) refl)
      | inr e ↦ (put g.edge a (remove m b), rw (drop_seen, q, has, r, e) refl)
    ]

module _ (mn : Mininet) (lib : LinkLib) where
  -- `forget` returns where both nodes see an object without links.
  forget-Alike :
      (a b : String) (s : Net) (e f : Entry)
      → a ≢ b
      → entry s.g a b ≡ some e
      → entry s.g b a ≡ some f
      → ((j : ℕ) → find s.g a b j ≡ none)
      → ((j : ℕ) → find s.g b a j ≡ none)
      → ((forget mn lib a b s).0 ≡ ok tt) × Alike (forget mn lib a b s).1.g s.g
  unfolding forget set_edge
  forget-Alike a b s e f differ ea eb bare_ab bare_ba =
      let (edge, q) = drop_seen-entry s.g a b e ea in
      let g1 = with_edges s.g edge in
      let alike = drop_seen-Alike s.g a b edge q bare_ab in
      let there : entry g1 b a ≡ some f =
        ground (arith, entry-drop_seen s.g a b edge b a q, differ, eb, string_eq.beq_iff a b) in
      let (edge', r) = drop_seen-entry g1 b a f there in
      let alike' = drop_seen-Alike g1 b a edge' r (λ j. alike b a j ∙ bare_ba j) in
      rw (forget, q, r) (refl, λ x y j. alike' x y j ∙ alike x y j)

  -- A link that is there can be removed by its key, and no other link goes with it.
  pub delete_link-find :
      (a b : String) (k : ℕ) (i : Attrs) (s : Net)
      → IsLinked s.g
      → find s.g a b k ≡ some i
      → ((delete_link mn lib a b (some k) s).0 ≡ ok tt)
        × ((x y : String) (j : ℕ)
            → find (delete_link mn lib a b (some k) s).1.g x y j
              ≡ (if joins a b x y && k == j then none else find s.g x y j))
  unfolding delete_link set_edge
  delete_link-find a b k i s v f =
      let (e, here, r) = find-some s.g a b k i f in
      let q = lib.link_entry_key s.g a b k e here in
      let law = find-without s.g a b e k i v here r in
      let entries = entry-without s.g a b e k i v here r in
      let s1 = set_edge mn lib (without s.g a b e k).edge s in
      elim (Bool-cases (length (remove e k) == 0)) [
        | inr some_left ↦ rw (delete_link, q, r, some_left) (refl, law)
        | inl none_left ↦
            let ea : entry s1.g a b ≡ some (remove e k) =
              entries a b ∙ rw (beq_refl a, beq_refl b) refl in
            let eb : entry s1.g b a ≡ some (remove e k) =
              entries b a ∙ ground (arith, beq_refl a, beq_refl b) in
            let gone =
              forget-Alike a b s1 (remove e k) (remove e k) (apart s.g a b e k i v here r) ea eb
                (λ j. find-entry s1.g a b (remove e k) j ea ∙ empty_entry (remove e k) j none_left)
                (λ j.
                  find-entry s1.g b a (remove e k) j eb ∙ empty_entry (remove e k) j none_left) in
            rw (delete_link, q, r, none_left) (gone.0, λ x y j. gone.1 x y j ∙ law x y j)
      ]
