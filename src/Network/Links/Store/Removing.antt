-- ===== src/Network/Links/Store/Removing.antt =====
-- `deleteLink` keeps the links in order.
use smoothie.Base.{
  ℕ, String, ◌≡◌, refl, ap, ◌∙◌, ◌≢◌, inl, inr, ◌&&◌, Option, none, some, arith, if◌then◌else◌,
  ◌==◌, nat_eq, string_eq, pair_eq, beq_refl, Bool-cases, Option-cases, length,
}
use smoothie.Base.Dict.{get, remove, get-remove}
use smoothie.Base.Error.{Result-cases}
use smoothie.Network.Value.{Attrs, value_eq}
use smoothie.Network.Mininet.{Entry, Graph, Net, Mininet}
use smoothie.Network.Links.Library.{LinkLib, entry, find, joins, joins-cases}
use smoothie.Network.Links.Store.{set_seen, drop_seen, set_edge, forget, delete_link}
use smoothie.Network.Links.Store.Edges.{
  Within-IsLinked, Alike-IsLinked, empty_entry, with_edges, entry-set_seen, find-entry, find-some,
  drop_seen-Alike,
}
use smoothie.Network.Links.Store.Invariant.{IsLinked}

-- the graph after a link between `a` and `b` has left the object `e`
abbrev pub without : Graph → String → String → Entry → ℕ → Graph
without g a b e k = with_edges g (set_seen (set_seen g.edge a b (remove e k)) b a (remove e k))

module _ (g : Graph) (a b : String) (e : Entry) (k : ℕ) (i : Attrs) (v : IsLinked g)
    (here : entry g a b ≡ some e) (there : get e k ≡ some i) where
  pub apart : a ≢ b
  apart h = cc (find-entry g a b e k here, there, v.no_loops a k, ap (λ x. find g a x k) h)

  pub entry-without :
      (x y : String)
      → entry (without g a b e k) x y ≡ (if joins a b x y then some (remove e k) else entry g x y)
  entry-without x y =
      let back : find g b a k ≡ some i = v.symmetric b a k ∙ find-entry g a b e k here ∙ there in
      let (f, seen, _) = find-some g b a k i back in
      let g1 = with_edges g (set_seen g.edge a b (remove e k)) in
      let seen1 : entry g1 b a ≡ some f =
        ground (
          arith,
          entry-set_seen g a b (remove e k) e b a here,
          seen,
          apart,
          string_eq.beq_iff a b,
        ) in
      ground (
        arith,
        entry-set_seen g1 b a (remove e k) f x y seen1,
        entry-set_seen g a b (remove e k) e x y here,
        string_eq.beq_iff a x,
        string_eq.beq_iff b y,
        string_eq.beq_iff a y,
        string_eq.beq_iff b x,
      )

  pub find-without :
      (x y : String) (j : ℕ)
      → find (without g a b e k) x y j ≡ (if joins a b x y && k == j then none else find g x y j)
  unfolding find
  find-without x y j = elim (Bool-cases (joins a b x y)) [
    | inr away ↦
        let same : entry (without g a b e k) x y ≡ entry g x y = entry-without x y ∙ rw away refl in
        rw (away, find, same) refl
    | inl met ↦
        let left : find (without g a b e k) x y j ≡ get (remove e k) j =
          find-entry (without g a b e k) x y (remove e k) j (entry-without x y ∙ rw met refl) in
        let whole : find g x y j ≡ get e j = elim (joins-cases a b x y met) [
          | inl q ↦ rw (q.0, q.1) (find-entry g a b e j here)
          | inr q ↦ rw (q.0, q.1) (v.symmetric b a j ∙ find-entry g a b e j here)
        ] in
        rw (met, left, whole) (get-remove e k j)
  ]

  without-IsLinked : IsLinked (without g a b e k)
  without-IsLinked =
      Within-IsLinked (without g a b e k) g (λ x y j i f. ground (arith, find-without x y j, f))
        (λ x y j. ground (arith, find-without x y j, find-without y x j, v.symmetric x y j)) v

module _ (mn : Mininet) (lib : LinkLib) where
  forget-IsLinked :
      (a b : String) (s : Net)
      → ((j : ℕ) → find s.g a b j ≡ none)
      → IsLinked s.g
      → IsLinked (forget mn lib a b s).1.g
  unfolding forget set_edge
  forget-IsLinked a b s bare v = elim (Result-cases (drop_seen s.g.edge a b)) [
    | inr (x, q) ↦ rw (forget, q) v
    | inl (edge, q) ↦
        let g1 = with_edges s.g edge in
        let alike = drop_seen-Alike s.g a b edge q bare in
        let v1 = Alike-IsLinked g1 s.g alike v in
        elim (Result-cases (drop_seen edge b a)) [
          | inr (x, r) ↦ rw (forget, q, r) v1
          | inl (edge', r) ↦
              rw (forget, q, r)
                (Alike-IsLinked (with_edges g1 edge') g1
                  (drop_seen-Alike g1 b a edge' r (λ j. alike b a j ∙ v.symmetric b a j ∙ bare j))
                  v1)
        ]
  ]

  -- A link that is removed leaves the others in order, also where the removal raises.
  pub delete_link-IsLinked :
      (a b : String) (key : Option ℕ) (s : Net)
      → IsLinked s.g
      → IsLinked (delete_link mn lib a b key s).1.g
  unfolding delete_link set_edge
  delete_link-IsLinked a b key s v = elim (Result-cases (lib.link_entry s.g a b key)) [
    | inr (x, q) ↦ rw (delete_link, q) v
    | inl ((e, k), q) ↦ elim (Option-cases (get e k)) [
      | inl r ↦ rw (delete_link, q, r) v
      | inr (i, r) ↦
          let here = lib.link_entry_some s.g a b key e k q in
          let v1 = without-IsLinked s.g a b e k i v here r in
          let s1 = set_edge mn lib (without s.g a b e k).edge s in
          elim (Bool-cases (length (remove e k) == 0)) [
            | inr some_left ↦ rw (delete_link, q, r, some_left) v1
            | inl none_left ↦
                let bare : (j : ℕ) → find s1.g a b j ≡ none = λ j.
                  find-entry (without s.g a b e k) a b (remove e k) j
                    (entry-without s.g a b e k i v here r a b ∙ rw (beq_refl a, beq_refl b) refl)
                  ∙ empty_entry (remove e k) j none_left in
                rw (delete_link, q, r, none_left) (forget-IsLinked a b s1 bare v1)
          ]
    ]
  ]
