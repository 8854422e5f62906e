-- ===== src/Network/Links/Store/Lost.antt =====
-- `updateLink` takes a link away before it adds it again: what is left where it raises.
use smoothie.Base.{
  ℕ, String, ◌≡◌, refl, ◌∙◌, ◌⊎◌, inl, inr, ◌&&◌, none, some, arith, if◌then◌else◌, ◌==◌, nat_eq,
  string_eq, pair_eq,
}
use smoothie.Base.Dict.{get}
use smoothie.Base.Error.{Error, ok, err, Result-cases}
use smoothie.Network.Value.{text, Attrs, value_eq}
use smoothie.Network.Mininet.{Graph, Net, Mininet}
use smoothie.Network.Links.Library.{LinkLib, find, joins}
use smoothie.Network.Links.Ends.{name_at, oriented}
use smoothie.Network.Links.Store.{get_link, delete_link, pop_link, add_again, update_link}
use smoothie.Network.Links.Store.Edges.{find-some}
use smoothie.Network.Links.Store.Gate.{add_link_refused}
use smoothie.Network.Links.Store.Deleted.{delete_link-find}
use smoothie.Network.Links.Store.Invariant.{IsFromTo, IsLinked}
use smoothie.Network.Links.Store.Updating.{InOrder}

-- `h` is `g` without the link.
abbrev pub Lacks : Graph → Graph → String → String → ℕ → Type 0
Lacks h g a b k =
    (x y : String) (j : ℕ) → find h x y j ≡ (if joins a b x y && k == j then none else find g x y j)

joins_comm : (a b x y : String) → joins a b x y ≡ joins b a x y
joins_comm a b x y = ground arith

name_of : (i : Attrs) (f a : String) → get i f ≡ some (text a) → name_at i f ≡ ok a
unfolding name_at
name_of i f a h = rw (name_at, h) refl

-- the names that a link holds
record Named (i : Attrs) (n1 n2 : String) : Type 0 where
  a : String
  b : String
  name1 : name_at i "node1" ≡ ok a
  name2 : name_at i "node2" ≡ ok b
  order : ((a ≡ n1) × (b ≡ n2)) ⊎ ((a ≡ n2) × (b ≡ n1))

named : (i : Attrs) (n1 n2 : String) → IsFromTo i n1 n2 ⊎ IsFromTo i n2 n1 → Named i n1 n2
named i n1 n2 (inl w) = record {
  a = n1;
  b = n2;
  name1 = name_of i "node1" n1 w.0;
  name2 = name_of i "node2" n2 w.1;
  order = inl (refl, refl);
}
named i n1 n2 (inr w) = record {
  a = n2;
  b = n1;
  name1 = name_of i "node1" n2 w.0;
  name2 = name_of i "node2" n1 w.1;
  order = inr (refl, refl);
}

module _ (mn : Mininet) (lib : LinkLib) where
  get_link-find :
      (n1 n2 : String) (k : ℕ) (i : Attrs) (s : Net)
      → find s.g n1 n2 k ≡ some i
      → get_link mn lib n1 n2 (some k) s ≡ (ok (i, k), s)
  unfolding get_link
  get_link-find n1 n2 k i s f =
      let (e, here, r) = find-some s.g n1 n2 k i f in
      rw (get_link, lib.link_entry_key s.g n1 n2 k e here, r) refl

  delete_either :
      (n1 n2 a b : String) (k : ℕ) (i : Attrs) (s : Net)
      → ((a ≡ n1) × (b ≡ n2)) ⊎ ((a ≡ n2) × (b ≡ n1))
      → IsLinked s.g
      → find s.g n1 n2 k ≡ some i
      → ((delete_link mn lib a b (some k) s).0 ≡ ok tt)
        × Lacks (delete_link mn lib a b (some k) s).1.g s.g n1 n2 k
  delete_either n1 n2 a b k i s (inl w) v f =
      rw (w.0, w.1) (delete_link-find mn lib n1 n2 k i s v f)
  delete_either n1 n2 a b k i s (inr w) v f =
      let (done, law) = delete_link-find mn lib n2 n1 k i s v (v.symmetric n2 n1 k ∙ f) in
      rw (w.0, w.1) (done, λ x y j. law x y j ∙ rw (joins_comm n2 n1 x y) refl)

  -- A link that is there is given, and no other link goes with it.
  pub pop_link-find :
      (n1 n2 : String) (k : ℕ) (i : Attrs) (s : Net)
      → InOrder s
      → find s.g n1 n2 k ≡ some i
      → ((pop_link mn lib n1 n2 (some k) s).0 ≡ ok (i, k))
        × Lacks (pop_link mn lib n1 n2 (some k) s).1.g s.g n1 n2 k
  unfolding pop_link
  pop_link-find n1 n2 k i s v f =
      let w = named i n1 n2 (v.ends n1 n2 k i f) in
      let (done, law) = delete_either n1 n2 w.a w.b k i s w.order v f in
      rw (pop_link, get_link-find n1 n2 k i s f, w.name1, w.name2, done) (refl, law)

  -- Where the change of a link that is there raises, the link is lost, and no other link.
  pub update_link_lost :
      (n1 n2 : String) (k : ℕ) (i opts : Attrs) (s : Net) (raised : Error)
      → InOrder s
      → find s.g n1 n2 k ≡ some i
      → (update_link mn lib n1 n2 (some k) opts s).0 ≡ err raised
      → Lacks (update_link mn lib n1 n2 (some k) opts s).1.g s.g n1 n2 k
  unfolding update_link add_again
  update_link_lost n1 n2 k i opts s raised v f h =
      let w = named i n1 n2 (v.ends n1 n2 k i f) in
      let (done, law) = pop_link-find n1 n2 k i s v f in
      let t = (pop_link mn lib n1 n2 (some k) s).1 in
      elim (Result-cases (oriented n1 n2 i opts)) [
        | inr (x, r) ↦ rw (update_link, done, r) law
        | inl (o, r) ↦
            let same =
              add_link_refused mn lib w.a w.b _ _ (some k) _ t raised
                (rw (update_link, done, r, w.name1, w.name2) at h) in
            rw (update_link, done, r, w.name1, w.name2, same) law
      ]
