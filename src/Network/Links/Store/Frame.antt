-- ===== src/Network/Links/Store/Frame.antt =====
-- Methods of links change nothing but links.
use smoothie.Base.{
  ℕ, String, ◌≡◌, refl, inl, inr, Option, some, [], ◌==◌, nat_eq, string_eq, pair_eq, length,
}
use smoothie.Base.Dict.{remove, get}
use smoothie.Base.Error.{Error, key_error, ok, err, or_raise, Result-cases}
use smoothie.Base.Exec.{Exec, pure, lift, ◌>>=◌}
use smoothie.Base.Exec.{>>=_keeps, if_keeps}
use smoothie.Network.Value.{Attrs, value_eq}
use smoothie.Network.Mininet.{Net, Mininet}
use smoothie.Network.Nodes.{ask}
use smoothie.Network.Links.Library.{LinkLib, find}
use smoothie.Network.Links.Ends.{name_at, oriented}
use smoothie.Network.Links.Store.{
  set_edge, forget, drop_seen, get_link, delete_link, pop_link, add_again, update_link,
}
use smoothie.Network.Links.Store.Deleted.{delete_link-find}
use smoothie.Network.Links.Store.Gate.{add_link_refused}
use smoothie.Network.Links.Store.Lost.{Lacks, update_link_lost}
use smoothie.Network.Links.Store.Updating.{InOrder}

-- the description without its links
abbrev pub bare : Net → Net
bare s = record s { g = record { node = s.g.node; edge = [] } }

module _ (mn : Mininet) (lib : LinkLib) (n : Net) where
  abbrev IsBare : Net → Type 0
  IsBare s = bare s ≡ n

  abbrev Leaves : {A : Type 0} → Exec Net A → Type 0
  Leaves m = (s : Net) → IsBare s → IsBare (m s).1

  then-Leaves :
      {A B : Type 0} (m : Exec Net A) (f : A → Exec Net B)
      → Leaves m
      → ((a : A) → Leaves (f a))
      → Leaves (m >>= f)
  then-Leaves m f = >>=_keeps IsBare m f

  forget-Leaves : (a b : String) → Leaves (forget mn lib a b)
  unfolding forget set_edge
  forget-Leaves a b s h = elim (Result-cases (drop_seen s.g.edge a b)) [
    | inr (x, q) ↦ rw (q, forget) h
    | inl (edge, q) ↦ elim (Result-cases (drop_seen edge b a)) [
      | inr (x, r) ↦ rw (q, r, forget) h
      | inl (edge', r) ↦ rw (q, r, forget) h
    ]
  ]

  delete_link-Leaves : (a b : String) (k : Option ℕ) → Leaves (delete_link mn lib a b k)
  unfolding delete_link set_edge
  delete_link-Leaves a b k =
      then-Leaves (ask mn (λ g. lib.link_entry g a b k)) _ (λ s h. h)
        (λ p.
          then-Leaves (lift (or_raise key_error (get p.0 p.1))) _ (λ s h. h)
            (λ i s h.
              if_keeps IsBare (length (remove p.0 p.1) == 0) (forget mn lib a b) (pure tt)
                (forget-Leaves a b) (λ s h. h) _ h))

  pop_link-Leaves : (a b : String) (k : Option ℕ) → Leaves (pop_link mn lib a b k)
  unfolding pop_link get_link
  pop_link-Leaves a b k =
      then-Leaves (get_link mn lib a b k) _
        (then-Leaves (ask mn (λ g. lib.link_entry g a b k)) _ (λ s h. h)
          (λ p. then-Leaves (lift (or_raise key_error (get p.0 p.1))) _ (λ s h. h) (λ i s h. h)))
        (λ p.
          then-Leaves (lift (name_at p.0 "node1")) _ (λ s h. h)
            (λ x.
              then-Leaves (lift (name_at p.0 "node2")) _ (λ s h. h)
                (λ y.
                  then-Leaves (delete_link mn lib x y (some p.1)) _
                    (delete_link-Leaves x y (some p.1)) (λ u s h. h))))

  -- where `addLink` raises, it leaves the state as it was
  refused-Leaves :
      (a b : String) (k : ℕ) (o : Attrs) (s : Net) (x : Error)
      → (add_again mn lib a b k o s).0 ≡ err x
      → IsBare s
      → IsBare (add_again mn lib a b k o s).1
  unfolding add_again
  refused-Leaves a b k o s x e h = rw (add_link_refused mn lib a b _ _ (some k) _ s x e) h

  -- where it raises
  Raising : {A : Type 0} → Exec Net A → Type 0
  Raising m = (s : Net) (x : Error) → (m s).0 ≡ err x → IsBare s → IsBare (m s).1

  then-Raising :
      {A B : Type 0} (m : Exec Net A) (f : A → Exec Net B)
      → Leaves m
      → ((a : A) → Raising (f a))
      → Raising (m >>= f)
  unfolding Raising
  then-Raising m f k r s x e h = elim (Result-cases (m s).0) [
    | inr (y, q) ↦ rw q (k s h)
    | inl (a, q) ↦
        let left : IsBare (f a (m s).1).1 = r a (m s).1 x (rw q at e) (k s h) in rw q left
  ]

  update_link-Raising :
      (a b : String) (k : Option ℕ) (o : Attrs) → Raising (update_link mn lib a b k o)
  unfolding update_link Raising
  update_link-Raising a b k o = then-Raising (pop_link mn lib a b k) _ (pop_link-Leaves a b k) (λ p.
      then-Raising (lift (oriented a b p.0 o)) _ (λ s h. h)
        (λ c.
          then-Raising (lift (name_at p.0 "node1")) _ (λ s h. h)
            (λ x.
              then-Raising (lift (name_at p.0 "node2")) _ (λ s h. h)
                (λ y. refused-Leaves x y p.1 _))))

module _ (mn : Mininet) (lib : LinkLib) where
  -- Where the links are in order and the change of a link that is there, named by its key, raises,
  -- the link is lost: the other links, the nodes and all else of the description are as they were.
  pub update_link_raises :
      (n1 n2 : String) (k : ℕ) (i opts : Attrs) (s : Net) (raised : Error)
      → InOrder s
      → find s.g n1 n2 k ≡ some i
      → (update_link mn lib n1 n2 (some k) opts s).0 ≡ err raised
      → Lacks (update_link mn lib n1 n2 (some k) opts s).1.g s.g n1 n2 k
        × (bare (update_link mn lib n1 n2 (some k) opts s).1 ≡ bare s)
  unfolding Raising
  update_link_raises n1 n2 k i opts s raised v f h = (
    update_link_lost mn lib n1 n2 k i opts s raised v f h,
    update_link-Raising mn lib (bare s) n1 n2 (some k) opts s raised h refl,
  )

  -- Where the links are in order, a link that is there is removed by its key without an exception:
  -- the other links, the nodes and all else of the description are as they were.
  pub delete_link_removes :
      (a b : String) (k : ℕ) (i : Attrs) (s : Net)
      → InOrder s
      → find s.g a b k ≡ some i
      → ((delete_link mn lib a b (some k) s).0 ≡ ok tt)
        × Lacks (delete_link mn lib a b (some k) s).1.g s.g a b k
        × (bare (delete_link mn lib a b (some k) s).1 ≡ bare s)
  delete_link_removes a b k i s v f =
      let (done, lacks) = delete_link-find mn lib a b k i s v f in
      (done, lacks, delete_link-Leaves mn lib (bare s) a b (some k) s refl)
