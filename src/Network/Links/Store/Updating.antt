-- ===== src/Network/Links/Store/Updating.antt =====
-- `updateLink` keeps the links in order.
use smoothie.Base.{
  ℕ, String, ◌≡◌, refl, sym, ap, ◌∙◌, ◌≢◌, inl, inr, Option, some, nat_eq, string_eq, pair_eq,
  Option-cases,
}
use smoothie.Base.Dict.{get}
use smoothie.Base.Error.{Result, ok, Result-cases}
use smoothie.Base.Exec.{lift}
use smoothie.Base.Exec.{>>=-eq-ok, >>=_keeps}
use mathlib.Core.Path.{subst}
use smoothie.Network.Value.{Value, text, Attrs, value_eq}
use smoothie.Network.Mininet.{Graph, Net, Mininet}
use smoothie.Network.Links.Library.{LinkLib, find}
use smoothie.Network.Links.Ends.{name_at, oriented}
use smoothie.Network.Links.Store.{get_link, delete_link, pop_link, add_link, add_again, update_link}
use smoothie.Network.Links.Store.Gate.{add_link_refused}
use smoothie.Network.Links.Store.Edges.{find-entry}
use smoothie.Network.Links.Store.Adding.{add_link-IsLinked}
use smoothie.Network.Links.Store.Removing.{delete_link-IsLinked}
use smoothie.Network.Links.Store.Invariant.{IsLinked}

-- The links are in order.
abbrev pub InOrder : Net → Type 0
InOrder s = IsLinked s.g

module _ (mn : Mininet) (lib : LinkLib) where
  -- `addLink` between two nodes keeps the links in order, also where it raises.
  pub add_link-InOrder :
      (n1 n2 : String) (p1 p2 : Option Value) (key : Option ℕ) (o : Attrs) (s : Net)
      → n1 ≢ n2
      → InOrder s
      → InOrder (add_link mn lib n1 n2 p1 p2 key o s).1
  add_link-InOrder n1 n2 p1 p2 key o s apart v =
      let t = (add_link mn lib n1 n2 p1 p2 key o s).1 in
      elim (Result-cases (add_link mn lib n1 n2 p1 p2 key o s).0) [
        | inr (x, q) ↦ subst InOrder (sym (add_link_refused mn lib n1 n2 p1 p2 key o s x q)) v
        | inl (j, q) ↦
            add_link-IsLinked mn lib n1 n2 p1 p2 key o s v apart (ap (λ (r : Result ℕ). (r, t)) q)
      ]

  get_link-Reads : (n1 n2 : String) (key : Option ℕ) (s : Net) → (get_link mn lib n1 n2 key s).1 ≡ s
  unfolding get_link
  get_link-Reads n1 n2 key s = elim (Result-cases (lib.link_entry s.g n1 n2 key)) [
    | inr (x, q) ↦ rw (get_link, q) refl
    | inl ((e, k), q) ↦ elim (Option-cases (get e k)) [
      | inl r ↦ rw (get_link, q, r) refl
      | inr (i, r) ↦ rw (get_link, q, r) refl
    ]
  ]

  -- `getLink` gives the options that are stored under the key that it gives.
  pub find-get_link :
      (n1 n2 : String) (key : Option ℕ) (s : Net) (i : Attrs) (k : ℕ)
      → (get_link mn lib n1 n2 key s).0 ≡ ok (i, k)
      → find s.g n1 n2 k ≡ some i
  unfolding get_link
  find-get_link n1 n2 key s i k h = elim (Result-cases (lib.link_entry s.g n1 n2 key)) [
    | inr (x, q) ↦ cc (rw (get_link, q) at h)
    | inl ((e, k'), q) ↦ elim (Option-cases (get e k')) [
      | inl r ↦ cc (rw (get_link, q, r) at h)
      | inr (i', r) ↦
          let same : ◌≡◌ {A = Result (Attrs × ℕ)} (ok (i', k')) (ok (i, k)) =
            rw (get_link, q, r) at h in
          let here = find-entry s.g n1 n2 e k' (lib.link_entry_some s.g n1 n2 key e k' q) in
          cc (same, here, r)
    ]
  ]

  pub pop_link-InOrder :
      (n1 n2 : String) (key : Option ℕ) (s : Net)
      → InOrder s
      → InOrder (pop_link mn lib n1 n2 key s).1
  unfolding pop_link
  pop_link-InOrder n1 n2 key =
      >>=_keeps InOrder (get_link mn lib n1 n2 key) _
        (λ s v. subst InOrder (sym (get_link-Reads n1 n2 key s)) v)
        (λ (info, k).
          >>=_keeps InOrder (lift (name_at info "node1")) _ (λ s v. v)
            (λ a.
              >>=_keeps InOrder (lift (name_at info "node2")) _ (λ s v. v)
                (λ b.
                  >>=_keeps InOrder (delete_link mn lib a b (some k)) _
                    (delete_link-IsLinked mn lib a b (some k)) (λ u s v. v))))

  -- `popLink` gives the link that it takes away.
  pub find-pop_link :
      (n1 n2 : String) (key : Option ℕ) (s : Net) (i : Attrs) (k : ℕ)
      → (pop_link mn lib n1 n2 key s).0 ≡ ok (i, k)
      → find s.g n1 n2 k ≡ some i
  unfolding pop_link
  find-pop_link n1 n2 key s i k h =
      let t = (pop_link mn lib n1 n2 key s).1 in
      let ((i', k'), u, first, e1) =
        >>=-eq-ok (get_link mn lib n1 n2 key) _ s (ap (λ (r : Result (Attrs × ℕ)). (r, t)) h) in
      let (a, u1, _, e2) = >>=-eq-ok (lift (name_at i' "node1")) _ u e1 in
      let (b, u2, _, e3) = >>=-eq-ok (lift (name_at i' "node2")) _ u1 e2 in
      let (_, u3, _, e4) = >>=-eq-ok (delete_link mn lib a b (some k')) _ u2 e3 in
      let same : ◌≡◌ {A = Result (Attrs × ℕ)} (ok (i', k')) (ok (i, k)) =
        ap (λ (p : Result (Attrs × ℕ) × Net). p.0) e4 in
      let found =
        find-get_link n1 n2 key s i' k' (ap (λ (p : Result (Attrs × ℕ) × Net). p.0) first) in
      cc (same, found)

  pub name_there :
      (i : Attrs) (f a b : String) → get i f ≡ some (text a) → name_at i f ≡ ok b → a ≡ b
  unfolding name_at
  name_there i f a b h e =
      let same : ◌≡◌ {A = Result String} (ok a) (ok b) = rw (name_at, h) at e in cc same

  -- The names that a link holds are of two nodes.
  pub names_apart :
      (g : Graph) (n1 n2 a b : String) (k : ℕ) (i : Attrs)
      → IsLinked g
      → find g n1 n2 k ≡ some i
      → name_at i "node1" ≡ ok a
      → name_at i "node2" ≡ ok b
      → a ≢ b
  names_apart g n1 n2 a b k i v f ea eb same =
      let loop : n1 ≡ n2 = elim (v.ends n1 n2 k i f) [
        | inl w ↦ name_there i "node1" n1 a w.0 ea ∙ same ∙ sym (name_there i "node2" n2 b w.1 eb)
        | inr w ↦
            name_there i "node2" n1 b w.1 eb ∙ sym same ∙ sym (name_there i "node1" n2 a w.0 ea)
      ] in
      cc (f, v.no_loops n1 k, ap (λ x. find g n1 x k) loop)

  -- A change of a link leaves the links in order, whatever options are given, and also where it
  -- raises: the port may be taken, and the link that was taken away is then lost.
  pub update_link-InOrder :
      (n1 n2 : String) (key : Option ℕ) (opts : Attrs) (s : Net)
      → InOrder s
      → InOrder (update_link mn lib n1 n2 key opts s).1
  unfolding update_link add_again
  update_link-InOrder n1 n2 key opts s v =
      let w = pop_link-InOrder n1 n2 key s v in
      elim (Result-cases (pop_link mn lib n1 n2 key s).0) [
        | inr (x, q) ↦ rw (update_link, q) w
        | inl ((i, k), q) ↦ elim (Result-cases (oriented n1 n2 i opts)) [
          | inr (x, r) ↦ rw (update_link, q, r) w
          | inl (o, r) ↦ elim (Result-cases (name_at i "node1")) [
            | inr (x, ea) ↦ rw (update_link, q, r, ea) w
            | inl (a, ea) ↦ elim (Result-cases (name_at i "node2")) [
              | inr (x, eb) ↦ rw (update_link, q, r, ea, eb) w
              | inl (b, eb) ↦
                  rw (update_link, q, r, ea, eb)
                    (add_link-InOrder a b _ _ (some k) _ _
                      (names_apart s.g n1 n2 a b k i v (find-pop_link n1 n2 key s i k q) ea eb) w)
            ]
          ]
        ]
      ]
