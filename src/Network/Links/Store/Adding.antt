-- ===== src/Network/Links/Store/Adding.antt =====
-- `addLink` keeps the links in order.
use smoothie.Base.{
  ℕ, String, ◌≡◌, refl, sym, ap, ◌∙◌, ◌≢◌, ◌⊎◌, inl, inr, true, false, Option, none, some, [],
  arith, if◌then◌else◌, ◌==◌, nat_eq, string_eq, pair_eq, Bool-cases,
}
use smoothie.Base.Dict.{get, put, get-put}
use smoothie.Base.Error.{Result, ok}
use mathlib.Core.Path.{subst}
use smoothie.Network.Value.{
  not_nothing, flag, real, params, Value, text, number, cls, nothing, given, Attrs, value_eq,
}
use smoothie.Network.Mininet.{Graph, Net, Mininet}
use smoothie.Network.Links.Library.{LinkLib, find, joins, joins-cases}
use smoothie.Network.Links.Rows.{node_ports}
use smoothie.Network.Links.Rows.Taken.{taken, note_rows_first, note_rows_second}
use smoothie.Network.Links.Store.{port_value, link_options, insert_link, add_link}
use smoothie.Network.Links.Store.Gate.{Free, add_link-Passed}
use smoothie.Network.Links.Store.Invariant.{IsFromTo, HasPort, IsLinked}

not_nothing-eq : (v p : Value) → not_nothing v ≡ some p → v ≡ p
not_nothing-eq nothing p h = cc
not_nothing-eq (text s) p h = cc
not_nothing-eq (number n) p h = cc
not_nothing-eq (flag b) p h = cc
not_nothing-eq (cls c) p h = cc
not_nothing-eq (real r) p h = cc
not_nothing-eq (params d) p h = cc

pub get-put_option :
    (d : Attrs) (k j : String) (v : Value)
    → get (put d k v) j ≡ (if k == j then some v else get d j)
get-put_option d k j v = get-put d k j v

pub given-some : (d : Attrs) (k : String) (v : Value) → get d k ≡ some v → given d k ≡ not_nothing v
unfolding given
given-some d k v e = rw (e, given) refl

module _ (mn : Mininet) (lib : LinkLib) where
  -- A port of a stored link is taken.
  stored-taken :
      (g : Graph) (n m : String) (k : ℕ) (i : Attrs) (p : Value)
      → IsLinked g
      → find g n m k ≡ some i
      → HasPort n p i
      → taken (node_ports mn lib g) n p ≡ true
  unfolding node_ports
  stored-taken g n m k i p v f h = elim (v.ends n m k i f) [
    | inl w ↦ elim h [
      | inl a ↦
          note_rows_first "port1" "port2" (record { node1 = n; node2 = m; key = k; info = i })
            (lib.links g) [] p (lib.links_complete g n m k i f w.0 w.1) a.1
      | inr a ↦ cc (w.1, a.0, f, v.no_loops n k)
    ]
    | inr w ↦ elim h [
      | inl a ↦ cc (w.0, a.0, f, v.no_loops n k)
      | inr a ↦
          note_rows_second "port1" "port2" (record { node1 = m; node2 = n; key = k; info = i })
            (lib.links g) [] p (lib.links_complete g m n k i (v.symmetric m n k ∙ f) w.0 w.1) a.1
    ]
  ]

  port_back :
      (q : Option Value) (p : Value) → not_nothing (port_value mn lib q) ≡ some p → q ≡ some p
  unfolding port_value
  port_back none p h = cc
  port_back (some v) p h = ap some (not_nothing-eq v p h)

  module _ (lopts o : Attrs) (n1 n2 : String) (p1 p2 : Option Value) where
    abbrev new : Attrs
    new = link_options mn lib lopts n1 n2 p1 p2 o

    pub new-IsFromTo : IsFromTo new n1 n2
    unfolding link_options
    new-IsFromTo = (
      rw
          (
            get-put_option _ "port2" "node1" _,
            get-put_option _ "port1" "node1" _,
            get-put_option _ "node2" "node1" _,
            get-put_option _ "node1" "node1" _,
          )
          refl,
      rw
          (
            get-put_option _ "port2" "node2" _,
            get-put_option _ "port1" "node2" _,
            get-put_option _ "node2" "node2" _,
          )
          refl,
    )

    pub new_port1 : (p : Value) → given new "port1" ≡ some p → p1 ≡ some p
    unfolding link_options
    new_port1 p h =
        let stored : get new "port1" ≡ some (port_value mn lib p1) =
          rw (get-put_option _ "port2" "port1" _, get-put_option _ "port1" "port1" _) refl in
        port_back p1 p (sym (given-some new "port1" (port_value mn lib p1) stored) ∙ h)

    pub new_port2 : (p : Value) → given new "port2" ≡ some p → p2 ≡ some p
    unfolding link_options
    new_port2 p h =
        let stored : get new "port2" ≡ some (port_value mn lib p2) =
          rw (get-put_option _ "port2" "port2" _) refl in
        port_back p2 p (sym (given-some new "port2" (port_value mn lib p2) stored) ∙ h)

  module _ (g : Graph) (lopts o : Attrs) (n1 n2 : String) (p1 p2 : Option Value) (key : Option ℕ)
      (v : IsLinked g) (apart : n1 ≢ n2) (free1 : Free (node_ports mn lib g) n1 p1)
      (free2 : Free (node_ports mn lib g) n2 p2) where
    abbrev added : Graph
    added = (lib.add_edge g n1 n2 key (new lopts o n1 n2 p1 p2)).1

    abbrev key' : ℕ
    key' = (lib.add_edge g n1 n2 key (new lopts o n1 n2 p1 p2)).0

    abbrev Law : String → String → ℕ → Type 0
    Law a b k = find added a b k ≡ (
        if joins n1 n2 a b
        then (if key' == k then some (new lopts o n1 n2 p1 p2) else find g n1 n2 k)
        else find g a b k)

    law : (a b : String) (k : ℕ) → Law a b k
    law a b k = lib.find-add_edge g n1 n2 key (new lopts o n1 n2 p1 p2) a b k

    added-symmetric : (a b : String) (k : ℕ) → find added a b k ≡ find added b a k
    added-symmetric a b k = ground (arith, law a b k, law b a k, v.symmetric a b k)

    added-no_loops : (a : String) (k : ℕ) → find added a a k ≡ none
    added-no_loops a k =
        ground
          (arith, law a a k, v.no_loops a k, string_eq.beq_iff n1 a, string_eq.beq_iff n2 a, apart)

    -- the link with the nodes in the order of the call, or the other way round
    abbrev IsNew : String → String → ℕ → Attrs → Type 0
    IsNew a b k i =
        (((a ≡ n1) × (b ≡ n2)) ⊎ ((a ≡ n2) × (b ≡ n1))) × (k ≡ key') × (i ≡ new lopts o n1 n2 p1 p2)

    IsNew-or_old :
        (a b : String) (k : ℕ) (i : Attrs)
        → find added a b k ≡ some i
        → IsNew a b k i ⊎ (find g a b k ≡ some i)
    IsNew-or_old a b k i f = elim (Bool-cases (joins n1 n2 a b)) [
      | inr away ↦ inr (sym (rw away at (law a b k)) ∙ f)
      | inl met ↦ elim (Bool-cases (key' == k)) [
        | inl same ↦ inl (
          joins-cases n1 n2 a b met,
          sym ((nat_eq.beq_iff key' k).0 same),
          cc (rw (met, same) at (law a b k), f),
        )
        | inr differs ↦
            let before : find g n1 n2 k ≡ some i = sym (rw (met, differs) at (law a b k)) ∙ f in
            inr (elim (joins-cases n1 n2 a b met) [
              | inl e ↦ rw (e.0, e.1) before
              | inr e ↦ rw (e.0, e.1) (v.symmetric n2 n1 k ∙ before)
            ])
      ]
    ]

    added-ends :
        (a b : String) (k : ℕ) (i : Attrs)
        → find added a b k ≡ some i
        → IsFromTo i a b ⊎ IsFromTo i b a
    added-ends a b k i f = elim (IsNew-or_old a b k i f) [
      | inr old ↦ v.ends a b k i old
      | inl (inl e, q, same) ↦ inl (rw (same, e.0, e.1) (new-IsFromTo lopts o n1 n2 p1 p2))
      | inl (inr e, q, same) ↦ inr (rw (same, e.0, e.1) (new-IsFromTo lopts o n1 n2 p1 p2))
    ]

    -- the ports of the new link were free
    new_port_free :
        (n : String) (p : Value)
        → HasPort n p (new lopts o n1 n2 p1 p2)
        → taken (node_ports mn lib g) n p ≡ false
    new_port_free n p (inl h) =
        let here : n1 ≡ n = cc (h.0, (new-IsFromTo lopts o n1 n2 p1 p2).0) in
        rw (sym here) (free1 p (new_port1 lopts o n1 n2 p1 p2 p h.1))
    new_port_free n p (inr h) =
        let here : n2 ≡ n = cc (h.0, (new-IsFromTo lopts o n1 n2 p1 p2).1) in
        rw (sym here) (free2 p (new_port2 lopts o n1 n2 p1 p2 p h.1))

    clash :
        (n : String) (p : Value) (i : Attrs) (m : String) (k : ℕ) (j : Attrs)
        → i ≡ new lopts o n1 n2 p1 p2
        → HasPort n p i
        → find g n m k ≡ some j
        → HasPort n p j
        → ⊥
    clash n p i m k j same h f h' =
        cc (new_port_free n p (rw same at h), stored-taken g n m k j p v f h')

    one_other :
        (n m m' : String)
        → ((n ≡ n1) × (m ≡ n2)) ⊎ ((n ≡ n2) × (m ≡ n1))
        → ((n ≡ n1) × (m' ≡ n2)) ⊎ ((n ≡ n2) × (m' ≡ n1))
        → m ≡ m'
    one_other n m m' (inl e) (inl e') = e.1 ∙ sym e'.1
    one_other n m m' (inl e) (inr e') = absurd (apart (sym e.0 ∙ e'.0))
    one_other n m m' (inr e) (inl e') = absurd (apart (sym e'.0 ∙ e.0))
    one_other n m m' (inr e) (inr e') = e.1 ∙ sym e'.1

    added_unique :
        (n : String) (p : Value) (m m' : String) (k k' : ℕ) (i i' : Attrs)
        → find added n m k ≡ some i
        → HasPort n p i
        → find added n m' k' ≡ some i'
        → HasPort n p i'
        → (m ≡ m') × (k ≡ k')
    added_unique n p m m' k k' i i' f h f' h' = elim (IsNew-or_old n m k i f) [
      | inr old ↦ elim (IsNew-or_old n m' k' i' f') [
        | inr old' ↦ v.unique n p m m' k k' i i' old h old' h'
        | inl (e, q, same) ↦ absurd (clash n p i' m k i same h' old h)
      ]
      | inl (e, q, same) ↦ elim (IsNew-or_old n m' k' i' f') [
        | inr old' ↦ absurd (clash n p i m' k' i' same h old' h')
        | inl (e', q', same') ↦ (one_other n m m' e e', q ∙ sym q')
      ]
    ]

    added-IsLinked : IsLinked added
    added-IsLinked = record {
      symmetric = added-symmetric;
      no_loops = added-no_loops;
      ends = added-ends;
      unique = added_unique;
    }

  -- A link between two nodes that is added keeps the links in order.
  pub add_link-IsLinked :
      (n1 n2 : String) (p1 p2 : Option Value) (key : Option ℕ) (o : Attrs) (s : Net) {j : ℕ}
      {t : Net}
      → IsLinked s.g
      → n1 ≢ n2
      → add_link mn lib n1 n2 p1 p2 key o s ≡ (ok j, t)
      → IsLinked t.g
  unfolding insert_link
  add_link-IsLinked n1 n2 p1 p2 key o s {j} {t} v apart e =
      let passed = add_link-Passed mn lib n1 n2 p1 p2 key o s e in
      subst (λ (u : Net). IsLinked u.g) (ap (λ (p : Result ℕ × Net). p.1) passed.inserted)
        (added-IsLinked s.g s.lopts o n1 n2 p1 p2 key v apart passed.free_port1 passed.free_port2)
