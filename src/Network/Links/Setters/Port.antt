-- ===== src/Network/Links/Setters/Port.antt =====
-- `setIntfPort` changes the end of the link at the first node that the caller names.
use smoothie.Base.{
  ℕ, String, ◌≡◌, refl, sym, ap, ◌∙◌, inl, inr, false, Option, some, nat_eq, string_eq, pair_eq,
  beq_refl, Bool-cases, Option-cases,
}
use smoothie.Base.Dict.{Dict, get, remove, has}
use smoothie.Base.Error.{ok}
use mathlib.Core.Path.{subst}
use smoothie.Network.Value.{Value, given, not_nothing, is_params, Attrs, value_eq}
use smoothie.Network.Mininet.{Net, Mininet}
use smoothie.Network.Links.Library.{LinkLib, find}
use smoothie.Network.Links.Ends.{other_end, replace, contains_char}
use smoothie.Network.Links.Rows.{Facing, node_ports}
use smoothie.Network.Links.Setters.{only, refuse_present, set_intf_port}
use smoothie.Network.Links.Setters.Stored.{oriented-cases}
use smoothie.Network.Links.Store.{port_value, link_options}
use smoothie.Network.Links.Store.Gate.{Reads, behind}
use smoothie.Network.Links.Store.Updating.{InOrder, name_there}
use smoothie.Network.Links.Store.Changed.{merged, changed_link, Changed, update_link-Changed}
use smoothie.Network.Links.Store.Adding.{get-put_option, given-some, new-IsFromTo}
use smoothie.Network.Links.Store.Invariant.{HasPort}

module _ (mn : Mininet) (lib : LinkLib) (p : Value) (set : not_nothing p ≡ some p)
    (plain : is_params p ≡ false) where
  module _ (lopts o : Attrs) (a b : String) (q : Option Value) where
    first_port : given (link_options mn lib lopts a b (some p) q o) "port1" ≡ some p
    unfolding link_options port_value
    first_port =
        given-some _ "port1" p
          (rw (get-put_option _ "port2" "port1" _, get-put_option _ "port1" "port1" _) refl)
        ∙ set

    second_port : given (link_options mn lib lopts a b q (some p) o) "port2" ≡ some p
    unfolding link_options port_value
    second_port = given-some _ "port2" p (rw (get-put_option _ "port2" "port2" _) refl) ∙ set

  merged_port : (i : Attrs) (f : String) → given (merged mn lib i (only f p)) f ≡ some p
  unfolding get
  merged_port i f =
      given-some (merged mn lib i (only f p)) f p (
        mn.merge_dict_new (remove (remove i "node1") "node2") (only f p) f p (rw (beq_refl f) refl)
          plain)
      ∙ set

  module _ (lopts i c : Attrs) (a b : String) where
    first_end : c ≡ only "port1" p → HasPort a p (changed_link mn lib lopts a b i c)
    first_end e = inl (
      (new-IsFromTo mn lib lopts _ a b _ _).0,
      rw (e, merged_port i "port1") (first_port lopts _ a b _),
    )

    second_end : c ≡ only "port2" p → HasPort b p (changed_link mn lib lopts a b i c)
    second_end e = inr (
      (new-IsFromTo mn lib lopts _ a b _ _).1,
      rw (e, merged_port i "port2") (second_port lopts _ a b _),
    )

  Changed-HasPort :
      (n1 n2 : String) (s t : Net) (j : ℕ)
      → InOrder s
      → Changed mn lib n1 n2 (only "port1" p) s j t
      → (i : Attrs) × (find t.g n1 n2 j ≡ some i) × HasPort n1 p i
  unfolding other_end contains_char replace
  Changed-HasPort n1 n2 s t j v u =
      let i = changed_link mn lib u.lopts u.a u.b u.before u.changed in
      (
        i,
        u.is_now,
        elim (oriented-cases mn lib n1 n2 u.before "port1" p u.changed u.turned) [
          | inr c ↦
              let here : u.b ≡ n1 = cc (u.name2, c.1) in
              subst (λ n. HasPort n p i) here (second_end u.lopts u.before u.changed u.a u.b c.0)
          | inl c ↦ elim (v.ends n1 n2 j u.before u.was) [
            | inl w ↦
                let here : u.a ≡ n1 = sym (name_there mn lib u.before "node1" n1 u.a w.0 u.name1) in
                subst (λ n. HasPort n p i) here (first_end u.lopts u.before u.changed u.a u.b c.0)
            | inr w ↦ absurd (
                c.1 (u.name2 ∙ ap ok (sym (name_there mn lib u.before "node2" n1 u.b w.1 u.name2))))
          ]
        ],
      )

  refuse_present-Reads :
      (d : Dict String (Dict Value Facing)) (n : String) → Reads (refuse_present mn lib d n p)
  unfolding refuse_present
  refuse_present-Reads d n s = elim (Option-cases (get d n)) [
    | inl q ↦ rw (q, refuse_present) refl
    | inr (m, q) ↦ elim (Bool-cases (has m p)) [
      | inl r ↦ rw (q, r, refuse_present) refl
      | inr r ↦ rw (q, r, refuse_present) refl
    ]
  ]

  -- Where `setIntfPort` returns, the link's end at the first node has the port, in whichever order the
  -- link holds its nodes; the port is neither None nor a dictionary.
  pub set_intf_port_stored :
      (n1 n2 : String) (key : Option ℕ) (s : Net) {j : ℕ} {t : Net}
      → InOrder s
      → set_intf_port mn lib n1 n2 p key s ≡ (ok j, t)
      → (i : Attrs) × (find t.g n1 n2 j ≡ some i) × HasPort n1 p i
  unfolding set_intf_port
  set_intf_port_stored n1 n2 key s {j} {t} v e =
      let (u, passed, rest) =
        behind (refuse_present mn lib (node_ports mn lib s.g) n1 p) _ s (refuse_present-Reads _ n1)
          e in
      Changed-HasPort n1 n2 s t j v (update_link-Changed mn lib n1 n2 key (only "port1" p) s v rest)
