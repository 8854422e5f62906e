-- ===== src/Network/Nodes/Lookup.antt =====
-- src/Network_API_l.py: what adding a switch does, and what it refuses.
use smoothie.Base.{
  ℕ, String, ◌≡◌, refl, sym, ap, ◌∙◌, inl, inr, true, false, Option, none, some, List, [], ◌∷◌,
  arith, nat_eq, string_eq, pair_eq, Bool-cases, contains,
}
use smoothie.Base.Dict.{put}
use smoothie.Base.Error.{error, Result, ok, err, Result-cases}
use smoothie.Base.Exec.{>>=-eq-ok, lift}
use smoothie.Network.Value.{given, Value, number, flag, Attrs, value_eq}
use smoothie.Network.Mininet.{Net, Mininet}
use smoothie.Network.Ids.{switch_ids, dpid_value}
use smoothie.Network.Nodes.{
  add_p4switch, set_default, add_switch, check_dpid, check_device_id, refuse_used,
  add_with_defaults, no_options, p4_switch, add_node,
}

-- what `addP4Switch` makes of the options that it is given
abbrev pub switch_options : Attrs → Attrs
switch_options opts =
    put (put (set_default opts "cls" p4_switch) "isP4Switch" (flag true)) "isSwitch" (flag true)

some-injective : (v w : Value) → some v ≡ some w → v ≡ w
some-injective v w h = cc

module _ (mn : Mininet) where
  no_options-put : (a : Attrs) (k : String) (v : Value) → no_options mn (put a k v) ≡ false
  unfolding no_options put
  no_options-put [] k v = refl
  no_options-put ((j, w) ∷ a) k v = ground arith

  refuse_used-ok :
      (id : Value) (s t : Net) (u : Unit {0})
      → refuse_used mn id s ≡ (ok u, t)
      → (ids : List Value) × (switch_ids mn s.g ≡ ok ids) × (contains id ids ≡ false) × (t ≡ s)
  unfolding refuse_used
  refuse_used-ok id s t u e = elim (Result-cases (switch_ids mn s.g)) [
    | inr (x, q) ↦ cc (ap (λ (p : Result Unit × Net). p.0) (rw (q, refuse_used) at e))
    | inl (ids, q) ↦ elim (Bool-cases (contains id ids)) [
      | inl used ↦ cc (ap (λ (p : Result Unit × Net). p.0) (rw (q, used, refuse_used) at e))
      | inr free ↦
          (ids, q, free, sym (ap (λ (p : Result Unit × Net). p.1) (rw (q, free, refuse_used) at e)))
    ]
  ]

  check_dpid_same :
      (d : Option Value) (s t : Net) (u : Unit {0}) → check_dpid mn d s ≡ (ok u, t) → t ≡ s
  unfolding check_dpid
  check_dpid_same none s t u e = sym (ap (λ (p : Result Unit × Net). p.1) e)
  check_dpid_same (some d) s t u e =
      let (n, s1, e1, k) = >>=-eq-ok (lift (dpid_value d)) _ s e in
      let (ids, q, free, same) = refuse_used-ok (number n) s1 t u k in
      same ∙ sym (ap (λ (p : Result ℕ × Net). p.1) e1)

module _ (mn : Mininet) (name : String) (opts : Attrs) (s : Net) where
  check_device_id_same :
      (d : Option Value) (s t : Net) (u : Unit {0})
      → check_device_id mn d s ≡ (ok u, t)
      → (t ≡ s)
        × ((id : Value)
            → d ≡ some id
            → (ids : List Value) × (switch_ids mn s.g ≡ ok ids) × (contains id ids ≡ false))
  unfolding check_device_id
  check_device_id_same none s t u e = (sym (ap (λ (p : Result Unit × Net). p.1) e), λ id h. cc)
  check_device_id_same (some d) s t u e =
      let (ids, q, free, same) = refuse_used-ok mn d s t u e in
      (same, λ id h. (ids, q, rw (sym (some-injective d id h)) free))

  -- A P4 switch whose `device_id` is in use is refused, and the network stays as it was.
  pub add_p4switch_used :
      (id : Value) (ids : List Value)
      → given opts "device_id" ≡ some id
      → switch_ids mn s.g ≡ ok ids
      → contains id ids ≡ true
      → add_p4switch mn name opts s ≡ (err error, s)
  unfolding add_p4switch check_device_id refuse_used
  add_p4switch_used id ids e q u = rw (e, add_p4switch) (rw (q, check_device_id) (rw u))

  -- A P4 switch that is added got a `device_id` that no switch had, where it was given one, and it is
  -- the only change: the graph has it under its name with its options, marked as a P4 switch.
  pub add_p4switch-ok :
      (n : String) (t : Net)
      → add_p4switch mn name opts s ≡ (ok n, t)
      → (n ≡ name)
        × (t ≡ record s { g = mn.add_node s.g name (switch_options opts) })
        × ((id : Value)
            → given opts "device_id" ≡ some id
            → (ids : List Value) × (switch_ids mn s.g ≡ ok ids) × (contains id ids ≡ false))
  unfolding add_p4switch add_switch add_with_defaults add_node
  add_p4switch-ok n t e =
      let marked = put (set_default opts "cls" p4_switch) "isP4Switch" (flag true) in
      let (u, s1, e1, k1) = >>=-eq-ok (check_device_id mn (given opts "device_id")) _ s e in
      let (v, s2, e2, k2) = >>=-eq-ok (check_dpid mn (given marked "dpid")) _ s1 k1 in
      let last =
        rw (no_options-put mn (set_default opts "cls" p4_switch) "isP4Switch" (flag true)) at k2 in
      let same1 = check_device_id_same (given opts "device_id") s s1 u e1 in
      let same2 : s2 ≡ s = check_dpid_same mn (given marked "dpid") s1 s2 v e2 ∙ same1.0 in
      let added : add_node mn name (switch_options opts) s2 ≡ (ok n, t) = last in
      let added' : add_node mn name (switch_options opts) s ≡ (ok n, t) = rw same2 at added in
      let name_n : name ≡ n = cc (ap (λ (p : Result String × Net). p.0) added') in
      (sym name_n, sym (ap (λ (p : Result String × Net). p.1) added'), same1.1)
