-- ===== src/Network/Nodes/Kept.antt =====
-- What the changes of a node keep.
use smoothie.Base.{
  String, ◌≢◌, inl, inr, Bool, true, false, not, ◌&&◌, Option, none, some, [], ◌∷◌, arith,
  if◌then◌else◌, nat_eq, string_eq, pair_eq, Bool-cases, Option-cases, contains,
}
use smoothie.Base.Dict.{get, put, remove, has}
use smoothie.Base.Error.{Result}
use smoothie.Base.Exec.{Exec, lift, ◌>>=◌}
use smoothie.Base.Exec.{>>=_keeps}
use smoothie.Network.Value.{given, Value, number, flag, Attrs, value_eq}
use smoothie.Network.Mininet.{Graph, Net, Mininet}
use smoothie.Network.Ids.{
  switch_ids, dpid_value, is_host, is_switch, is_p4switch, is_p4runtime_switch, is_router,
}
use smoothie.Network.Nodes.{
  Kind, p4switch, host, p4runtime_switch, switch, router, other, node_kind, update_node, pop_node,
  get_node, delete_node, node_setter, add_node, add_host, add_switch, add_p4switch,
  add_p4runtime_switch, add_router, add_with_defaults, check_dpid, check_device_id, refuse_used,
  set_default, no_options, p4_host,
}

pub put_ne_nil : (a : Attrs) (k : String) (v : Value) → put a k v ≢ []
unfolding put
put_ne_nil [] k v e = cc
put_ne_nil ((j, w) ∷ a) k v e = ground arith

-- To ask for the kind of a node changes nothing.
module _ (mn : Mininet) (name : String) (At : Net → Type 0) where
  abbrev Keeping : {A : Type 0} → Exec Net A → Type 0
  Keeping e = (s : Net) → At s → At (e s).1

  -- a question with a yes or no, before what keeps it
  ask-Keeps :
      (q : Graph → Result Bool) (e f : Exec Net Kind)
      → Keeping e
      → Keeping f
      → Keeping ((λ (s : Net). (q s.g, s)) >>= λ b. if b then e else f)
  ask-Keeps q e f he hf =
      >>=_keeps At (λ s. (q s.g, s)) _ (λ s h. h)
        (λ b s h. elim (Bool-cases b) [ inl t ↦ rw t (he s h) | inr t ↦ rw t (hf s h) ])

  pub node_kind-Keeps : Keeping (node_kind mn name)
  unfolding node_kind
  node_kind-Keeps =
      ask-Keeps (λ g. is_host g name) _ _ (λ s h. h)
        (ask-Keeps (λ g. is_p4runtime_switch g name) _ _ (λ s h. h)
          (ask-Keeps (λ g. is_p4switch g name) _ _ (λ s h. h)
            (ask-Keeps (λ g. is_switch mn g name) _ _ (λ s h. h)
              (ask-Keeps (λ g. is_router g name) _ _ (λ s h. h) (λ s h. h)))))

-- What holds of a network holds after the changes of a node if it holds after the three changes that
-- they are made of.
module _ (mn : Mininet) (name : String) (At : Net → Type 0)
    (adds : (s : Net) (a : Attrs) → At s → At (record s { g = mn.add_node s.g name a }))
    (marks : (s : Net) (a : Attrs) → At s → At (record s { sopts = a }))
    (drops : (s : Net)
      → At s
      → At (record s { g = record { node = remove s.g.node name; edge = s.g.edge } })) where
  abbrev Keeps : {A : Type 0} → Exec Net A → Type 0
  Keeps e = (s : Net) → At s → At (e s).1

  add_node-Keeps : (opts : Attrs) → Keeps (add_node mn name opts)
  unfolding add_node
  add_node-Keeps opts s h = adds s opts h

  add_host-Keeps : (opts : Attrs) → Keeps (add_host mn name opts)
  unfolding add_host
  add_host-Keeps opts s h =
      rw
        (mn.add_host_lem s.g name _
          (put_ne_nil (set_default opts "cls" p4_host) "isHost" (flag true)))
        (adds s _ h)

  refuse_used-Keeps : (id : Value) → Keeps (refuse_used mn id)
  unfolding refuse_used
  refuse_used-Keeps id =
      >>=_keeps At (λ s. (switch_ids mn s.g, s)) _ (λ s h. h)
        (λ ids t h. elim (Bool-cases (contains id ids)) [ inl u ↦ rw u h | inr u ↦ rw u h ])

  check_dpid-Keeps : (d : Option Value) → Keeps (check_dpid mn d)
  unfolding check_dpid
  check_dpid-Keeps none = λ s h. h
  check_dpid-Keeps (some d) =
      >>=_keeps At (lift (dpid_value d)) _ (λ s h. h) (λ n. refuse_used-Keeps (number n))

  check_device_id-Keeps : (d : Option Value) → Keeps (check_device_id mn d)
  unfolding check_device_id
  check_device_id-Keeps none = λ s h. h
  check_device_id-Keeps (some d) = refuse_used-Keeps d

  pub add_switch-Keeps : (opts : Attrs) → Keeps (add_switch mn name opts)
  unfolding add_switch add_with_defaults
  add_switch-Keeps opts =
      >>=_keeps At (check_dpid mn (given opts "dpid")) _ (check_dpid-Keeps (given opts "dpid"))
        (λ u s h. elim (Bool-cases (no_options mn opts && not (no_options mn s.sopts))) [
          | inl d ↦ rw d (
              add_node-Keeps (put s.sopts "isSwitch" (flag true)) _
                (marks s (put s.sopts "isSwitch" (flag true)) h))
          | inr d ↦ rw d (add_node-Keeps (put opts "isSwitch" (flag true)) s h)
        ])

  add_p4switch-Keeps : (opts : Attrs) → Keeps (add_p4switch mn name opts)
  unfolding add_p4switch
  add_p4switch-Keeps opts =
      >>=_keeps At (check_device_id mn (given opts "device_id")) _
        (check_device_id-Keeps (given opts "device_id")) (λ u. add_switch-Keeps _)

  pub node_setter-Keeps : (k : Kind) (opts : Attrs) → Keeps (node_setter mn k name opts)
  unfolding node_setter add_p4runtime_switch add_router
  node_setter-Keeps host = add_host-Keeps
  node_setter-Keeps p4runtime_switch = λ opts. add_p4switch-Keeps _
  node_setter-Keeps p4switch = add_p4switch-Keeps
  node_setter-Keeps switch = add_switch-Keeps
  node_setter-Keeps router = λ opts. add_node-Keeps _
  node_setter-Keeps other = add_node-Keeps

  get_node-Keeps : Keeps (get_node mn name)
  unfolding get_node
  get_node-Keeps s h = elim (Option-cases (get s.g.node name)) [
    | inl n ↦ rw (n, get_node) h
    | inr (a, n) ↦ rw (n, get_node) h
  ]

  delete_node-Keeps : Keeps (delete_node mn name false)
  unfolding delete_node
  delete_node-Keeps s h = elim (Bool-cases (has s.g.node name)) [
    | inl n ↦ rw (n, delete_node) (drops s h)
    | inr n ↦ rw (n, delete_node) h
  ]

  pop_node-Keeps : Keeps (pop_node mn name false)
  unfolding pop_node
  pop_node-Keeps =
      >>=_keeps At (get_node mn name) _ get_node-Keeps
        (λ a. >>=_keeps At (delete_node mn name false) _ delete_node-Keeps (λ u s h. h))

  pub update_node-Keeps : (opts : Attrs) → Keeps (update_node mn name opts)
  unfolding update_node
  update_node-Keeps opts =
      >>=_keeps At (node_kind mn name) _ (node_kind-Keeps mn name At) (λ k.
        >>=_keeps At (pop_node mn name false) _ pop_node-Keeps (λ info. node_setter-Keeps k _))
