-- ===== src/Network/Strategies/L3.antt =====
-- src/Network_API_l.py: the strategy l3.
pub mod InOrder
use smoothie.Base.{
  ◌+◌, String, Bool, true, false, not, none, some, List, [], ◌∷◌, ◌++◌, arith, if◌then◌else◌, ◌==◌,
  nat_eq, string_eq, pair_eq,
}
use smoothie.Base.Dict.{Dict, get, put}
use smoothie.Base.Error.{assertion_error, key_error, or_raise, guard}
use smoothie.Base.Exec.{Exec, pure, lift, gets, ◌>>=◌, ◌>>◌}
use smoothie.Base.Int.{ℤ}
use smoothie.Network.Value.{Value, Attrs, value_eq}
use smoothie.Network.Mininet.{Net, Mininet}
use smoothie.Network.Ids.{is_switch, nodes_info}
use smoothie.Network.Nodes.{ask}
use smoothie.Network.Links.Library.{Row, LinkLib}
use smoothie.Network.Links.Rows.{is_multigraph}
use smoothie.Network.Strategies.{
  Plan, sw_cpu, below_254, dotted, whole, is_valid, host_number, attached,
}
use smoothie.Network.Strategies.Mixed.{switch_number, set_gateway, claim, switch_links}

-- what the first loop of l3 leaves: the numbers of the hosts and the id of each switch
pub record Numbers : Type 0 where
  pub taken_ids : Dict String (List ℤ)
  pub ids : Dict String Value

module _ (mn : Mininet) (lib : LinkLib) (plan : Plan) where
  -- a round of the first loop of l3
  unfoldable pub l3_node : Numbers → String × Attrs → Exec Net Numbers
  l3_node numbers (node, info) = if node == sw_cpu then pure numbers else (do
    switch ← ask mn (λ g. is_switch mn g node)
    if switch
        then (do
          id ← switch_number mn lib plan (node, info)
          pure
              (record { taken_ids = put numbers.taken_ids node []; ids = put numbers.ids node id }))
        else pure numbers)

  unfoldable pub l3_nodes : Numbers → List (String × Attrs) → Exec Net Numbers
  l3_nodes numbers [] = pure numbers
  l3_nodes numbers (n ∷ ns) = do more ← l3_node numbers n; l3_nodes more ns

  -- sw_to_next_available_host_id[switch].append(n)
  unfoldable pub append_number : Dict String (List ℤ) → String → ℤ → Exec Net (Dict String (List ℤ))
  append_number taken_ids switch n = lift (or_raise key_error (get taken_ids switch)) >>= λ ns.
      pure (put taken_ids switch (ns ++ n ∷ []))

  -- the number of a host, which is to be below 254
  unfoldable pub small_number : String → Exec Net ℤ
  small_number host = do
    n ← lift (host_number mn plan host)
    lift (guard (below_254 n) assertion_error)
    pure n

  -- a round of the second loop of l3
  unfoldable pub l3_reserve_link :
      Dict String Value → Dict String (List ℤ) → Row → Exec Net (Dict String (List ℤ))
  l3_reserve_link ids taken_ids r = do
    at ← ask mn (attached mn plan r.node1 r.node2)
    elim at [
      | none ↦ pure taken_ids
      | some (host, switch) ↦
          (lift (is_valid mn plan host) >>= λ valid.
          (if valid
            then (lift (or_raise key_error (get ids switch)) >>= λ id.
                (small_number host >>= λ n. append_number taken_ids switch n))
            else pure taken_ids))
    ]

  unfoldable pub l3_reserve :
      Dict String Value → Dict String (List ℤ) → List Row → Exec Net (Dict String (List ℤ))
  l3_reserve ids taken_ids [] = pure taken_ids
  l3_reserve ids taken_ids (r ∷ rs) = do
    more ← l3_reserve_link ids taken_ids r
    l3_reserve ids more rs

  -- The number of a host is the one of its name, or else the next free one of its switch, which is
  -- then in use.
  unfoldable pub l3_number : String → String → Dict String (List ℤ) → Exec Net (ℤ × Bool)
  l3_number host switch taken_ids = do
    valid ← lift (is_valid mn plan host)
    if valid then (small_number host >>= λ n. pure (n, false)) else (do
      ns ← lift (or_raise key_error (get taken_ids switch))
      n ← lift (plan.next_number ns)
      pure (n, true))

  -- a round of the third loop of l3
  unfoldable pub l3_link :
      Dict String Value
      → Row
      → Dict String (List ℤ)
      → List String
      → Exec Net (Dict String (List ℤ) × List String)
  l3_link ids r taken_ids assigned = do
    at ← ask mn (attached mn plan r.node1 r.node2)
    elim at [
      | none ↦ pure (taken_ids, assigned)
      | some (host, switch) ↦
          (lift (or_raise key_error (get ids switch)) >>= λ id.
          (lift (whole plan.trunc id) >>= λ sw.
          (lift (guard (below_254 sw) assertion_error)
            >> (l3_number host switch taken_ids >>= λ (n, new).
                (claim mn lib plan (dotted "10" (plan.str sw) (plan.str n) "2") assigned
                  >>= λ with_ip.
                      (claim mn lib plan (dotted "10" (plan.str sw) (plan.str n) "1") with_ip
                        >>= λ with_gw.
                            ((if new then append_number taken_ids switch n else pure taken_ids)
                              >>= λ more.
                                  (set_gateway mn lib plan host switch
                                      (dotted "10" (plan.str sw) (plan.str n) "2")
                                      (dotted "10" (plan.str sw) (plan.str n) "1")
                                    >> pure (more, with_gw)))))))))
    ]

  unfoldable pub l3_links :
      Dict String Value → List Row → Dict String (List ℤ) → List String → Exec Net (List String)
  l3_links ids [] taken_ids assigned = pure assigned
  l3_links ids (r ∷ rs) taken_ids assigned = do
    (more, used) ← l3_link ids r taken_ids assigned
    l3_links ids rs more used

  -- `l3`
  unfoldable pub l3 : Exec Net (Unit {0})
  l3 = do
    ns ← gets (λ s. nodes_info mn s.g)
    numbers ← l3_nodes (record { taken_ids = []; ids = [] }) ns
    many ← ask mn (is_multigraph mn lib)
    lift (guard (not many) assertion_error)
    rows ← gets (λ s. lib.links s.g)
    reserved ← l3_reserve numbers.ids numbers.taken_ids rows
    rows ← gets (λ s. lib.links s.g)
    assigned ← l3_links numbers.ids rows reserved []
    rows ← gets (λ s. lib.links s.g)
    switch_links mn lib plan numbers.ids rows assigned
