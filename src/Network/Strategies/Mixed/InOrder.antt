-- ===== src/Network/Strategies/Mixed/InOrder.antt =====
-- The strategy mixed keeps the links in order.
use smoothie.Base.{
  String, false, not, ◌||◌, none, List, [], ◌∷◌, if◌then◌else◌, ◌==◌, nat_eq, string_eq, pair_eq,
  contains,
}
use smoothie.Base.Dict.{Dict, get}
use smoothie.Base.Error.{assertion_error, key_error, or_raise, guard}
use smoothie.Base.Exec.{pure}
use smoothie.Base.Int.{ℤ}
use Prim.Native.String.{◌++◌ as append}
use smoothie.Network.Value.{Value, text, number, given, Attrs, value_eq}
use smoothie.Network.Mininet.{Mininet}
use smoothie.Network.Ids.{
  is_node, is_host, is_switch, is_p4switch, nodes_info, auto_switch_id, dpid_value,
}
use smoothie.Network.Nodes.{ask}
use smoothie.Network.Settings.{set_on_node, set_p4switch_id, set_switch_dpid, set_default_route}
use smoothie.Network.Links.Library.{Row, LinkLib}
use smoothie.Network.Links.Rows.{is_multigraph}
use smoothie.Network.Links.Setters.{set_intf_mac, set_intf_ip}
use smoothie.Network.Links.Setters.Kept.{set_intf_mac-Keeps, set_intf_ip-Keeps}
use smoothie.Network.Links.Auto.InOrder.{
  Keeps, reads-Keeps, then-Keeps, if-Keeps, set_if-Keeps, set_on_p4switch-Keeps,
  set_switch_dpid-Keeps,
}
use smoothie.Network.Strategies.{
  Plan, dotted, is_valid, host_number, attached, host_address, masked, whole, below_254,
}
use smoothie.Network.Strategies.Mixed.{
  Subnets, switch_number, mixed_node, mixed_nodes, reserve_host, mixed_reserve_link, subnet,
  mixed_reserve, set_gateway, mixed_link, mixed_links, claim, switch_link, switch_links, mixed,
}
use smoothie.Network.Strategies.InOrder.{given_or-Keeps}

module _ (mn : Mininet) (lib : LinkLib) (plan : Plan) where
  pub switch_number-Keeps : (n : String × Attrs) → Keeps mn (switch_number mn lib plan n)
  unfolding switch_number set_p4switch_id
  switch_number-Keeps (node, info) =
      reads-Keeps mn (λ s. is_p4switch s.g node) _
        (λ p4.
          if-Keeps mn p4 _ _
            (given_or-Keeps mn lib plan (given info "device_id") _ _ (λ id s v. v)
              (reads-Keeps mn (λ s. auto_switch_id mn 1 s.g) _
                (λ n.
                  then-Keeps mn (set_p4switch_id mn node n) _
                    (set_on_p4switch-Keeps mn node (("device_id", number n) ∷ [])) (λ u s v. v))))
            (given_or-Keeps mn lib plan (given info "dpid") _ _
              (λ dpid. reads-Keeps mn (λ s. dpid_value dpid) _ (λ n s v. v))
              (reads-Keeps mn (λ s. auto_switch_id mn 1 s.g) _
                (λ n.
                  then-Keeps mn (set_switch_dpid mn node (number n)) _
                    (set_switch_dpid-Keeps mn node (number n)) (λ u s v. v)))))

  mixed_node-Keeps : (d : Subnets) (n : String × Attrs) → Keeps mn (mixed_node mn lib plan d n)
  unfolding mixed_node
  mixed_node-Keeps d (node, info) =
      if-Keeps mn (node == "sw-cpu") _ _ (λ s v. v)
        (reads-Keeps mn (λ s. is_switch mn s.g node) _
          (λ switch.
            if-Keeps mn switch _ _
              (then-Keeps mn (switch_number mn lib plan (node, info)) _
                (switch_number-Keeps (node, info))
                (λ id. reads-Keeps mn (λ s. masked id) _ (λ n s v. v)))
              (reads-Keeps mn (λ s. is_host s.g node) _
                (λ host. reads-Keeps mn (λ s. guard host assertion_error) _ (λ u s v. v)))))

  mixed_nodes-Keeps :
      (d : Subnets) (ns : List (String × Attrs)) → Keeps mn (mixed_nodes mn lib plan d ns)
  unfolding mixed_nodes
  mixed_nodes-Keeps d [] = λ s v. v
  mixed_nodes-Keeps d (n ∷ ns) =
      then-Keeps mn (mixed_node mn lib plan d n) _ (mixed_node-Keeps d n)
        (λ more. mixed_nodes-Keeps more ns)

  reserve_host-Keeps :
      (d : Dict String String) (n : ℤ) (host : String)
      → Keeps mn (reserve_host mn lib plan d n host)
  unfolding reserve_host
  reserve_host-Keeps d n host =
      reads-Keeps mn (λ s. is_valid mn plan host) _
        (λ valid.
          if-Keeps mn valid _ _
            (reads-Keeps mn (λ s. host_number mn plan host) _
              (λ h. reads-Keeps mn (λ s. guard (below_254 h) assertion_error) _ (λ u s v. v)))
            (λ s v. v))

  mixed_reserve_link-Keeps :
      (d : Subnets) (reserved : Dict String String) (r : Row)
      → Keeps mn (mixed_reserve_link mn lib plan d reserved r)
  unfolding mixed_reserve_link
  mixed_reserve_link-Keeps d reserved r =
      reads-Keeps mn (λ s. attached mn plan r.node1 r.node2 s.g) _
        (λ at.
          given_or-Keeps mn lib plan at _ _
            (λ (host, switch).
              reads-Keeps mn (λ s. or_raise key_error (get d.ids switch)) _
                (λ id. reads-Keeps mn (λ s. masked id) _ (λ n. reserve_host-Keeps reserved n host)))
            (λ s v. v))

  mixed_reserve-Keeps :
      (d : Subnets) (reserved : Dict String String) (rs : List Row)
      → Keeps mn (mixed_reserve mn lib plan d reserved rs)
  unfolding mixed_reserve
  mixed_reserve-Keeps d reserved [] = λ s v. v
  mixed_reserve-Keeps d reserved (r ∷ rs) =
      then-Keeps mn (mixed_reserve_link mn lib plan d reserved r) _
        (mixed_reserve_link-Keeps d reserved r) (λ more. mixed_reserve-Keeps d more rs)

  set_default_route-Keeps : (name route : String) → Keeps mn (set_default_route mn name route)
  unfolding set_default_route set_on_node
  set_default_route-Keeps name route s v = set_if-Keeps mn (is_node mn s.g name) name _ s v

  pub set_gateway-Keeps :
      (host switch ip gw : String) → Keeps mn (set_gateway mn lib plan host switch ip gw)
  unfolding set_gateway
  set_gateway-Keeps host switch ip gw =
      then-Keeps mn (set_intf_mac mn lib host switch (text (plan.mac_of ip 0)) none) _
        (set_intf_mac-Keeps mn lib host switch _ none)
        (λ a.
          then-Keeps mn (set_intf_mac mn lib switch host (text (plan.mac_of ip 1)) none) _
            (set_intf_mac-Keeps mn lib switch host _ none)
            (λ b.
              then-Keeps mn (set_intf_ip mn lib host switch (append ip "/24") none) _
                (set_intf_ip-Keeps mn lib host switch _ none)
                (λ c.
                  then-Keeps mn (set_intf_ip mn lib switch host (append gw "/24") none) _
                    (set_intf_ip-Keeps mn lib switch host _ none)
                    (λ e. set_default_route-Keeps host gw))))

  mixed_link-Keeps :
      (d : Dict String String) (r : Row) (n : Subnets) (assigned : List String)
      → Keeps mn (mixed_link mn lib plan d r n assigned)
  unfolding mixed_link
  mixed_link-Keeps d r n assigned =
      reads-Keeps mn (λ s. attached mn plan r.node1 r.node2 s.g) _
        (λ at.
          given_or-Keeps mn lib plan at _ _
            (λ (host, switch).
              reads-Keeps mn (λ s. or_raise key_error (get n.ids switch)) _
                (λ id.
                  reads-Keeps mn (λ s. masked id) _
                    (λ k.
                      reads-Keeps mn (λ s. or_raise key_error (get n.generators switch)) _
                        (λ ips.
                          reads-Keeps mn (λ s. host_address mn plan d assigned ips host) _
                            (λ (ip, left).
                              then-Keeps mn
                                (set_gateway mn lib plan host switch ip
                                  (subnet mn lib plan k "254"))
                                _ (set_gateway-Keeps host switch ip _) (λ u s v. v))))))
            (λ s v. v))

  mixed_links-Keeps :
      (d : Dict String String) (rs : List Row) (n : Subnets) (assigned : List String)
      → Keeps mn (mixed_links mn lib plan d rs n assigned)
  unfolding mixed_links
  mixed_links-Keeps d [] n assigned = λ s v. v
  mixed_links-Keeps d (r ∷ rs) n assigned =
      then-Keeps mn (mixed_link mn lib plan d r n assigned) _ (mixed_link-Keeps d r n assigned)
        (λ (left, more). mixed_links-Keeps d rs left more)

  pub claim-Keeps :
      (ip : String) (assigned : List String) → Keeps mn (claim mn lib plan ip assigned)
  unfolding claim
  claim-Keeps ip assigned = if-Keeps mn (contains ip assigned) _ _ (λ s v. v) (λ s v. v)

  switch_link-Keeps :
      (ids : Dict String Value) (r : Row) (assigned : List String)
      → Keeps mn (switch_link mn lib plan ids r assigned)
  unfolding switch_link
  switch_link-Keeps ids r assigned =
      if-Keeps mn (r.node1 == "sw-cpu" || r.node2 == "sw-cpu") _ _ (λ s v. v)
        (reads-Keeps mn (λ s. is_switch mn s.g r.node1) _
          (λ switch1.
            then-Keeps mn (if switch1 then ask mn (λ g. is_switch mn g r.node2) else pure false) _
              (if-Keeps mn switch1 _ _ (λ s v. v) (λ s v. v))
              (λ switch2.
                if-Keeps mn switch2 _ _
                  (reads-Keeps mn (λ s. or_raise key_error (get ids r.node1)) _
                    (λ id1.
                      reads-Keeps mn (λ s. or_raise key_error (get ids r.node2)) _
                        (λ id2.
                          reads-Keeps mn (λ s. whole plan.trunc id1) _
                            (λ n1.
                              reads-Keeps mn (λ s. whole plan.trunc id2) _
                                (λ n2.
                                  let ip1 = dotted "20" (plan.str n1) (plan.str n2) "1/24" in
                                  let ip2 = dotted "20" (plan.str n1) (plan.str n2) "2/24" in
                                  then-Keeps mn (claim mn lib plan ip1 assigned) _
                                    (claim-Keeps ip1 assigned)
                                    (λ with1.
                                      then-Keeps mn (claim mn lib plan ip2 with1) _
                                        (claim-Keeps ip2 with1)
                                        (λ with2.
                                          then-Keeps mn
                                            (set_intf_ip mn lib r.node1 r.node2 ip1 none) _
                                            (set_intf_ip-Keeps mn lib r.node1 r.node2 ip1 none)
                                            (λ a.
                                              then-Keeps mn
                                                (set_intf_ip mn lib r.node2 r.node1 ip2 none) _
                                                (set_intf_ip-Keeps mn lib r.node2 r.node1 ip2 none)
                                                (λ b s v. v)))))))))
                  (λ s v. v))))

  pub switch_links-Keeps :
      (ids : Dict String Value) (rs : List Row) (assigned : List String)
      → Keeps mn (switch_links mn lib plan ids rs assigned)
  unfolding switch_links
  switch_links-Keeps ids [] assigned = λ s v. v
  switch_links-Keeps ids (r ∷ rs) assigned =
      then-Keeps mn (switch_link mn lib plan ids r assigned) _ (switch_link-Keeps ids r assigned)
        (λ more. switch_links-Keeps ids rs more)

  pub mixed-Keeps : Keeps mn (mixed mn lib plan)
  unfolding mixed
  mixed-Keeps s =
      then-Keeps mn
        (mixed_nodes mn lib plan (record { generators = []; ids = [] }) (nodes_info mn s.g)) _
        (mixed_nodes-Keeps _ (nodes_info mn s.g))
        (λ d.
          reads-Keeps mn (λ s. is_multigraph mn lib s.g) _
            (λ many.
              reads-Keeps mn (λ s. guard (not many) assertion_error) _
                (λ u t.
                  then-Keeps mn (mixed_reserve mn lib plan d [] (lib.links t.g)) _
                    (mixed_reserve-Keeps d [] (lib.links t.g))
                    (λ reserved t1.
                      then-Keeps mn (mixed_links mn lib plan reserved (lib.links t1.g) d []) _
                        (mixed_links-Keeps reserved (lib.links t1.g) d [])
                        (λ assigned t2. switch_links-Keeps d.ids (lib.links t2.g) assigned t2) t1)
                    t)))
        s
