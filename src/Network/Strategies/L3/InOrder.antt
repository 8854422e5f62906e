-- ===== src/Network/Strategies/L3/InOrder.antt =====
-- The strategy l3 keeps the links in order.
use smoothie.Base.{String, not, List, [], ◌∷◌, if◌then◌else◌, ◌==◌, nat_eq, string_eq, pair_eq}
use smoothie.Base.Dict.{Dict, get}
use smoothie.Base.Error.{assertion_error, key_error, or_raise, guard}
use smoothie.Base.Exec.{pure}
use smoothie.Base.Int.{ℤ}
use smoothie.Network.Value.{Value, Attrs, value_eq}
use smoothie.Network.Mininet.{Mininet}
use smoothie.Network.Ids.{is_switch, nodes_info}
use smoothie.Network.Links.Library.{Row, LinkLib}
use smoothie.Network.Links.Rows.{is_multigraph}
use smoothie.Network.Links.Auto.InOrder.{Keeps, reads-Keeps, then-Keeps, if-Keeps}
use smoothie.Network.Strategies.{Plan, dotted, is_valid, host_number, attached, whole, below_254}
use smoothie.Network.Strategies.Mixed.{switch_number, set_gateway, claim}
use smoothie.Network.Strategies.InOrder.{given_or-Keeps}
use smoothie.Network.Strategies.Mixed.InOrder.{
  switch_number-Keeps, set_gateway-Keeps, claim-Keeps, switch_links-Keeps,
}
use smoothie.Network.Strategies.L3.{
  Numbers, l3_node, l3_nodes, append_number, small_number, l3_reserve_link, l3_reserve, l3_number,
  l3_link, l3_links, l3,
}

module _ (mn : Mininet) (lib : LinkLib) (plan : Plan) where
  l3_node-Keeps : (d : Numbers) (n : String × Attrs) → Keeps mn (l3_node mn lib plan d n)
  unfolding l3_node
  l3_node-Keeps d (node, info) =
      if-Keeps mn (node == "sw-cpu") _ _ (λ s v. v)
        (reads-Keeps mn (λ s. is_switch mn s.g node) _
          (λ switch.
            if-Keeps mn switch _ _
              (then-Keeps mn (switch_number mn lib plan (node, info)) _
                (switch_number-Keeps mn lib plan (node, info)) (λ id s v. v))
              (λ s v. v)))

  l3_nodes-Keeps : (d : Numbers) (ns : List (String × Attrs)) → Keeps mn (l3_nodes mn lib plan d ns)
  unfolding l3_nodes
  l3_nodes-Keeps d [] = λ s v. v
  l3_nodes-Keeps d (n ∷ ns) =
      then-Keeps mn (l3_node mn lib plan d n) _ (l3_node-Keeps d n) (λ more. l3_nodes-Keeps more ns)

  append_number-Keeps :
      (d : Dict String (List ℤ)) (switch : String) (n : ℤ)
      → Keeps mn (append_number mn lib plan d switch n)
  unfolding append_number
  append_number-Keeps d switch n =
      reads-Keeps mn (λ s. or_raise key_error (get d switch)) _ (λ ns s v. v)

  small_number-Keeps : (host : String) → Keeps mn (small_number mn lib plan host)
  unfolding small_number
  small_number-Keeps host =
      reads-Keeps mn (λ s. host_number mn plan host) _
        (λ n. reads-Keeps mn (λ s. guard (below_254 n) assertion_error) _ (λ u s v. v))

  l3_reserve_link-Keeps :
      (ids : Dict String Value) (d : Dict String (List ℤ)) (r : Row)
      → Keeps mn (l3_reserve_link mn lib plan ids d r)
  unfolding l3_reserve_link
  l3_reserve_link-Keeps ids d r =
      reads-Keeps mn (λ s. attached mn plan r.node1 r.node2 s.g) _
        (λ at.
          given_or-Keeps mn lib plan at _ _
            (λ (host, switch).
              reads-Keeps mn (λ s. is_valid mn plan host) _
                (λ valid.
                  if-Keeps mn valid _ _
                    (reads-Keeps mn (λ s. or_raise key_error (get ids switch)) _
                      (λ id.
                        then-Keeps mn (small_number mn lib plan host) _ (small_number-Keeps host)
                          (λ n. append_number-Keeps d switch n)))
                    (λ s v. v)))
            (λ s v. v))

  l3_reserve-Keeps :
      (ids : Dict String Value) (d : Dict String (List ℤ)) (rs : List Row)
      → Keeps mn (l3_reserve mn lib plan ids d rs)
  unfolding l3_reserve
  l3_reserve-Keeps ids d [] = λ s v. v
  l3_reserve-Keeps ids d (r ∷ rs) =
      then-Keeps mn (l3_reserve_link mn lib plan ids d r) _ (l3_reserve_link-Keeps ids d r)
        (λ more. l3_reserve-Keeps ids more rs)

  l3_number-Keeps :
      (host switch : String) (d : Dict String (List ℤ))
      → Keeps mn (l3_number mn lib plan host switch d)
  unfolding l3_number
  l3_number-Keeps host switch d =
      reads-Keeps mn (λ s. is_valid mn plan host) _
        (λ valid.
          if-Keeps mn valid _ _
            (then-Keeps mn (small_number mn lib plan host) _ (small_number-Keeps host) (λ n s v. v))
            (reads-Keeps mn (λ s. or_raise key_error (get d switch)) _
              (λ ns. reads-Keeps mn (λ s. plan.next_number ns) _ (λ n s v. v))))

  l3_link-Keeps :
      (ids : Dict String Value) (r : Row) (d : Dict String (List ℤ)) (assigned : List String)
      → Keeps mn (l3_link mn lib plan ids r d assigned)
  unfolding l3_link
  l3_link-Keeps ids r d assigned =
      reads-Keeps mn (λ s. attached mn plan r.node1 r.node2 s.g) _
        (λ at.
          given_or-Keeps mn lib plan at _ _
            (λ (host, switch).
              reads-Keeps mn (λ s. or_raise key_error (get ids switch)) _
                (λ id.
                  reads-Keeps mn (λ s. whole plan.trunc id) _
                    (λ sw.
                      reads-Keeps mn (λ s. guard (below_254 sw) assertion_error) _
                        (λ u.
                          then-Keeps mn (l3_number mn lib plan host switch d) _
                            (l3_number-Keeps host switch d)
                            (λ (n, new).
                              let ip = dotted "10" (plan.str sw) (plan.str n) "2" in
                              let gw = dotted "10" (plan.str sw) (plan.str n) "1" in
                              then-Keeps mn (claim mn lib plan ip assigned) _
                                (claim-Keeps mn lib plan ip assigned)
                                (λ with_ip.
                                  then-Keeps mn (claim mn lib plan gw with_ip) _
                                    (claim-Keeps mn lib plan gw with_ip)
                                    (λ with_gw.
                                      then-Keeps mn
                                        (if new
                                          then append_number mn lib plan d switch n
                                          else pure d)
                                        _
                                        (if-Keeps mn new _ _ (append_number-Keeps d switch n)
                                          (λ s v. v))
                                        (λ more.
                                          then-Keeps mn (set_gateway mn lib plan host switch ip gw)
                                            _ (set_gateway-Keeps mn lib plan host switch ip gw)
                                            (λ w s v. v)))))))))
            (λ s v. v))

  l3_links-Keeps :
      (ids : Dict String Value) (rs : List Row) (d : Dict String (List ℤ)) (assigned : List String)
      → Keeps mn (l3_links mn lib plan ids rs d assigned)
  unfolding l3_links
  l3_links-Keeps ids [] d assigned = λ s v. v
  l3_links-Keeps ids (r ∷ rs) d assigned =
      then-Keeps mn (l3_link mn lib plan ids r d assigned) _ (l3_link-Keeps ids r d assigned)
        (λ (more, used). l3_links-Keeps ids rs more used)

  pub l3-Keeps : Keeps mn (l3 mn lib plan)
  unfolding l3
  l3-Keeps s =
      then-Keeps mn (l3_nodes mn lib plan (record { taken_ids = []; ids = [] }) (nodes_info mn s.g))
        _ (l3_nodes-Keeps _ (nodes_info mn s.g))
        (λ d.
          reads-Keeps mn (λ s. is_multigraph mn lib s.g) _
            (λ many.
              reads-Keeps mn (λ s. guard (not many) assertion_error) _
                (λ u t.
                  then-Keeps mn (l3_reserve mn lib plan d.ids d.taken_ids (lib.links t.g)) _
                    (l3_reserve-Keeps d.ids d.taken_ids (lib.links t.g))
                    (λ reserved t1.
                      then-Keeps mn (l3_links mn lib plan d.ids (lib.links t1.g) reserved []) _
                        (l3_links-Keeps d.ids (lib.links t1.g) reserved [])
                        (λ assigned t2.
                          switch_links-Keeps mn lib plan d.ids (lib.links t2.g) assigned t2)
                        t1)
                    t)))
        s
