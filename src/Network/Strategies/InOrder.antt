-- ===== src/Network/Strategies/InOrder.antt =====
-- The strategy l2 keeps the links in order.
use smoothie.Base.{String, not, Option, none, some, List, [], ◌∷◌, ◌==◌, nat_eq, string_eq, pair_eq}
use smoothie.Base.Dict.{Dict}
use smoothie.Base.Error.{assertion_error, guard}
use smoothie.Base.Exec.{Exec}
use Prim.Native.String.{◌++◌ as append}
use smoothie.Network.Value.{text, value_eq}
use smoothie.Network.Mininet.{Net, Mininet}
use smoothie.Network.Ids.{is_host, is_switch, nodes}
use smoothie.Network.Links.Library.{Row, LinkLib}
use smoothie.Network.Links.Rows.{is_multigraph}
use smoothie.Network.Links.Setters.{set_intf_mac, set_intf_ip}
use smoothie.Network.Links.Setters.Kept.{set_intf_mac-Keeps, set_intf_ip-Keeps}
use smoothie.Network.Links.Auto.InOrder.{Keeps, reads-Keeps, then-Keeps, if-Keeps}
use smoothie.Network.Strategies.{Plan, is_valid, host_number, attached, host_address}
use smoothie.Network.Strategies.L2.{
  reserve_node, reserve_nodes, set_addresses, l2_link, l2_links, l2,
}

module _ (mn : Mininet) (lib : LinkLib) (plan : Plan) where
  pub given_or-Keeps :
      {A B : Type 0} (o : Option A) (f : A → Exec Net B) (m : Exec Net B)
      → ((a : A) → Keeps mn (f a))
      → Keeps mn m
      → Keeps mn (elim o [ some a ↦ f a | none ↦ m ])
  given_or-Keeps none f m k l = l
  given_or-Keeps (some a) f m k l = k a

  set_addresses-Keeps :
      (host switch ip mask : String) → Keeps mn (set_addresses mn lib plan host switch ip mask)
  unfolding set_addresses
  set_addresses-Keeps host switch ip mask =
      then-Keeps mn (set_intf_mac mn lib host switch (text (plan.mac_of ip 0)) none) _
        (set_intf_mac-Keeps mn lib host switch _ none)
        (λ a.
          then-Keeps mn (set_intf_mac mn lib switch host (text (plan.mac_of ip 1)) none) _
            (set_intf_mac-Keeps mn lib switch host _ none)
            (λ b.
              then-Keeps mn (set_intf_ip mn lib host switch (append ip mask) none) _
                (set_intf_ip-Keeps mn lib host switch _ none) (λ c s v. v)))

  reserve_node-Keeps :
      (d : Dict String String) (n : String) → Keeps mn (reserve_node mn lib plan d n)
  unfolding reserve_node
  reserve_node-Keeps d n =
      if-Keeps mn (n == "sw-cpu") _ _ (λ s v. v)
        (reads-Keeps mn (λ s. is_host s.g n) _
          (λ host.
            if-Keeps mn host _ _
              (reads-Keeps mn (λ s. is_valid mn plan n) _
                (λ valid.
                  if-Keeps mn valid _ _ (reads-Keeps mn (λ s. host_number mn plan n) _ (λ k s v. v))
                    (λ s v. v)))
              (reads-Keeps mn (λ s. is_switch mn s.g n) _
                (λ switch. reads-Keeps mn (λ s. guard switch assertion_error) _ (λ u s v. v)))))

  reserve_nodes-Keeps :
      (d : Dict String String) (ns : List String) → Keeps mn (reserve_nodes mn lib plan d ns)
  unfolding reserve_nodes
  reserve_nodes-Keeps d [] = λ s v. v
  reserve_nodes-Keeps d (n ∷ ns) =
      then-Keeps mn (reserve_node mn lib plan d n) _ (reserve_node-Keeps d n)
        (λ more. reserve_nodes-Keeps more ns)

  l2_link-Keeps :
      (d : Dict String String) (r : Row) (ips assigned : List String)
      → Keeps mn (l2_link mn lib plan d r ips assigned)
  unfolding l2_link
  l2_link-Keeps d r ips assigned =
      reads-Keeps mn (λ s. attached mn plan r.node1 r.node2 s.g) _
        (λ at.
          given_or-Keeps at _ _
            (λ (host, switch).
              reads-Keeps mn (λ s. host_address mn plan d assigned ips host) _
                (λ (ip, left).
                  then-Keeps mn (set_addresses mn lib plan host switch ip "/16") _
                    (set_addresses-Keeps host switch ip "/16") (λ u s v. v)))
            (λ s v. v))

  l2_links-Keeps :
      (d : Dict String String) (rs : List Row) (ips assigned : List String)
      → Keeps mn (l2_links mn lib plan d rs ips assigned)
  unfolding l2_links
  l2_links-Keeps d [] ips assigned = λ s v. v
  l2_links-Keeps d (r ∷ rs) ips assigned =
      then-Keeps mn (l2_link mn lib plan d r ips assigned) _ (l2_link-Keeps d r ips assigned)
        (λ (left, more). l2_links-Keeps d rs left more)

  pub l2-Keeps : Keeps mn (l2 mn lib plan)
  unfolding l2
  l2-Keeps s =
      then-Keeps mn (reserve_nodes mn lib plan [] (nodes mn s.g)) _
        (reserve_nodes-Keeps [] (nodes mn s.g))
        (λ d.
          reads-Keeps mn (λ s. is_multigraph mn lib s.g) _
            (λ many.
              reads-Keeps mn (λ s. guard (not many) assertion_error) _
                (λ u t. l2_links-Keeps d (lib.links t.g) (plan.hosts_of "10.0.0.0/16") [] t)))
        s
