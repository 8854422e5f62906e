-- ===== src/Network/Links/Auto/InOrder.antt =====
-- The automatic assignment keeps the links in order.
use smoothie.Base.{
  ℕ, String, ◌≡◌, refl, Bool, true, false, not, Option, none, some, List, [], ◌∷◌, if◌then◌else◌,
  nat_eq, string_eq, pair_eq, set,
}
use smoothie.Base.Dict.{get, remove}
use smoothie.Base.Error.{key_error, Result, or_raise}
use smoothie.Base.Exec.{Exec, pure, ◌>>=◌}
use smoothie.Base.Exec.{>>=_keeps}
use smoothie.Network.Value.{Value, text, number, given, Attrs, value_eq}
use smoothie.Network.Mininet.{Graph, Net, Mininet}
use smoothie.Network.Ids.{
  is_host, is_switch, is_p4switch, is_p4runtime_switch, nodes_info, auto_switch_id, auto_grpc_port,
  auto_thrift_port,
}
use smoothie.Network.Nodes.{update_node}
use smoothie.Network.Nodes.Kept.{update_node-Keeps}
use smoothie.Network.Settings.{
  set_if, set_on_p4switch, set_p4switch_id, set_thrift_port, set_grpc_port, set_switch_dpid,
}
use smoothie.Network.Links.Library.{Row, LinkLib}
use smoothie.Network.Links.Setters.{set_intf_port, set_intf_name, set_intf_mac, set_intf_ip}
use smoothie.Network.Links.Setters.Kept.{
  set_intf_port-Keeps, set_intf_name-Keeps, set_intf_mac-Keeps, set_intf_ip-Keeps,
}
use smoothie.Network.Links.Store.Edges.{same_edges, Alike-IsLinked}
use smoothie.Network.Links.Store.Updating.{InOrder}
use smoothie.Network.Links.Auto.{
  Source, own_ip, ip_param, auto_mac_address, auto_ip_address, fill_in, assign_node, assign_nodes,
  assign_port, assign_name, assign_mac, new_ip, assign_ip, assign_link, is_default_intf,
  update_host, each_row, update_hosts, auto_assignment,
}

pub same_edges-InOrder : (s t : Net) → t.g.edge ≡ s.g.edge → InOrder s → InOrder t
same_edges-InOrder s t e v = Alike-IsLinked t.g s.g (same_edges t.g s.g e) v

module _ (mn : Mininet) where
  abbrev pub Keeps : {A : Type 0} → Exec Net A → Type 0
  Keeps m = (s : Net) → InOrder s → InOrder (m s).1

  pub node-Keeps : (name : String) (o : Attrs) → Keeps (update_node mn name o)
  node-Keeps name o =
      update_node-Keeps mn name InOrder
        (λ s a.
          same_edges-InOrder s (record s { g = mn.add_node s.g name a })
            (mn.edge-add_node s.g name a))
        (λ s a v. v)
        (λ s.
          same_edges-InOrder s
            (record s { g = record { node = remove s.g.node name; edge = s.g.edge } }) refl)
        o

  -- A step that reads, before one that keeps the links in order.
  pub reads-Keeps :
      {A B : Type 0} (q : Net → Result A) (f : A → Exec Net B)
      → ((a : A) → Keeps (f a))
      → Keeps ((λ (s : Net). (q s, s)) >>= f)
  reads-Keeps q f k = >>=_keeps InOrder (λ s. (q s, s)) f (λ s v. v) k

  pub then-Keeps :
      {A B : Type 0} (m : Exec Net A) (f : A → Exec Net B)
      → Keeps m
      → ((a : A) → Keeps (f a))
      → Keeps (m >>= f)
  then-Keeps m f = >>=_keeps InOrder m f

  pub set_if-Keeps : (b : Bool) (name : String) (o : Attrs) → Keeps (set_if mn b name o)
  unfolding set_if
  set_if-Keeps true name o = then-Keeps (update_node mn name o) _ (node-Keeps name o) (λ a s v. v)
  set_if-Keeps false name o = λ s v. v

  pub set_on_p4switch-Keeps : (name : String) (o : Attrs) → Keeps (set_on_p4switch mn name o)
  unfolding set_on_p4switch
  set_on_p4switch-Keeps name o =
      reads-Keeps (λ s. is_p4switch s.g name) _ (λ b. set_if-Keeps b name o)

  pub if-Keeps :
      {A : Type 0} (b : Bool) (m k : Exec Net A) → Keeps m → Keeps k → Keeps (if b then m else k)
  if-Keeps true m k x y = x
  if-Keeps false m k x y = y

  pub set_switch_dpid-Keeps : (name : String) (v : Value) → Keeps (set_switch_dpid mn name v)
  unfolding set_switch_dpid
  set_switch_dpid-Keeps name v =
      reads-Keeps (λ s. is_switch mn s.g name) _
        (λ b.
          if-Keeps b _ _
            (reads-Keeps (λ s. is_p4switch s.g name) _ (λ p. set_if-Keeps (not p) name _))
            (λ s v. v))

  set_grpc_port-Keeps : (name : String) (n : ℕ) → Keeps (set_grpc_port mn name n)
  unfolding set_grpc_port
  set_grpc_port-Keeps name n =
      reads-Keeps (λ s. is_p4runtime_switch s.g name) _ (λ b. set_if-Keeps b name _)

module _ (mn : Mininet) (lib : LinkLib) (src : Source) where
  fill_in-Keeps :
      (v : Option Value) (next : Graph → Result ℕ) (set : ℕ → Exec Net (Unit {0}))
      → ((n : ℕ) → Keeps mn (set n))
      → Keeps mn (fill_in mn lib src v next set)
  unfolding fill_in
  fill_in-Keeps (some v) next set k = λ s v. v
  fill_in-Keeps none next set k = reads-Keeps mn (λ s. next s.g) set k

  assign_node-Keeps : (n : String × Attrs) → Keeps mn (assign_node mn lib src n)
  unfolding assign_node set_p4switch_id set_thrift_port
  assign_node-Keeps (node, info) =
      reads-Keeps mn (λ s. is_p4switch s.g node) _
        (λ p4.
          if-Keeps mn p4 _ _
            (then-Keeps mn
              (fill_in mn lib src (given info "device_id") (auto_switch_id mn 1)
                (set_p4switch_id mn node))
              _
              (fill_in-Keeps (given info "device_id") (auto_switch_id mn 1)
                (set_p4switch_id mn node)
                (λ n. set_on_p4switch-Keeps mn node (("device_id", number n) ∷ [])))
              (λ u.
                then-Keeps mn
                  (fill_in mn lib src (given info "thrift_port") (auto_thrift_port mn 9090)
                    (set_thrift_port mn node))
                  _
                  (fill_in-Keeps (given info "thrift_port") (auto_thrift_port mn 9090)
                    (set_thrift_port mn node)
                    (λ n. set_on_p4switch-Keeps mn node (("thrift_port", number n) ∷ [])))
                  (λ u.
                    reads-Keeps mn (λ s. is_p4runtime_switch s.g node) _
                      (λ rt.
                        if-Keeps mn rt _ _
                          (fill_in-Keeps (given info "grpc_port") (auto_grpc_port mn 9559)
                            (set_grpc_port mn node) (set_grpc_port-Keeps mn node))
                          (λ s v. v)))))
            (reads-Keeps mn (λ s. is_switch mn s.g node) _
              (λ sw.
                if-Keeps mn sw _ _
                  (fill_in-Keeps (given info "dpid") (auto_switch_id mn 1)
                    (λ id. set_switch_dpid mn node (text (src.dpid_to_str id)))
                    (λ n. set_switch_dpid-Keeps mn node _))
                  (λ s v. v))))

  assign_nodes-Keeps : (ns : List (String × Attrs)) → Keeps mn (assign_nodes mn lib src ns)
  unfolding assign_nodes
  assign_nodes-Keeps [] = λ s v. v
  assign_nodes-Keeps (n ∷ ns) =
      then-Keeps mn (assign_node mn lib src n) _ (assign_node-Keeps n) (λ u. assign_nodes-Keeps ns)

  module _ (node other : String) (key : ℕ) where
    assign_port-Keeps : (p : Option Value) → Keeps mn (assign_port mn lib src node other key p)
    unfolding assign_port
    assign_port-Keeps (some p) = λ s v. v
    assign_port-Keeps none =
        reads-Keeps mn (λ s. is_host s.g node) _
          (λ host s v.
            then-Keeps mn (set_intf_port mn lib node other _ (some key)) _
              (set_intf_port-Keeps mn lib node other _ (some key)) (λ j t w. w) s v)

    assign_name-Keeps :
        (p : Option Value) (port : Value) → Keeps mn (assign_name mn lib src node other key p port)
    unfolding assign_name
    assign_name-Keeps (some p) port = λ s v. v
    assign_name-Keeps none port =
        then-Keeps mn (set_intf_name mn lib node other _ (some key)) _
          (set_intf_name-Keeps mn lib node other _ (some key)) (λ j t w. w)

    assign_mac-Keeps : (p : Option Value) → Keeps mn (assign_mac mn lib src node other key p)
    unfolding assign_mac
    assign_mac-Keeps (some p) = λ s v. v
    assign_mac-Keeps none =
        reads-Keeps mn (λ s. auto_mac_address mn lib src node other key s.g) _
          (λ mac.
            then-Keeps mn (set_intf_mac mn lib node other mac (some key)) _
              (set_intf_mac-Keeps mn lib node other mac (some key)) (λ j t w. w))

    new_ip-Keeps : Keeps mn (new_ip mn lib src node other key)
    unfolding new_ip
    new_ip-Keeps =
        reads-Keeps mn (λ s. auto_ip_address mn lib src s.g) _
          (λ ip.
            then-Keeps mn (set_intf_ip mn lib node other ip (some key)) _
              (set_intf_ip-Keeps mn lib node other ip (some key)) (λ j t w. w))

    no_address-Keeps :
        (ip : Option String)
        → Keeps mn (elim ip [ none ↦ new_ip mn lib src node other key | some i ↦ pure tt ])
    no_address-Keeps none = new_ip-Keeps
    no_address-Keeps (some i) = λ s v. v

    assign_ip-Keeps : (p : Option Value) → Keeps mn (assign_ip mn lib src node other key p)
    unfolding assign_ip
    assign_ip-Keeps none =
        reads-Keeps mn (λ s. is_host s.g node) _
          (λ host. if-Keeps mn host _ _ new_ip-Keeps (λ s v. v))
    assign_ip-Keeps (some p) =
        reads-Keeps mn (λ s. is_host s.g node) _
          (λ host.
            if-Keeps mn host _ _ (reads-Keeps mn (λ s. own_ip p) _ no_address-Keeps) (λ s v. v))

  assign_link-Keeps : (r : Row) → Keeps mn (assign_link mn lib src r)
  unfolding assign_link
  assign_link-Keeps r =
      then-Keeps mn (assign_port mn lib src r.node1 r.node2 r.key (given r.info "port1")) _
        (assign_port-Keeps r.node1 r.node2 r.key (given r.info "port1"))
        (λ p1.
          then-Keeps mn (assign_port mn lib src r.node2 r.node1 r.key (given r.info "port2")) _
            (assign_port-Keeps r.node2 r.node1 r.key (given r.info "port2"))
            (λ p2.
              then-Keeps mn
                (assign_name mn lib src r.node1 r.node2 r.key (given r.info "intfName1") p1) _
                (assign_name-Keeps r.node1 r.node2 r.key (given r.info "intfName1") p1)
                (λ u.
                  then-Keeps mn
                    (assign_name mn lib src r.node2 r.node1 r.key (given r.info "intfName2") p2) _
                    (assign_name-Keeps r.node2 r.node1 r.key (given r.info "intfName2") p2)
                    (λ u.
                      then-Keeps mn
                        (assign_mac mn lib src r.node1 r.node2 r.key (given r.info "addr1")) _
                        (assign_mac-Keeps r.node1 r.node2 r.key (given r.info "addr1"))
                        (λ u.
                          then-Keeps mn
                            (assign_mac mn lib src r.node2 r.node1 r.key (given r.info "addr2")) _
                            (assign_mac-Keeps r.node2 r.node1 r.key (given r.info "addr2"))
                            (λ u.
                              then-Keeps mn
                                (assign_ip mn lib src r.node1 r.node2 r.key
                                  (given r.info "params1"))
                                _ (assign_ip-Keeps r.node1 r.node2 r.key (given r.info "params1"))
                                (λ u.
                                  assign_ip-Keeps r.node2 r.node1 r.key
                                    (given r.info "params2"))))))))

  each_row-Keeps :
      (act : Row → Exec Net (Unit {0})) (rs : List Row)
      → ((r : Row) → Keeps mn (act r))
      → Keeps mn (each_row mn lib src act rs)
  unfolding each_row
  each_row-Keeps act [] k = λ s v. v
  each_row-Keeps act (r ∷ rs) k = then-Keeps mn (act r) _ (k r) (λ u. each_row-Keeps act rs k)

  update_host-Keeps :
      (node other : String) (r : Row) (addr par : String)
      → Keeps mn (update_host mn lib src node other r addr par)
  unfolding update_host
  update_host-Keeps node other r addr par =
      reads-Keeps mn (λ s. is_host s.g node) _
        (λ host.
          if-Keeps mn host _ _
            (reads-Keeps mn (λ s. is_default_intf mn lib src s.g node other (some r.key)) _
              (λ default.
                if-Keeps mn default _ _
                  (reads-Keeps mn (λ s. or_raise key_error (get r.info addr)) _
                    (λ mac. then-Keeps mn (update_node mn node _) _ (node-Keeps mn node _) (λ u.
                      reads-Keeps mn (λ s. ip_param (get r.info par)) _
                        (λ ip.
                          then-Keeps mn (update_node mn node _) _ (node-Keeps mn node _)
                            (λ u s v. v)))))
                  (λ s v. v)))
            (λ s v. v))

  update_hosts-Keeps : (r : Row) → Keeps mn (update_hosts mn lib src r)
  unfolding update_hosts
  update_hosts-Keeps r =
      then-Keeps mn (update_host mn lib src r.node1 r.node2 r "addr1" "params1") _
        (update_host-Keeps r.node1 r.node2 r "addr1" "params1")
        (λ u. update_host-Keeps r.node2 r.node1 r "addr2" "params2")

  -- The automatic assignment leaves links that are in order in order, also where it raises: no two
  -- links get the same port of a node.
  pub auto_assignment-InOrder : (s : Net) → InOrder s → InOrder (auto_assignment mn lib src s).1
  unfolding auto_assignment
  auto_assignment-InOrder s =
      then-Keeps mn (assign_nodes mn lib src (nodes_info mn s.g)) _
        (assign_nodes-Keeps (nodes_info mn s.g))
        (λ u t w.
          then-Keeps mn (each_row mn lib src (assign_link mn lib src) (lib.sorted_links t.g)) _
            (each_row-Keeps (assign_link mn lib src) (lib.sorted_links t.g) assign_link-Keeps)
            (λ u t' w'.
              each_row-Keeps (update_hosts mn lib src) (lib.links t'.g) update_hosts-Keeps t' w')
            t w)
        s
