-- ===== src/Network/Cpu/Enabled.antt =====
-- A CPU port that is added keeps the links in order.
use smoothie.Base.{
  String, ◌≡◌, refl, ap, ◌∙◌, ◌≢◌, inl, inr, true, false, not, ◌&&◌, none, some, [], ◌∷◌, nat_eq,
  string_eq, pair_eq, Bool-cases, Option-cases,
}
use smoothie.Base.Dict.{remove}
use smoothie.Base.Error.{Result, ok, Result-cases}
use smoothie.Base.Exec.{pure, ◌>>◌}
use smoothie.Base.Exec.{>>=-eq-ok}
use smoothie.Network.Value.{flag, given, Attrs, value_eq}
use smoothie.Network.Mininet.{Net, Mininet}
use smoothie.Network.Ids.{is_p4switch}
use smoothie.Network.Nodes.{
  add_switch, add_node, add_with_defaults, check_dpid, no_options, update_node,
}
use smoothie.Network.Links.Library.{LinkLib}
use smoothie.Network.Links.Store.{add_link}
use smoothie.Network.Links.Store.Updating.{InOrder, add_link-InOrder}
use smoothie.Network.Links.Auto.InOrder.{Keeps, then-Keeps, node-Keeps, same_edges-InOrder}
use smoothie.Network.Nodes.Kept.{add_switch-Keeps}
use smoothie.Network.Cpu.{bridge_options, cpu_intfs, set_bridge, bridge, enable_cpu_port}

module _ (mn : Mininet) (lib : LinkLib) where
  -- the name of the bridge, also before it is there
  abbrev pub bridge_of : Net → String
  bridge_of s = elim s.cpu_bridge [ none ↦ "sw-cpu" | some b ↦ b ]

  pub add_switch_name :
      (n m : String) (o : Attrs) (s t : Net) → add_switch mn n o s ≡ (ok m, t) → m ≡ n
  unfolding add_switch add_with_defaults add_node
  add_switch_name n m o s t h =
      let (u, r, _, e) = >>=-eq-ok (check_dpid mn (given o "dpid")) _ s h in
      elim (Bool-cases (no_options mn o && not (no_options mn r.sopts))) [
        | inl q ↦
            (let same : ◌≡◌ {A = Result String} (ok n) (ok m) =
                ap (λ (p : Result String × Net). p.0) (rw q at e) in
              cc same)
        | inr q ↦
            (let same : ◌≡◌ {A = Result String} (ok n) (ok m) =
                ap (λ (p : Result String × Net). p.0) (rw q at e) in
              cc same)
      ]

  add_switch-InOrder : (n : String) (o : Attrs) → Keeps mn (add_switch mn n o)
  add_switch-InOrder n o =
      add_switch-Keeps mn n InOrder
        (λ s a.
          same_edges-InOrder s (record s { g = mn.add_node s.g n a }) (mn.edge-add_node s.g n a))
        (λ s a v. v)
        (λ s.
          same_edges-InOrder s
            (record s { g = record { node = remove s.g.node n; edge = s.g.edge } }) refl)
        o

  bridge-Keeps : Keeps mn (bridge mn lib)
  unfolding bridge set_bridge
  bridge-Keeps s v = elim (Option-cases s.cpu_bridge) [
    | inr (b, q) ↦ rw (bridge, q) v
    | inl q ↦
        rw (bridge, q)
          (then-Keeps mn (add_switch mn "sw-cpu" bridge_options)
            (λ b. set_bridge mn lib (some b) >> pure b) (add_switch-InOrder "sw-cpu" bridge_options)
            (λ b s v. v) s v)
  ]

  bridge-named : (s t : Net) (b : String) → bridge mn lib s ≡ (ok b, t) → b ≡ bridge_of s
  unfolding bridge set_bridge
  bridge-named s t b h = elim (Option-cases s.cpu_bridge) [
    | inr (c, q) ↦
        (let same : ◌≡◌ {A = Result String} (ok c) (ok b) =
            ap (λ (p : Result String × Net). p.0) (rw (bridge, q) at h) in
          rw (bridge_of, q) (cc same))
    | inl q ↦
        let (c, r, done, e) =
          >>=-eq-ok (add_switch mn "sw-cpu" bridge_options)
            (λ b. set_bridge mn lib (some b) >> pure b) s (rw (bridge, q) at h) in
        let same : ◌≡◌ {A = Result String} (ok c) (ok b) =
          ap (λ (p : Result String × Net). p.0) e in
        let name : c ≡ "sw-cpu" = add_switch_name "sw-cpu" c bridge_options s r done in
        rw (bridge_of, q) (cc (same, name))
  ]

  pub enable_cpu_port-Keeps :
      (name : String) (s : Net)
      → name ≢ bridge_of s
      → InOrder s
      → InOrder (enable_cpu_port mn lib name s).1
  unfolding enable_cpu_port
  enable_cpu_port-Keeps name s apart v = elim (Result-cases (is_p4switch s.g name)) [
    | inr (x, q) ↦ rw (enable_cpu_port, q) v
    | inl (false, q) ↦ rw (enable_cpu_port, q) v
    | inl (true, q) ↦
        let w = bridge-Keeps s v in
        let t = (bridge mn lib s).1 in
        elim (Result-cases (bridge mn lib s).0) [
          | inr (x, r) ↦ rw (enable_cpu_port, q, r) w
          | inl (b, r) ↦
              let named : b ≡ bridge_of s =
                bridge-named s t b (ap (λ (p : Result String). (p, t)) r) in
              let differ : name ≢ b = λ e. apart (e ∙ named) in
              rw (enable_cpu_port, q, r)
                (then-Keeps mn (λ u. add_link mn lib name b none none none (cpu_intfs name) u)
                  (λ j. update_node mn name (("cpu_port", flag true) ∷ []) >> pure tt)
                  (λ u. add_link-InOrder mn lib name b none none none (cpu_intfs name) u differ)
                  (λ j.
                    then-Keeps mn (update_node mn name (("cpu_port", flag true) ∷ [])) _
                      (node-Keeps mn name _) (λ a u v. v))
                  t w)
        ]
  ]
