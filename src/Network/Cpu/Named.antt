-- ===== src/Network/Cpu/Named.antt =====
-- The bridge of the CPU ports keeps its name.
use smoothie.Base.{
  ℕ, String, ◌≡◌, refl, sym, ap, ◌∙◌, inl, inr, true, Option, none, some, [], ◌∷◌, nat_eq,
  string_eq, pair_eq, Option-cases,
}
use smoothie.Base.Error.{Result, Result-cases}
use smoothie.Base.Exec.{>>=_keeps, if_keeps}
use smoothie.Network.Value.{Value, flag, Attrs, value_eq}
use smoothie.Network.Mininet.{Net, Mininet}
use smoothie.Network.Ids.{is_p4switch}
use smoothie.Network.Nodes.{add_switch, update_node}
use smoothie.Network.Nodes.Kept.{add_switch-Keeps, update_node-Keeps}
use smoothie.Network.Links.Library.{LinkLib}
use smoothie.Network.Links.Store.{add_link, insert_link}
use smoothie.Network.Links.Store.Gate.{add_link-Passed, add_link_refused}
use smoothie.Network.Cpu.{bridge_options, cpu_intfs, set_bridge, bridge, enable_cpu_port}
use smoothie.Network.Cpu.Enabled.{bridge_of, add_switch_name}

abbrev bridge_name : Option String → String
bridge_name none = "sw-cpu"
bridge_name (some b) = b

module _ (mn : Mininet) (lib : LinkLib) where
  add_link-cpu_bridge :
      (n1 n2 : String) (p1 p2 : Option Value) (key : Option ℕ) (o : Attrs) (s : Net)
      → (add_link mn lib n1 n2 p1 p2 key o s).1.cpu_bridge ≡ s.cpu_bridge
  unfolding insert_link
  add_link-cpu_bridge n1 n2 p1 p2 key o s =
      let t = (add_link mn lib n1 n2 p1 p2 key o s).1 in
      elim (Result-cases (add_link mn lib n1 n2 p1 p2 key o s).0) [
        | inr (x, q) ↦
            ap (λ (u : Net). u.cpu_bridge) (add_link_refused mn lib n1 n2 p1 p2 key o s x q)
        | inl (j, q) ↦
            ap (λ (r : Result ℕ × Net). r.1.cpu_bridge)
              (sym
                (add_link-Passed mn lib n1 n2 p1 p2 key o s
                  (ap (λ (r : Result ℕ). (r, t)) q)).inserted)
      ]

  -- The bridge is called as the program calls it.
  abbrev pub IsNamed : Net → Type 0
  IsNamed s = bridge_of mn lib s ≡ "sw-cpu"

  bridge-IsNamed : (s : Net) → IsNamed s → IsNamed (bridge mn lib s).1
  unfolding bridge set_bridge
  bridge-IsNamed s h = elim (Option-cases s.cpu_bridge) [
    | inr (b, q) ↦ rw (bridge, q) h
    | inl q ↦
        let t = (add_switch mn "sw-cpu" bridge_options s).1 in
        let still : t.cpu_bridge ≡ none =
          add_switch-Keeps mn "sw-cpu" (λ u. u.cpu_bridge ≡ none) (λ u a k. k) (λ u a k. k)
            (λ u k. k) bridge_options s q in
        elim (Result-cases (add_switch mn "sw-cpu" bridge_options s).0) [
          | inr (x, r) ↦ rw (bridge, q, r) (rw (bridge_of, still) refl)
          | inl (c, r) ↦
              rw (bridge, q, r)
                (add_switch_name mn lib "sw-cpu" c bridge_options s t
                  (ap (λ (v : Result String). (v, t)) r))
        ]
  ]

  pub enable_cpu_port-IsNamed :
      (name : String) (s : Net) → IsNamed s → IsNamed (enable_cpu_port mn lib name s).1
  unfolding enable_cpu_port
  enable_cpu_port-IsNamed name =
      >>=_keeps IsNamed (λ (s : Net). (is_p4switch s.g name, s)) _ (λ s h. h)
        (λ p4.
          if_keeps IsNamed p4 _ _
            (>>=_keeps IsNamed (bridge mn lib) _ bridge-IsNamed (λ b.
              >>=_keeps IsNamed (add_link mn lib name b none none none (cpu_intfs name)) _
                (λ t k.
                  ap (λ (c : Option String). bridge_name c)
                    (add_link-cpu_bridge name b none none none (cpu_intfs name) t)
                  ∙ k)
                (λ j.
                  >>=_keeps IsNamed (update_node mn name (("cpu_port", flag true) ∷ [])) _
                    (update_node-Keeps mn name IsNamed (λ u a k. k) (λ u a k. k) (λ u k. k) _)
                    (λ a t k. k))))
            (λ s h. h))
