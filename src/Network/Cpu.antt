-- ===== src/Network/Cpu.antt =====
-- src/Network_API_l.py: the CPU ports of the P4 switches, which are links to one more switch.
pub mod InOrder
pub mod Enabled
pub mod Named
use smoothie.Base.{
  ◌-◌, String, Bool, true, false, Option, none, some, List, [], ◌∷◌, arith, if◌then◌else◌, nat_eq,
  string_eq, pair_eq,
}
use smoothie.Base.Error.{error, ok}
use smoothie.Base.Exec.{Exec, pure, raise, gets, ◌>>=◌, ◌>>◌}
use Prim.Native.String.{◌++◌ as append}
use smoothie.Network.Value.{text, flag, cls, Attrs, value_eq}
use smoothie.Network.Mininet.{Net, Mininet}
use smoothie.Network.Ids.{is_node, is_p4switch, p4switches}
use smoothie.Network.Flags.{has_cpu_port}
use smoothie.Network.Nodes.{ask, add_switch, update_node, pop_node}
use smoothie.Network.Links.Library.{LinkLib}
use smoothie.Network.Links.Store.{add_link, pop_link}

abbrev pub bridge_options : Attrs
bridge_options = ("cls", cls "LinuxBridge") ∷ ("dpid", text "1000000000000000") ∷ []

-- the names of the interfaces of a CPU port
unfoldable pub cpu_intfs : String → Attrs
cpu_intfs name =
    ("intfName1", text (append name "-cpu-eth0"))
    ∷ ("intfName2", text (append name "-cpu-eth1"))
    ∷ ("deleteIntfs", flag true)
    ∷ []

module _ (mn : Mininet) (lib : LinkLib) where
  unfoldable pub set_bridge : Option String → Exec Net (Unit {0})
  set_bridge b s = (ok tt, record s { cpu_bridge = b })

  -- `self.cpu_bridge`, which is added where there is none
  unfoldable pub bridge : Exec Net String
  bridge s = elim s.cpu_bridge [
    | some b ↦ (ok b, s)
    | none ↦ (do b ← add_switch mn "sw-cpu" bridge_options; set_bridge (some b); pure b) s
  ]

  -- `enableCpuPort`
  unfoldable pub enable_cpu_port : String → Exec Net (Unit {0})
  enable_cpu_port name = do
    p4 ← ask mn (λ g. is_p4switch g name)
    if p4
        then (do
          b ← bridge
          add_link mn lib name b none none none (cpu_intfs name)
          update_node mn name (("cpu_port", flag true) ∷ [])
          pure tt)
        else raise error

  -- Some switch of the list has a CPU port.
  unfoldable pub any_cpu_port : List (String × Attrs) → Exec Net Bool
  any_cpu_port [] = pure false
  any_cpu_port ((name, info) ∷ ns) = do
    here ← has_cpu_port mn name
    if here then pure true else any_cpu_port ns

  unfoldable pub drop_bridge : Option String → Exec Net (Unit {0})
  drop_bridge none = pure tt
  drop_bridge (some b) = do
    there ← gets (λ s. is_node mn s.g b)
    if there then (pop_node mn b true >> pure tt) else pure tt
    set_bridge none

  -- `disableCpuPort`: the bridge goes with the last port.
  unfoldable pub disable_cpu_port : String → Exec Net (Unit {0})
  disable_cpu_port name = do
    p4 ← ask mn (λ g. is_p4switch g name)
    if p4
        then (do
          cpu ← has_cpu_port mn name
          if cpu
              then (do
                pop_link mn lib name "sw-cpu" none
                update_node mn name (("cpu_port", flag false) ∷ [])
                ns ← ask mn (p4switches mn)
                left ← any_cpu_port ns
                b ← gets (λ s. s.cpu_bridge)
                if left then pure tt else drop_bridge b)
              else pure tt)
        else raise error

  unfoldable pub each_switch :
      (String → Exec Net (Unit {0})) → List (String × Attrs) → Exec Net (Unit {0})
  each_switch act [] = pure tt
  each_switch act ((name, info) ∷ ns) = do act name; each_switch act ns

  -- `enableCpuPortAll`
  unfoldable pub enable_cpu_port_all : Exec Net (Unit {0})
  enable_cpu_port_all = do ns ← ask mn (p4switches mn); each_switch enable_cpu_port ns

  -- `disableCpuPortAll`
  unfoldable pub disable_cpu_port_all : Exec Net (Unit {0})
  disable_cpu_port_all = do ns ← ask mn (p4switches mn); each_switch disable_cpu_port ns
