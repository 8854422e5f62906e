-- ===== src/Network/Links/Setters.antt =====
-- src/Network_API_l.py: the setters of links.
pub mod Kept
pub mod Stored
pub mod Port
use smoothie.Base.{
  ℕ, String, Bool, true, false, ◌||◌, Option, none, some, List, [], ◌∷◌, arith, if◌then◌else◌,
  nat_eq, string_eq, pair_eq,
}
use smoothie.Base.Dict.{Dict, get, has}
use smoothie.Base.Error.{error, key_error, type_error}
use smoothie.Base.Exec.{Exec, pure, raise, gets, ◌>>=◌, ◌>>◌}
use Prim.Native.String.{◌++◌ as append}
use smoothie.Network.Value.{Value, text, number, real, flag, params, Attrs, value_eq}
use smoothie.Network.Mininet.{Net, Mininet}
use smoothie.Network.Ids.{is_switch}
use smoothie.Network.Nodes.{ask}
use smoothie.Network.Links.Library.{Row, LinkLib}
use smoothie.Network.Links.Rows.{Facing, node_ports, node_intfs}
use smoothie.Network.Links.Store.{update_link}

-- isinstance(v, int): the two truth values are whole numbers as well.
unfoldable pub is_int : Value → Bool
is_int (number n) = true
is_int (flag b) = true
is_int v = false

-- isinstance(v, float)
unfoldable pub is_real : Value → Bool
is_real (real x) = true
is_real v = false

-- str(v), for a whole number
unfoldable pub int_text : (ℕ → String) → Value → String
int_text str (number n) = str n
int_text str (flag true) = "True"
int_text str (flag false) = "False"
int_text str v = ""

-- the options that a setter gives
abbrev pub only : String → Value → Attrs
only key v = (key, v) ∷ []

module _ (mn : Mininet) (lib : LinkLib) where
  -- the end of most setters: `return self.updateLink(…)`, unless the value is refused
  unfoldable pub update_if : Bool → String → String → Option ℕ → Attrs → Exec Net ℕ
  update_if true node1 node2 key opts = update_link mn lib node1 node2 key opts
  update_if false node1 node2 key opts = raise type_error

  -- `setBw`
  unfoldable pub set_bw : String → String → Value → Option ℕ → Exec Net ℕ
  set_bw node1 node2 bw key = update_if (is_real bw || is_int bw) node1 node2 key (only "bw" bw)

  -- `setDelay`
  unfoldable pub set_delay : String → String → Value → Option ℕ → Exec Net ℕ
  set_delay node1 node2 delay key =
      update_if (is_int delay) node1 node2 key
        (only "delay" (text (append (int_text lib.str delay) "ms")))

  -- the rate in percent, where it is one
  unfoldable pub set_rate : String → String → ℕ → Option ℕ → Exec Net ℕ
  set_rate node1 node2 x key =
      if lib.in_unit x
      then update_link mn lib node1 node2 key (only "loss" (real (lib.times_100 x)))
      else raise error

  -- `setLoss`
  unfoldable pub set_loss : String → String → Value → Option ℕ → Exec Net ℕ
  set_loss node1 node2 (real x) key = set_rate node1 node2 x key
  set_loss node1 node2 _ key = raise type_error

  -- `setMaxQueueSize`
  unfoldable pub set_max_queue_size : String → String → Value → Option ℕ → Exec Net ℕ
  set_max_queue_size node1 node2 max_queue_size key =
      update_if (is_int max_queue_size) node1 node2 key (only "max_queue_size" max_queue_size)

  -- raises where `node` has no links, or has the value already
  unfoldable pub refuse_present :
      Dict String (Dict Value Facing) → String → Value → Exec Net (Unit {0})
  refuse_present taken node v = elim (get taken node) [
    | none ↦ raise key_error
    | some m ↦ if has m v then raise error else pure tt
  ]

  -- `setIntfName`
  unfoldable pub set_intf_name : String → String → Value → Option ℕ → Exec Net ℕ
  set_intf_name node1 node2 intf_name key = do
    intfs ← gets (λ s. node_intfs mn lib s.g)
    refuse_present intfs node1 intf_name
    update_link mn lib node1 node2 key (only "intfName1" intf_name)

  -- `setIntfPort`
  unfoldable pub set_intf_port : String → String → Value → Option ℕ → Exec Net ℕ
  set_intf_port node1 node2 port key = do
    ports ← gets (λ s. node_ports mn lib s.g)
    refuse_present ports node1 port
    update_link mn lib node1 node2 key (only "port1" port)

  -- `setIntfIp`: the address of a switch is not a real one.
  unfoldable pub set_intf_ip : String → String → String → Option ℕ → Exec Net ℕ
  set_intf_ip node1 node2 ip key = do
    switch ← ask mn (λ g. is_switch mn g node1)
    if switch
        then update_link mn lib node1 node2 key (only "sw_ip1" (text ip))
        else update_link mn lib node1 node2 key (only "params1" (params (("ip", ip) ∷ [])))

  -- `setIntfMac`
  unfoldable pub set_intf_mac : String → String → Value → Option ℕ → Exec Net ℕ
  set_intf_mac node1 node2 mac key = update_link mn lib node1 node2 key (only "addr1" mac)

  -- for node1, node2, key in self.links(withKeys=True): the links are listed before the first change.
  unfoldable pub on_rows :
      (String → String → Option ℕ → Exec Net ℕ) → List Row → Exec Net (Unit {0})
  on_rows act [] = pure tt
  on_rows act (r ∷ rs) = do act r.node1 r.node2 (some r.key); on_rows act rs

  unfoldable pub on_links : (String → String → Option ℕ → Exec Net ℕ) → Exec Net (Unit {0})
  on_links act s = on_rows act (lib.links s.g) s

  -- `setBwAll`
  unfoldable pub set_bw_all : Value → Exec Net (Unit {0})
  set_bw_all bw = on_links (λ a b k. set_bw a b bw k)

  -- `setDelayAll`
  unfoldable pub set_delay_all : Value → Exec Net (Unit {0})
  set_delay_all delay = on_links (λ a b k. set_delay a b delay k)

  -- `setLossAll`
  unfoldable pub set_loss_all : Value → Exec Net (Unit {0})
  set_loss_all loss = on_links (λ a b k. set_loss a b loss k)

  -- `setMaxQueueSizeAll`
  unfoldable pub set_max_queue_size_all : Value → Exec Net (Unit {0})
  set_max_queue_size_all max_queue_size =
      on_links (λ a b k. set_max_queue_size a b max_queue_size k)
