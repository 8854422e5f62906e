-- ===== src/Network/Links/Reachable.antt =====
-- The states of a network that calls of the link methods lead to, whether they return or raise.
use smoothie.Base.{ℕ, String, ◌≡◌, refl, ◌≢◌, Option, [], nat_eq, string_eq, pair_eq}
use smoothie.Base.Dict.{get}
use smoothie.Network.Value.{Value, Attrs, value_eq}
use smoothie.Network.Mininet.{Graph, Net, Mininet}
use smoothie.Network.Links.Library.{LinkLib, entry, find}
use smoothie.Network.Links.Store.{delete_link, pop_link, add_link, update_link}
use smoothie.Network.Links.Auto.{Source, auto_assignment}
use smoothie.Network.Links.Auto.InOrder.{auto_assignment-InOrder}
use smoothie.Network.Cpu.{enable_cpu_port, disable_cpu_port, disable_cpu_port_all}
use smoothie.Network.Cpu.InOrder.{disable_cpu_port-Keeps, disable_cpu_port_all-Keeps}
use smoothie.Network.Cpu.Enabled.{bridge_of, enable_cpu_port-Keeps}
use smoothie.Network.Strategies.{Plan}
use smoothie.Network.Strategies.L2.{l2}
use smoothie.Network.Strategies.Mixed.{mixed}
use smoothie.Network.Strategies.L3.{l3}
use smoothie.Network.Strategies.InOrder.{l2-Keeps}
use smoothie.Network.Strategies.Mixed.InOrder.{mixed-Keeps}
use smoothie.Network.Strategies.L3.InOrder.{l3-Keeps}
use smoothie.Network.Links.Store.Invariant.{IsLinked}
use smoothie.Network.Links.Store.Edges.{same_edges, Alike-IsLinked}
use smoothie.Network.Links.Store.Removing.{delete_link-IsLinked}
use smoothie.Network.Links.Store.Updating.{
  InOrder, add_link-InOrder, pop_link-InOrder, update_link-InOrder,
}
use smoothie.Network.Links.Setters.{
  set_bw, set_delay, set_loss, set_max_queue_size, set_intf_name, set_intf_port, set_intf_ip,
  set_intf_mac, set_bw_all, set_delay_all, set_loss_all, set_max_queue_size_all,
}
use smoothie.Network.Links.Setters.Kept.{
  set_bw-Keeps, set_delay-Keeps, set_max_queue_size-Keeps, set_loss-Keeps, set_intf_name-Keeps,
  set_intf_port-Keeps, set_intf_ip-Keeps, set_intf_mac-Keeps, on_links-Keeps,
}

-- A network without links is in order.
pub no_links-IsLinked : (g : Graph) → g.edge ≡ [] → IsLinked g
unfolding find entry get
no_links-IsLinked g e = record {
  symmetric = λ a b k. rw e refl;
  no_loops = λ a k. rw e refl;
  ends = λ a b k i f. cc (rw e at f);
  unique = λ n p m m' k k' i i' f h f' h'. cc (rw e at f);
}

module _ (mn : Mininet) (lib : LinkLib) where
  -- A call of a method, which may raise; `elsewhere` stands for the methods that leave the links alone.
  pub data Step (s : Net) : Net → Type 0 where
    add :
        (n1 n2 : String) (p1 p2 : Option Value) (key : Option ℕ) (o : Attrs)
        → n1 ≢ n2
        → Step s (add_link mn lib n1 n2 p1 p2 key o s).1
    delete : (n1 n2 : String) (key : Option ℕ) → Step s (delete_link mn lib n1 n2 key s).1
    pop : (n1 n2 : String) (key : Option ℕ) → Step s (pop_link mn lib n1 n2 key s).1
    change :
        (n1 n2 : String) (key : Option ℕ) (o : Attrs) → Step s (update_link mn lib n1 n2 key o s).1
    bw : (n1 n2 : String) (v : Value) (key : Option ℕ) → Step s (set_bw mn lib n1 n2 v key s).1
    delay :
        (n1 n2 : String) (v : Value) (key : Option ℕ) → Step s (set_delay mn lib n1 n2 v key s).1
    loss : (n1 n2 : String) (v : Value) (key : Option ℕ) → Step s (set_loss mn lib n1 n2 v key s).1
    queue :
        (n1 n2 : String) (v : Value) (key : Option ℕ)
        → Step s (set_max_queue_size mn lib n1 n2 v key s).1
    intf_name :
        (n1 n2 : String) (v : Value) (key : Option ℕ)
        → Step s (set_intf_name mn lib n1 n2 v key s).1
    intf_port :
        (n1 n2 : String) (v : Value) (key : Option ℕ)
        → Step s (set_intf_port mn lib n1 n2 v key s).1
    intf_ip : (n1 n2 ip : String) (key : Option ℕ) → Step s (set_intf_ip mn lib n1 n2 ip key s).1
    intf_mac :
        (n1 n2 : String) (v : Value) (key : Option ℕ) → Step s (set_intf_mac mn lib n1 n2 v key s).1
    bw_all : (v : Value) → Step s (set_bw_all mn lib v s).1
    delay_all : (v : Value) → Step s (set_delay_all mn lib v s).1
    loss_all : (v : Value) → Step s (set_loss_all mn lib v s).1
    queue_all : (v : Value) → Step s (set_max_queue_size_all mn lib v s).1
    assign : (src : Source) → Step s (auto_assignment mn lib src s).1
    by_l2 : (plan : Plan) → Step s (l2 mn lib plan s).1
    by_mixed : (plan : Plan) → Step s (mixed mn lib plan s).1
    by_l3 : (plan : Plan) → Step s (l3 mn lib plan s).1
    cpu_on : (name : String) → name ≢ bridge_of mn lib s → Step s (enable_cpu_port mn lib name s).1
    cpu_off : (name : String) → Step s (disable_cpu_port mn lib name s).1
    cpu_off_all : Step s (disable_cpu_port_all mn lib s).1
    elsewhere : {t : Net} → t.g.edge ≡ s.g.edge → Step s t

  pub data Reach (s : Net) : Net → Type 0 where
    here : Reach s s
    next : {t u : Net} → Reach s t → Step t u → Reach s u

  Step-InOrder : {s t : Net} → Step s t → InOrder s → InOrder t
  unfolding set_bw_all set_delay_all set_loss_all set_max_queue_size_all
  Step-InOrder {s} (add n1 n2 p1 p2 key o apart) v =
      add_link-InOrder mn lib n1 n2 p1 p2 key o s apart v
  Step-InOrder {s} (delete n1 n2 key) v = delete_link-IsLinked mn lib n1 n2 key s v
  Step-InOrder {s} (pop n1 n2 key) v = pop_link-InOrder mn lib n1 n2 key s v
  Step-InOrder {s} (change n1 n2 key o) v = update_link-InOrder mn lib n1 n2 key o s v
  Step-InOrder {s} (bw n1 n2 x key) v = set_bw-Keeps mn lib n1 n2 x key s v
  Step-InOrder {s} (delay n1 n2 x key) v = set_delay-Keeps mn lib n1 n2 x key s v
  Step-InOrder {s} (loss n1 n2 x key) v = set_loss-Keeps mn lib n1 n2 x key s v
  Step-InOrder {s} (queue n1 n2 x key) v = set_max_queue_size-Keeps mn lib n1 n2 x key s v
  Step-InOrder {s} (intf_name n1 n2 x key) v = set_intf_name-Keeps mn lib n1 n2 x key s v
  Step-InOrder {s} (intf_port n1 n2 x key) v = set_intf_port-Keeps mn lib n1 n2 x key s v
  Step-InOrder {s} (intf_ip n1 n2 x key) v = set_intf_ip-Keeps mn lib n1 n2 x key s v
  Step-InOrder {s} (intf_mac n1 n2 x key) v = set_intf_mac-Keeps mn lib n1 n2 x key s v
  Step-InOrder {s} (bw_all x) v = on_links-Keeps mn lib _ (λ a b k. set_bw-Keeps mn lib a b x k) s v
  Step-InOrder {s} (delay_all x) v =
      on_links-Keeps mn lib _ (λ a b k. set_delay-Keeps mn lib a b x k) s v
  Step-InOrder {s} (loss_all x) v =
      on_links-Keeps mn lib _ (λ a b k. set_loss-Keeps mn lib a b x k) s v
  Step-InOrder {s} (queue_all x) v =
      on_links-Keeps mn lib _ (λ a b k. set_max_queue_size-Keeps mn lib a b x k) s v
  Step-InOrder {s} (assign src) v = auto_assignment-InOrder mn lib src s v
  Step-InOrder {s} (by_l2 plan) v = l2-Keeps mn lib plan s v
  Step-InOrder {s} (by_mixed plan) v = mixed-Keeps mn lib plan s v
  Step-InOrder {s} (by_l3 plan) v = l3-Keeps mn lib plan s v
  Step-InOrder {s} (cpu_on name apart) v = enable_cpu_port-Keeps mn lib name s apart v
  Step-InOrder {s} (cpu_off name) v = disable_cpu_port-Keeps mn lib name s v
  Step-InOrder {s} cpu_off_all v = disable_cpu_port_all-Keeps mn lib s v
  Step-InOrder {s} (elsewhere {t} e) v = Alike-IsLinked t.g s.g (same_edges t.g s.g e) v

  -- Where the links are in order to begin with, they stay so, whatever methods of links, CPU ports,
  -- automatic assignment and assignment strategies are called, with whatever arguments, and also where
  -- calls raise, as long as `addLink` joins two different nodes and `enableCpuPort` is not called for
  -- the bridge itself: both nodes see the same links, no link joins a node with itself, and no two
  -- links have the same port of a node.
  pub Reach-InOrder : {s t : Net} → InOrder s → Reach s t → InOrder t
  Reach-InOrder v here = v
  Reach-InOrder v (next r st) = Step-InOrder st (Reach-InOrder v r)
