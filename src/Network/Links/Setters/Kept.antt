-- ===== src/Network/Links/Setters/Kept.antt =====
-- Each setter of links keeps the links in order.
use smoothie.Base.{
  ℕ, String, inl, inr, Bool, true, false, Option, some, List, [], ◌∷◌, nat_eq, string_eq, pair_eq,
  Bool-cases, Option-cases,
}
use smoothie.Base.Dict.{Dict, get, has}
use smoothie.Base.Error.{Result-cases}
use smoothie.Base.Exec.{Exec}
use smoothie.Base.Exec.{>>=_keeps}
use smoothie.Network.Value.{Value, Attrs, value_eq, number, flag, text, cls, real, params, nothing}
use smoothie.Network.Mininet.{Net, Mininet}
use smoothie.Network.Ids.{is_switch}
use smoothie.Network.Links.Library.{Row, LinkLib}
use smoothie.Network.Links.Rows.{Facing, node_ports, node_intfs}
use smoothie.Network.Links.Store.Updating.{InOrder, update_link-InOrder}
use smoothie.Network.Links.Setters.{
  update_if, set_bw, set_delay, set_rate, set_loss, set_max_queue_size, refuse_present,
  set_intf_name, set_intf_port, set_intf_ip, set_intf_mac, on_rows, on_links,
}

module _ (mn : Mininet) (lib : LinkLib) where
  abbrev pub Keeps : {A : Type 0} → Exec Net A → Type 0
  Keeps m = (s : Net) → InOrder s → InOrder (m s).1

  pub update_if-Keeps :
      (b : Bool) (n1 n2 : String) (key : Option ℕ) (o : Attrs)
      → Keeps (update_if mn lib b n1 n2 key o)
  unfolding update_if
  update_if-Keeps true n1 n2 key o = update_link-InOrder mn lib n1 n2 key o
  update_if-Keeps false n1 n2 key o = λ s v. v

  pub set_bw-Keeps :
      (n1 n2 : String) (v : Value) (key : Option ℕ) → Keeps (set_bw mn lib n1 n2 v key)
  unfolding set_bw
  set_bw-Keeps n1 n2 v key = update_if-Keeps _ n1 n2 key _

  pub set_delay-Keeps :
      (n1 n2 : String) (v : Value) (key : Option ℕ) → Keeps (set_delay mn lib n1 n2 v key)
  unfolding set_delay
  set_delay-Keeps n1 n2 v key = update_if-Keeps _ n1 n2 key _

  pub set_max_queue_size-Keeps :
      (n1 n2 : String) (v : Value) (key : Option ℕ) → Keeps (set_max_queue_size mn lib n1 n2 v key)
  unfolding set_max_queue_size
  set_max_queue_size-Keeps n1 n2 v key = update_if-Keeps _ n1 n2 key _

  pub set_rate-Keeps :
      (n1 n2 : String) (x : ℕ) (key : Option ℕ) → Keeps (set_rate mn lib n1 n2 x key)
  unfolding set_rate
  set_rate-Keeps n1 n2 x key s v = elim (Bool-cases (lib.in_unit x)) [
    | inl q ↦ rw (set_rate, q) (update_link-InOrder mn lib n1 n2 key _ s v)
    | inr q ↦ rw (set_rate, q) v
  ]

  pub set_loss-Keeps :
      (n1 n2 : String) (v : Value) (key : Option ℕ) → Keeps (set_loss mn lib n1 n2 v key)
  unfolding set_loss
  set_loss-Keeps n1 n2 (real x) key = set_rate-Keeps n1 n2 x key
  set_loss-Keeps n1 n2 (text x) key = λ s v. v
  set_loss-Keeps n1 n2 (number x) key = λ s v. v
  set_loss-Keeps n1 n2 (flag x) key = λ s v. v
  set_loss-Keeps n1 n2 (cls x) key = λ s v. v
  set_loss-Keeps n1 n2 (params x) key = λ s v. v
  set_loss-Keeps n1 n2 nothing key = λ s v. v

  pub refuse_present-Keeps :
      (d : Dict String (Dict Value Facing)) (n : String) (v : Value)
      → Keeps (refuse_present mn lib d n v)
  unfolding refuse_present
  refuse_present-Keeps d n v s w = elim (Option-cases (get d n)) [
    | inl q ↦ rw (refuse_present, q) w
    | inr (m, q) ↦ elim (Bool-cases (has m v)) [
      | inl r ↦ rw (refuse_present, q, r) w
      | inr r ↦ rw (refuse_present, q, r) w
    ]
  ]

  pub set_intf_name-Keeps :
      (n1 n2 : String) (v : Value) (key : Option ℕ) → Keeps (set_intf_name mn lib n1 n2 v key)
  unfolding set_intf_name
  set_intf_name-Keeps n1 n2 v key s w =
      >>=_keeps InOrder (refuse_present mn lib (node_intfs mn lib s.g) n1 v) _
        (refuse_present-Keeps _ n1 v) (λ u. update_link-InOrder mn lib n1 n2 key _) s w

  pub set_intf_port-Keeps :
      (n1 n2 : String) (v : Value) (key : Option ℕ) → Keeps (set_intf_port mn lib n1 n2 v key)
  unfolding set_intf_port
  set_intf_port-Keeps n1 n2 v key s w =
      >>=_keeps InOrder (refuse_present mn lib (node_ports mn lib s.g) n1 v) _
        (refuse_present-Keeps _ n1 v) (λ u. update_link-InOrder mn lib n1 n2 key _) s w

  pub set_intf_ip-Keeps :
      (n1 n2 ip : String) (key : Option ℕ) → Keeps (set_intf_ip mn lib n1 n2 ip key)
  unfolding set_intf_ip
  set_intf_ip-Keeps n1 n2 ip key s w = elim (Result-cases (is_switch mn s.g n1)) [
    | inr (x, q) ↦ rw (set_intf_ip, q) w
    | inl (true, q) ↦ rw (set_intf_ip, q) (update_link-InOrder mn lib n1 n2 key _ s w)
    | inl (false, q) ↦ rw (set_intf_ip, q) (update_link-InOrder mn lib n1 n2 key _ s w)
  ]

  pub set_intf_mac-Keeps :
      (n1 n2 : String) (v : Value) (key : Option ℕ) → Keeps (set_intf_mac mn lib n1 n2 v key)
  unfolding set_intf_mac
  set_intf_mac-Keeps n1 n2 v key = update_link-InOrder mn lib n1 n2 key _

  pub on_rows-Keeps :
      (act : String → String → Option ℕ → Exec Net ℕ) (rs : List Row)
      → ((a b : String) (k : Option ℕ) → Keeps (act a b k))
      → Keeps (on_rows mn lib act rs)
  unfolding on_rows
  on_rows-Keeps act [] h = λ s v. v
  on_rows-Keeps act (r ∷ rs) h =
      >>=_keeps InOrder (act r.node1 r.node2 (some r.key)) _ (h r.node1 r.node2 (some r.key))
        (λ u. on_rows-Keeps act rs h)

  pub on_links-Keeps :
      (act : String → String → Option ℕ → Exec Net ℕ)
      → ((a b : String) (k : Option ℕ) → Keeps (act a b k))
      → Keeps (on_links mn lib act)
  unfolding on_links
  on_links-Keeps act h s = on_rows-Keeps act (lib.links s.g) h s
