-- ===== src/Network/Links/Store/Added.antt =====
-- What `addLink` adds.
use smoothie.Base.{
  ℕ, String, ◌≡◌, refl, sym, ap, ◌∙◌, true, Option, none, some, [], if◌then◌else◌, ◌==◌, nat_eq,
  string_eq, pair_eq,
}
use smoothie.Base.Dict.{get, has}
use smoothie.Base.Error.{Result, ok}
use mathlib.Core.Path.{subst}
use smoothie.Network.Value.{Value, text, given, nothing, Attrs, value_eq}
use smoothie.Network.Mininet.{Net, Mininet}
use smoothie.Network.Ids.{is_node}
use smoothie.Network.Links.Library.{LinkLib, find, joins}
use smoothie.Network.Links.Rows.{node_ports, node_intfs}
use smoothie.Network.Links.Store.{port_value, link_options, insert_link, add_link}
use smoothie.Network.Links.Store.Gate.{Free, add_link-Passed}
use smoothie.Network.Links.Store.Adding.{get-put_option, new-IsFromTo}
use smoothie.Network.Links.Store.Frame.{bare}
use smoothie.Network.Links.Setters.Stored.{is_option, get-link_options}

-- the port that a link holds where none is given is None
abbrev pub port_of : Option Value → Value
port_of none = nothing
port_of (some v) = v

module _ (mn : Mininet) (lib : LinkLib) where
  port_value_lem : (p : Option Value) → port_value mn lib p ≡ port_of p
  unfolding port_value
  port_value_lem none = refl
  port_value_lem (some v) = refl

  -- what a link of options `o` holds
  pub record Holds (n1 n2 : String) (p1 p2 : Option Value) (o link : Attrs) : Type 0 where
    pub name1 : get link "node1" ≡ some (text n1)
    pub name2 : get link "node2" ≡ some (text n2)
    pub port1 : get link "port1" ≡ some (port_of p1)
    pub port2 : get link "port2" ≡ some (port_of p2)
    pub options :
        (f : String) (v : Value) → is_option f ≡ true → get o f ≡ some v → get link f ≡ some v

  -- the link with the key `j`, or what was there
  abbrev pub after : Net → Attrs → String → String → String → String → ℕ → ℕ → Option Attrs
  after s link n1 n2 x y j k =
      if joins n1 n2 x y then (if j == k then some link else find s.g n1 n2 k) else find s.g x y k

  -- the link is the only change
  pub record Added (n1 n2 : String) (p1 p2 : Option Value) (key : Option ℕ) (o : Attrs) (s : Net)
      (j : ℕ) (t : Net) : Type 0 where
    pub node1 : is_node mn s.g n1 ≡ true
    pub node2 : is_node mn s.g n2 ≡ true
    pub free_port1 : Free (node_ports mn lib s.g) n1 p1
    pub free_port2 : Free (node_ports mn lib s.g) n2 p2
    pub free_intf1 : Free (node_intfs mn lib s.g) n1 (given o "intfName1")
    pub free_intf2 : Free (node_intfs mn lib s.g) n2 (given o "intfName2")
    pub link : Attrs
    pub holds : Holds n1 n2 p1 p2 o link
    pub key_given : (k : ℕ) → key ≡ some k → j ≡ k
    pub key_fresh : key ≡ none → find s.g n1 n2 j ≡ none
    pub found : (x y : String) (k : ℕ) → find t.g x y k ≡ after s link n1 n2 x y j k
    pub only : bare t ≡ bare s

  here : (s : Net) (n : String) → is_node mn s.g n ≡ true → has s.g.node n ≡ true
  unfolding is_node
  here s n h = sym (mn.contains-node_names s.g n) ∙ h

  link_options-Holds :
      (lopts o : Attrs) (n1 n2 : String) (p1 p2 : Option Value)
      → Holds n1 n2 p1 p2 o (link_options mn lib lopts n1 n2 p1 p2 o)
  unfolding link_options
  link_options-Holds lopts o n1 n2 p1 p2 = record {
    name1 = (new-IsFromTo mn lib lopts o n1 n2 p1 p2).0;
    name2 = (new-IsFromTo mn lib lopts o n1 n2 p1 p2).1;
    port1 =
        rw (get-put_option _ "port2" "port1" _, get-put_option _ "port1" "port1" _)
          (ap some (port_value_lem p1));
    port2 = rw (get-put_option _ "port2" "port2" _) (ap some (port_value_lem p2));
    options = λ f v own h. get-link_options mn lib lopts o n1 n2 f p1 p2 v own h;
  }

  -- A link that is added joins nodes that are there, and has ports and interface names that its nodes
  -- did not have. It has the key that was given, or else one that no link between its nodes had; it
  -- holds its nodes, its ports and each option that is given, other than a class and a weight; and
  -- there is no other change of the network.
  pub add_link-Added :
      (n1 n2 : String) (p1 p2 : Option Value) (key : Option ℕ) (o : Attrs) (s : Net) {j : ℕ}
      {t : Net}
      → add_link mn lib n1 n2 p1 p2 key o s ≡ (ok j, t)
      → Added n1 n2 p1 p2 key o s j t
  unfolding insert_link
  add_link-Added n1 n2 p1 p2 key o s {j} {t} e =
      let passed = add_link-Passed mn lib n1 n2 p1 p2 key o s e in
      let link = link_options mn lib s.lopts n1 n2 p1 p2 o in
      let same_key : ◌≡◌ {A = Result ℕ} (ok (lib.add_edge s.g n1 n2 key link).0) (ok j) =
        ap (λ (r : Result ℕ × Net). r.0) passed.inserted in
      let the_key : (lib.add_edge s.g n1 n2 key link).0 ≡ j = cc same_key in
      let state : record s { g = (lib.add_edge s.g n1 n2 key link).1 } ≡ t =
        ap (λ (r : Result ℕ × Net). r.1) passed.inserted in
      record {
        node1 = passed.node1;
        node2 = passed.node2;
        free_port1 = passed.free_port1;
        free_port2 = passed.free_port2;
        free_intf1 = passed.free_intf1;
        free_intf2 = passed.free_intf2;
        link = link;
        holds = link_options-Holds s.lopts o n1 n2 p1 p2;
        key_given = λ k q. sym the_key ∙ rw q (lib.add_edge_key s.g n1 n2 k link);
        key_fresh = λ q.
            subst (λ m. find s.g n1 n2 m ≡ none) the_key (rw q (lib.add_edge_fresh s.g n1 n2 link));
        found = λ x y k.
            subst (λ (r : Net). find r.g x y k ≡ after s link n1 n2 x y j k) state
              (subst
                (λ m. find (lib.add_edge s.g n1 n2 key link).1 x y k ≡ after s link n1 n2 x y m k)
                the_key (lib.find-add_edge s.g n1 n2 key link x y k));
        only =
            sym (ap bare state)
            ∙ ap (λ d. record s { g = record { node = d; edge = [] } })
                (lib.node-add_edge s.g n1 n2 key link (here s n1 passed.node1)
                  (here s n2 passed.node2));
      }
