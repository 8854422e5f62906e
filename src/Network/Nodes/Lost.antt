-- ===== src/Network/Nodes/Lost.antt =====
-- src/Network_API_l.py: what `updateNode` does to the other nodes, and to its own.
use smoothie.Base.{
  String, ◌≡◌, refl, ap, ◌∙◌, ◌≢◌, true, false, none, some, List, nat_eq, string_eq, pair_eq,
  beq_refl, beq_ne, is_some, contains,
}
use smoothie.Base.Dict.{get, remove, has, get-remove}
use smoothie.Base.Error.{error, Result, ok, err}
use smoothie.Network.Nodes.Kept.{update_node-Keeps}
use smoothie.Network.Nodes.Lookup.{add_p4switch_used}
use smoothie.Network.Value.{given, Value, Attrs, value_eq}
use smoothie.Network.Mininet.{Net, Mininet}
use smoothie.Network.Ids.{switch_ids}
use smoothie.Network.Nodes.{
  p4switch, node_kind, update_node, pop_node, get_node, delete_node, node_setter,
}

module _ (mn : Mininet) (name : String) (opts : Attrs) (s : Net) where
  -- Whether `updateNode` returns or raises, every other node has the options that it had.
  pub update_node_others :
      (m : String) → name ≢ m → get (update_node mn name opts s).1.g.node m ≡ get s.g.node m
  update_node_others m h =
      update_node-Keeps mn name (λ t. get t.g.node m ≡ get s.g.node m)
        (λ t a e. mn.get-add_node t.g name m a ∙ rw (beq_ne name m h) e) (λ t a e. e)
        (λ t e. get-remove t.g.node name m ∙ rw (beq_ne name m h) e) opts s refl

  -- the network without the node
  abbrev pub without : Net
  without = record s { g = record { node = remove s.g.node name; edge = s.g.edge } }

  pub pop_node_lem :
      (info : Attrs) → get s.g.node name ≡ some info → pop_node mn name false s ≡ (ok info, without)
  unfolding pop_node
  pop_node_lem info e =
      let there : has s.g.node name ≡ true = (unfold has is_some in rw e refl) in
      let got : get_node mn name s ≡ (ok info, s) = (unfold get_node in rw (e, get_node) refl) in
      let gone : delete_node mn name false s ≡ (ok tt, without) =
        (unfold delete_node in rw (there, delete_node) refl) in
      rw (got, pop_node) (rw gone refl)

  -- A P4 switch that is given a `device_id` of another switch is lost: `updateNode` raises after it
  -- took the node out, and does not put it back.
  pub update_node_lost :
      (info : Attrs) (id : Value) (ids : List Value)
      → node_kind mn name s ≡ (ok p4switch, s)
      → get s.g.node name ≡ some info
      → given (mn.merge_dict info opts) "device_id" ≡ some id
      → switch_ids mn without.g ≡ ok ids
      → contains id ids ≡ true
      → ((update_node mn name opts s).0 ≡ err error)
        × (get (update_node mn name opts s).1.g.node name ≡ none)
  unfolding update_node node_setter
  update_node_lost info id ids kind node new used clash =
      let refused =
        add_p4switch_used mn name (mn.merge_dict info opts) without id ids new used clash in
      let all : update_node mn name opts s ≡ (err error, without) =
        rw (kind, update_node) (rw (pop_node_lem info node) refused) in
      let missing : get without.g.node name ≡ none =
        get-remove s.g.node name name ∙ rw (beq_refl name) refl in
      (
        ap (λ (p : Result String × Net). p.0) all,
        ap (λ (p : Result String × Net). get p.1.g.node name) all ∙ missing,
      )
