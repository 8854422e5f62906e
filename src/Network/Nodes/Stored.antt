-- ===== src/Network/Nodes/Stored.antt =====
-- src/Network_API_l.py: the options that a node has after a change.
use mathlib.Core.Path.{subst}
use smoothie.Base.{
  String, ◌≡◌, refl, sym, ap, ◌∙◌, ◌≢◌, inl, inr, true, false, none, some, List, [], ◌∷◌, arith,
  nat_eq, string_eq, pair_eq, beq_refl, Bool-cases, contains,
}
use smoothie.Base.Dict.{get, put, has, get-put_ne}
use smoothie.Base.Error.{Result, ok}
use smoothie.Base.Exec.{Exec}
use smoothie.Base.Exec.{>>=-eq-ok, >>=_ends}
use smoothie.Network.Value.{is_params, given, Value, flag, Attrs, value_eq}
use smoothie.Network.Mininet.{Net, Mininet}
use smoothie.Network.Nodes.Kept.{put_ne_nil, node_kind-Keeps}
use smoothie.Network.Nodes.Lost.{without, pop_node_lem}
use smoothie.Network.Nodes.{
  Kind, p4switch, host, p4runtime_switch, switch, router, other, node_kind, update_node,
  node_setter, add_node, add_host, add_switch, add_p4switch, add_p4runtime_switch, add_router,
  add_with_defaults, check_dpid, check_device_id, set_default, no_options, p4_host,
}

-- no option that a method which adds a node sets by itself
abbrev pub Ordinary : String → Type 0
Ordinary k =
    ("cls" ≢ k)
    × ("isHost" ≢ k)
    × ("isSwitch" ≢ k)
    × ("isP4Switch" ≢ k)
    × ("isP4RuntimeSwitch" ≢ k)
    × ("isRouter" ≢ k)

abbrev marks : List String
marks = "cls" ∷ "isHost" ∷ "isSwitch" ∷ "isP4Switch" ∷ "isP4RuntimeSwitch" ∷ "isRouter" ∷ []

pub ordinary : (k : String) → contains k marks ≡ false → Ordinary k
ordinary k h =
    let apart = λ (j : String). string_eq.beq_iff j k in
    ground (
      arith,
      apart "cls",
      apart "isHost",
      apart "isSwitch",
      apart "isP4Switch",
      apart "isP4RuntimeSwitch",
      apart "isRouter",
    )

-- the same ordinary options
abbrev pub Alike : Attrs → Attrs → Type 0
Alike a b = (k : String) → Ordinary k → get a k ≡ get b k

-- there is an ordinary option
abbrev pub Some : Attrs → Type 0
Some a = (k : String) × Ordinary k × ((v : Value) × (get a k ≡ some v))

Alike-trans : (a b c : Attrs) → Alike a b → Alike b c → Alike a c
Alike-trans a b c p q k o = p k o ∙ q k o

Some-Alike : (a b : Attrs) → Alike a b → Some b → Some a
Some-Alike a b p (k, o, (v, e)) = (k, o, (v, p k o ∙ e))

put-Alike :
    (a : Attrs) (j : String) (v : Value) → ((k : String) → Ordinary k → j ≢ k) → Alike (put a j v) a
put-Alike a j v h k o = get-put_ne a j k v (h k o)

set_default-Alike : (a : Attrs) (c : Value) → Alike (set_default a "cls" c) a
unfolding set_default
set_default-Alike a c k o = elim (Bool-cases (has a "cls")) [
  | inl e ↦ rw e refl
  | inr e ↦ rw e (get-put_ne a "cls" k c o.0)
]

no_options-Some : (mn : Mininet) (a : Attrs) → Some a → no_options mn a ≡ false
unfolding no_options get
no_options-Some mn [] (k, o, (v, e)) = cc
no_options-Some mn (p ∷ a) s = refl

module _ (mn : Mininet) (name : String) (opts : Attrs) where
  -- the node is there, with the ordinary options of `opts`
  abbrev pub Stored : Net → Type 0
  Stored t = (a : Attrs) × (get t.g.node name ≡ some a) × Alike a opts

  add_node-Stored : (o : Attrs) → Alike o opts → (s : Net) → Stored (add_node mn name o s).1
  unfolding add_node
  add_node-Stored o h s = (o, mn.get-add_node s.g name name o ∙ rw (beq_refl name) refl, h)

  returned : (o : Attrs) → Alike o opts → (s t : Net) → (add_node mn name o s).1 ≡ t → Stored t
  returned o h s t e = subst Stored e (add_node-Stored o h s)

  -- that a call which returns stores the options
  abbrev Stores : {A : Type 0} → Exec Net A → Type 0
  Stores {A} m = (b : A) (s t : Net) → m s ≡ (ok b, t) → Stored t

  add_with_defaults-Stores :
      (o : Attrs) → Alike o opts → Some opts → Stores (add_with_defaults mn name o)
  unfolding add_with_defaults
  add_with_defaults-Stores o h some_opt b s t e =
      let filled = no_options-Some mn o (Some-Alike o opts h some_opt) in
      let marked = put o "isSwitch" (flag true) in
      let same : Alike marked opts =
        Alike-trans marked o opts (put-Alike o "isSwitch" (flag true) (λ k d. d.2)) h in
      returned marked same s t
        (ap (λ (p : Result String × Net). p.1) (rw (filled, add_with_defaults) at e))

  add_switch-Stores : (o : Attrs) → Alike o opts → Some opts → Stores (add_switch mn name o)
  unfolding add_switch
  add_switch-Stores o h some_opt b =
      >>=_ends Stored (check_dpid mn (given o "dpid")) _ b
        (λ u. add_with_defaults-Stores o h some_opt b)

  -- the options with a class and a mark, as the methods make them
  marked-Alike :
      (o : Attrs) (c : Value) (j : String)
      → ((k : String) → Ordinary k → j ≢ k)
      → Alike o opts
      → Alike (put (set_default o "cls" c) j (flag true)) opts
  marked-Alike o c j apart h =
      let d = set_default o "cls" c in
      Alike-trans _ d opts (put-Alike d j (flag true) apart)
        (Alike-trans d o opts (set_default-Alike o c) h)

  add_p4switch-Stores : (o : Attrs) → Alike o opts → Some opts → Stores (add_p4switch mn name o)
  unfolding add_p4switch
  add_p4switch-Stores o h some_opt b =
      >>=_ends Stored (check_device_id mn (given o "device_id")) _ b
        (λ u. add_switch-Stores _ (marked-Alike o _ "isP4Switch" (λ k d. d.3) h) some_opt b)

  node_setter-Stores : Some opts → (k : Kind) → Stores (node_setter mn k name opts)
  unfolding node_setter add_p4runtime_switch add_router add_host add_node
  node_setter-Stores some_opt host b s t e =
      let o = put (set_default opts "cls" p4_host) "isHost" (flag true) in
      let there =
        mn.add_host_lem s.g name o
          (put_ne_nil (set_default opts "cls" p4_host) "isHost" (flag true)) in
      returned o (marked-Alike opts _ "isHost" (λ k d. d.1) (λ k d. refl)) s t
        (ap (λ g. record s { g = g }) (sym there) ∙ ap (λ (p : Result String × Net). p.1) e)
  node_setter-Stores some_opt p4runtime_switch b s t e =
      add_p4switch-Stores _ (marked-Alike opts _ "isP4RuntimeSwitch" (λ k d. d.4) (λ k d. refl))
        some_opt b s t e
  node_setter-Stores some_opt p4switch b s t e =
      add_p4switch-Stores opts (λ k d. refl) some_opt b s t e
  node_setter-Stores some_opt switch b s t e = add_switch-Stores opts (λ k d. refl) some_opt b s t e
  node_setter-Stores some_opt router b s t e =
      returned _ (marked-Alike opts _ "isRouter" (λ k d. d.5) (λ k d. refl)) s t
        (ap (λ (p : Result String × Net). p.1) e)
  node_setter-Stores some_opt other b s t e =
      returned opts (λ k d. refl) s t (ap (λ (p : Result String × Net). p.1) e)

module _ (mn : Mininet) (name : String) (opts : Attrs) where
  -- When `updateNode` returns, the node has each option of the old ones merged with the new, but for
  -- the class and the marks that adding it sets again; there is an option besides those.
  pub update_node-Stored :
      (info : Attrs) (b : String) (s t : Net)
      → get s.g.node name ≡ some info
      → Some (mn.merge_dict info opts)
      → update_node mn name opts s ≡ (ok b, t)
      → Stored mn name (mn.merge_dict info opts) t
  unfolding update_node
  update_node-Stored info b s t there some_opt e =
      let (k, s1, e1, h1) = >>=-eq-ok (node_kind mn name) _ s e in
      let same : s1 ≡ s =
        ap (λ (p : Result Kind × Net). p.1) (sym e1)
        ∙ node_kind-Keeps mn name (λ r. r ≡ s) s refl in
      let there1 : get s1.g.node name ≡ some info = rw same there in
      let popped = pop_node_lem mn name opts s1 info there1 in
      node_setter-Stores mn name (mn.merge_dict info opts) some_opt k b (without mn name opts s1) t
        (rw (popped) at h1)

  -- When `updateNode` returns for a node that is there, a new value of an option that is no
  -- dictionary takes the place of the old one, and an option that is not given stays, but for the
  -- class and the marks of the kinds of nodes, which adding the node sets again. It is asked that
  -- there is an option besides those, of the node or a new one.
  pub update_node-get :
      (info : Attrs) (b : String) (s t : Net)
      → get s.g.node name ≡ some info
      → Some (mn.merge_dict info opts)
      → update_node mn name opts s ≡ (ok b, t)
      → (a : Attrs) × (get t.g.node name ≡ some a)
        × ((k : String) (v : Value)
            → Ordinary k
            → get opts k ≡ some v
            → is_params v ≡ false
            → get a k ≡ some v)
        × ((k : String) → Ordinary k → get opts k ≡ none → get a k ≡ get info k)
  update_node-get info b s t there some_opt e =
      let (a, f, same) = update_node-Stored info b s t there some_opt e in
      (
        a,
        f,
        λ k v o g p. same k o ∙ mn.merge_dict_new info opts k v g p,
        λ k o g. same k o ∙ mn.merge_dict_old info opts k g,
      )
