-- ===== src/Network/Cpu/InOrder.antt =====
-- A CPU port that is taken away leaves the links in order.
use smoothie.Base.{
  ℕ, String, ◌≡◌, refl, inl, inr, true, false, ◌||◌, Option, none, some, List, [], ◌∷◌, arith,
  if◌then◌else◌, ◌==◌, nat_eq, string_eq, pair_eq, Bool-cases, Option-cases,
}
use smoothie.Base.Dict.{Dict, get, remove, has, get-remove}
use smoothie.Base.Exec.{Exec, pure, ◌>>◌}
use smoothie.Network.Value.{flag, Attrs, value_eq}
use smoothie.Network.Mininet.{Entry, Graph, Net, Mininet}
use smoothie.Network.Ids.{is_node, is_p4switch, p4switches}
use smoothie.Network.Flags.{has_cpu_port}
use smoothie.Network.Nodes.{update_node, pop_node, get_node, delete_node, drop_neighbour}
use smoothie.Network.Links.Library.{LinkLib, entry, find}
use smoothie.Network.Links.Store.{pop_link}
use smoothie.Network.Links.Store.Edges.{Within-IsLinked, same_edges, Alike-IsLinked}
use smoothie.Network.Links.Store.Invariant.{IsLinked}
use smoothie.Network.Links.Store.Updating.{pop_link-InOrder}
use smoothie.Network.Links.Auto.InOrder.{Keeps, reads-Keeps, then-Keeps, if-Keeps, node-Keeps}
use smoothie.Network.Cpu.{
  set_bridge, any_cpu_port, drop_bridge, disable_cpu_port, each_switch, disable_cpu_port_all,
}

module _ (mn : Mininet) where
  get-drop_neighbour :
      (n : String) (d : Dict String (Dict String Entry)) (x : String)
      → get (drop_neighbour mn n d) x ≡ elim (get d x) [ none ↦ none | some m ↦ some (remove m n) ]
  unfolding drop_neighbour get
  get-drop_neighbour n [] x = refl
  get-drop_neighbour n ((j, m) ∷ d) x = ground (arith, get-drop_neighbour n d x)

  -- the links of a node are gone, at both ends
  find-drop :
      (g : Graph) (n x y : String) (k : ℕ)
      → find (record { node = remove g.node n; edge = drop_neighbour mn n (remove g.edge n) }) x y k
        ≡ (if n == x || n == y then none else find g x y k)
  unfolding find entry
  find-drop g n x y k = elim (Option-cases (get g.edge x)) [
    | inl q ↦ ground (arith, q, get-drop_neighbour n (remove g.edge n) x, get-remove g.edge n x)
    | inr (m, q) ↦ ground (
      arith,
      q,
      get-remove m n y,
      get-drop_neighbour n (remove g.edge n) x,
      get-remove g.edge n x,
    )
  ]

  dropped-IsLinked :
      (g : Graph) (n : String) (node : Dict String Attrs)
      → IsLinked g
      → IsLinked (record { node = node; edge = drop_neighbour mn n (remove g.edge n) })
  dropped-IsLinked g n node v =
      let h : Graph = record {
        node = remove g.node n;
        edge = drop_neighbour mn n (remove g.edge n);
      } in
      let kept : IsLinked h =
        Within-IsLinked h g (λ x y k i f. ground (arith, find-drop g n x y k, f))
          (λ x y k. ground (arith, find-drop g n x y k, find-drop g n y x k, v.symmetric x y k))
          v in
      Alike-IsLinked (record { node = node; edge = h.edge }) h
        (same_edges (record { node = node; edge = h.edge }) h refl) kept

  delete_node-Keeps : (n : String) → Keeps mn (delete_node mn n true)
  unfolding delete_node
  delete_node-Keeps n s v = elim (Bool-cases (has s.g.node n)) [
    | inl q ↦ rw (delete_node, q) (dropped-IsLinked s.g n (remove s.g.node n) v)
    | inr q ↦ rw (delete_node, q) (dropped-IsLinked s.g n s.g.node v)
  ]

  pub get_node-Keeps : (n : String) → Keeps mn (get_node mn n)
  unfolding get_node
  get_node-Keeps n s v = elim (Option-cases (get s.g.node n)) [
    | inl q ↦ rw (q, get_node) v
    | inr (a, q) ↦ rw (q, get_node) v
  ]

  pop_node-Keeps : (n : String) → Keeps mn (pop_node mn n true)
  unfolding pop_node
  pop_node-Keeps n =
      then-Keeps mn (get_node mn n) _ (get_node-Keeps n)
        (λ a. then-Keeps mn (delete_node mn n true) _ (delete_node-Keeps n) (λ u s v. v))

  has_cpu_port-Keeps : (n : String) → Keeps mn (has_cpu_port mn n)
  unfolding has_cpu_port
  has_cpu_port-Keeps n =
      reads-Keeps mn (λ s. is_p4switch s.g n) _
        (λ p4.
          if-Keeps mn p4 _ _ (then-Keeps mn (get_node mn n) _ (get_node-Keeps n) (λ a s v. v))
            (λ s v. v))

module _ (mn : Mininet) (lib : LinkLib) where
  any_cpu_port-Keeps : (ns : List (String × Attrs)) → Keeps mn (any_cpu_port mn lib ns)
  unfolding any_cpu_port
  any_cpu_port-Keeps [] = λ s v. v
  any_cpu_port-Keeps ((n, a) ∷ ns) =
      then-Keeps mn (has_cpu_port mn n) _ (has_cpu_port-Keeps mn n)
        (λ here. if-Keeps mn here _ _ (λ s v. v) (any_cpu_port-Keeps ns))

  drop_bridge-Keeps : (b : Option String) → Keeps mn (drop_bridge mn lib b)
  unfolding drop_bridge set_bridge
  drop_bridge-Keeps none s = λ v. v
  drop_bridge-Keeps (some b) s =
      then-Keeps mn (if is_node mn s.g b then (pop_node mn b true >> pure tt) else pure tt) _
        (if-Keeps mn (is_node mn s.g b) _ _
          (then-Keeps mn (pop_node mn b true) _ (pop_node-Keeps mn b) (λ a s v. v)) (λ s v. v))
        (λ u s v. v) s

  pub disable_cpu_port-Keeps : (name : String) → Keeps mn (disable_cpu_port mn lib name)
  unfolding disable_cpu_port
  disable_cpu_port-Keeps name =
      reads-Keeps mn (λ s. is_p4switch s.g name) _
        (λ p4.
          if-Keeps mn p4 _ _
            (then-Keeps mn (has_cpu_port mn name) _ (has_cpu_port-Keeps mn name) (λ cpu.
              if-Keeps mn cpu _ _
                (then-Keeps mn (pop_link mn lib name "sw-cpu" none) _
                  (pop_link-InOrder mn lib name "sw-cpu" none)
                  (λ i.
                    then-Keeps mn (update_node mn name (("cpu_port", flag false) ∷ [])) _
                      (node-Keeps mn name _)
                      (λ j.
                        reads-Keeps mn (λ s. p4switches mn s.g) _
                          (λ ns.
                            then-Keeps mn (any_cpu_port mn lib ns) _ (any_cpu_port-Keeps ns)
                              (λ left s v.
                                if-Keeps mn left (pure tt) (drop_bridge mn lib s.cpu_bridge)
                                  (λ s v. v) (drop_bridge-Keeps s.cpu_bridge) s v)))))
                (λ s v. v)))
            (λ s v. v))

  each_switch-Keeps :
      (act : String → Exec Net (Unit {0})) (ns : List (String × Attrs))
      → ((n : String) → Keeps mn (act n))
      → Keeps mn (each_switch mn lib act ns)
  unfolding each_switch
  each_switch-Keeps act [] k = λ s v. v
  each_switch-Keeps act ((n, a) ∷ ns) k =
      then-Keeps mn (act n) _ (k n) (λ u. each_switch-Keeps act ns k)

  pub disable_cpu_port_all-Keeps : Keeps mn (disable_cpu_port_all mn lib)
  unfolding disable_cpu_port_all
  disable_cpu_port_all-Keeps =
      reads-Keeps mn (λ s. p4switches mn s.g) _
        (λ ns. each_switch-Keeps _ ns disable_cpu_port-Keeps)
