-- ===== src/Collector/NetGraph/Update/Walk.antt =====
-- The loop of `update_infos` over the hops of a report.
use mathlib.Core.Path.{subst}
use mathlib.Core.List.{reverse, reverse_aux}
use smoothie.Base.{
  ℕ, String, ◌≡◌, refl, sym, ap, ◌∙◌, inl, inr, true, some, List, [], ◌∷◌, map, nat_eq, string_eq,
  pair_eq, Bool-cases,
}
use smoothie.Base.Dict.{put, has}
use smoothie.Base.Error.{Result, ok, Result-cases}
use smoothie.Base.Exec.{pure, >>=-eq-ok, ◌>>=◌}
use smoothie.Collector.Hop.{HopMetadata}
use smoothie.Collector.NetGraph.Env.{Env, NetGraph, Node, Route}
use smoothie.Collector.NetGraph.Update.Reads.{Reads, measure-Reads}
use smoothie.Collector.NetGraph.Update.{
  Link, before_index, measure, set_weight, hop_step, hop_rounds, walk,
}

-- The hops come from the switches `ns`.
abbrev pub Named : List String → List HopMetadata → List String → Type 0
Named switches [] [] = Unit
Named switches [] (n ∷ ns) = ⊥
Named switches (h ∷ hs) [] = ⊥
Named switches (h ∷ hs) (n ∷ ns) =
    (i : ℕ) × (h.switch_id ≡ some i) × (before_index switches i ≡ ok n) × Named switches hs ns

-- the nodes of `ns`, the last one first, in front of `p`
abbrev pub rev_onto : List String → Route → Route
rev_onto [] p = p
rev_onto (n ∷ ns) p = rev_onto ns (some n ∷ p)

rev_onto_lem : (ns p : List String) → rev_onto ns (map some p) ≡ map some (reverse_aux ns p)
rev_onto_lem [] p = refl
rev_onto_lem (n ∷ ns) p = rev_onto_lem ns (n ∷ p)

module _ (env : Env) where
  -- A round changes the weight of one link, and nothing else.
  abbrev Round : NetGraph env → ℕ → HopMetadata → Link → NetGraph env → Type 0
  Round g dst hop r g' =
      (w : env.Weight) × Reads env g dst hop r w
      × (has g.weights (r.src_node, r.dst_node) ≡ true)
      × (g' ≡ record g { weights = put g.weights (r.src_node, r.dst_node) w })

  set_weight-ok :
      (g : NetGraph env) (a b : String) (w : env.Weight) (g' : NetGraph env)
      → set_weight env a b w g ≡ (ok tt, g')
      → (has g.weights (a, b) ≡ true) × (g' ≡ record g { weights = put g.weights (a, b) w })
  unfolding set_weight
  set_weight-ok g a b w g' e = elim (Bool-cases (has g.weights (a, b))) [
    | inl h ↦ (h, sym (ap (λ (p : Result Unit × NetGraph env). p.1) (rw (h, set_weight) at e)))
    | inr h ↦ cc (ap (λ (p : Result Unit × NetGraph env). p.0) (rw (h, set_weight) at e))
  ]

  hop_step-ok :
      (g : NetGraph env) (dst : ℕ) (hop : HopMetadata) (r : Link) (g' : NetGraph env)
      → hop_step env dst hop g ≡ (ok r, g')
      → Round g dst hop r g'
  unfolding hop_step
  hop_step-ok g dst hop r g' e = elim (Result-cases (measure env g dst hop)) [
    | inr (x, q) ↦ cc (ap (λ (p : Result Link × NetGraph env). p.0) (rw (q, hop_step) at e))
    | inl ((l, v), q) ↦
        let (u, g1, done, rest) =
          >>=-eq-ok (set_weight env l.src_node l.dst_node v) (λ _. pure l) g
            (rw (q, hop_step) at e) in
        let (known, changed) = set_weight-ok g l.src_node l.dst_node v g1 done in
        let same : l ≡ r = cc (ap (λ (p : Result Link × NetGraph env). p.0) rest) in
        let last : g1 ≡ g' = ap (λ (p : Result Link × NetGraph env). p.1) rest in
        subst (λ k. Round g dst hop k g') same
          (v, measure-Reads env g dst hop l v q, known, sym last ∙ changed)
  ]

  -- From the switch `n` of the hop before, a loop that does not raise puts the switches of the hops
  -- in front of the path.
  hop_rounds-Named :
      (hops : List HopMetadata) (ns : List String) (g : NetGraph env) (dst : ℕ) (n : String)
      (path : Route) (s : Node) (p : Route) (g' : NetGraph env)
      → Named g.switches hops ns
      → before_index g.switches dst ≡ ok n
      → hop_rounds env hops dst (some n) path g ≡ (ok (s, p), g')
      → s ∷ p ≡ rev_onto ns (some n ∷ path)
  unfolding hop_rounds
  hop_rounds-Named [] [] g dst n path s p g' named name e =
      cc (ap (λ (q : Result (Node × Route) × NetGraph env). q.0) e)
  hop_rounds-Named [] (m ∷ ns) g dst n path s p g' named name e = absurd named
  hop_rounds-Named (h ∷ hs) [] g dst n path s p g' named name e = absurd named
  hop_rounds-Named (h ∷ hs) (m ∷ ns) g dst n path s p g' (i, id, id_name, named) name e =
      let (r, g1, step, rest) = >>=-eq-ok (hop_step env dst h) _ g e in
      let (w, reads, known, changed) = hop_step-ok g dst h r g1 step in
      let same_id : i ≡ r.src = cc (id, reads.id_hop) in
      let m_src : m ≡ r.src_node =
        cc (id_name, reads.name_src, ap (before_index g.switches) same_id) in
      let n_dst : n ≡ r.dst_node = cc (name, reads.name_dst) in
      let switches : g1.switches ≡ g.switches = ap (λ (k : NetGraph env). k.switches) changed in
      let named' = subst (λ k. Named k hs ns) (sym switches) named in
      let name' = ap (λ k. before_index k r.src) switches ∙ reads.name_src in
      hop_rounds-Named hs ns g1 r.src r.src_node (some r.dst_node ∷ path) s p g' named' name' rest
      ∙ rw (m_src, n_dst)

  -- Where there are two hops at least, their ids name switches, and the loop does not raise, the
  -- path that it gives is the switches of the hops, from the source to the sink.
  pub walk-Named :
      (a b : HopMetadata) (hops : List HopMetadata) (m n : String) (ns : List String)
      (g : NetGraph env) (s : Node) (p : Route) (g' : NetGraph env)
      → Named g.switches (a ∷ b ∷ hops) (m ∷ n ∷ ns)
      → walk env (a ∷ b ∷ hops) g ≡ (ok (s, p), g')
      → s ∷ p ≡ map some (reverse (m ∷ n ∷ ns))
  unfolding walk hop_rounds
  walk-Named a b hops m n ns g s p g' (i, id, id_name, named) e =
      hop_rounds-Named (b ∷ hops) (n ∷ ns) g i m [] s p g' named id_name (rw (id, ◌>>=◌) at e)
      ∙ rev_onto_lem (m ∷ n ∷ ns) []
