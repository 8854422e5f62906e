-- ===== src/Collector/Server/Kept.antt =====
-- What no report changes.
use smoothie.Base.{
  ℕ, String, ◌≡◌, refl, ◌∙◌, inl, inr, Bool, true, false, not, ◌&&◌, Option, none, some, List, [],
  ◌∷◌, ◌++◌, if◌then◌else◌, ◌==◌, nat_eq, string_eq, pair_eq, Bool-cases, Option-cases, length,
  get_elem?, drop, length-set, length-replicate,
}
use smoothie.Base.Dict.{get, has}
use smoothie.Base.Error.{Result-cases, or_raise}
use smoothie.Base.Exec.{Exec, pure, lift}
use smoothie.Base.Exec.{>>=_keeps}
use smoothie.Collector.Hop.{HopMetadata}
use smoothie.Collector.Report.{IntReport, parse_report}
use smoothie.Collector.PathInfos
use smoothie.Collector.PathInfos.{PathInfos}
use smoothie.Collector.NetGraph.Env.{Env, NetGraph, Node, Route}
use smoothie.Collector.NetGraph.Weights
use smoothie.Collector.Report.Flow.{ethertype_ipv6}
use smoothie.Collector.NetGraph.Weights.{
  store_flow_path, get_path_digest, hash_nodes, hash_list, weight_path,
}
use smoothie.Collector.NetGraph.Paths.{candidates, select_path}
use smoothie.Collector.NetGraph.Export.{export_path, path_to_ips, entry_for, install, client_for}
use smoothie.Collector.NetGraph.Update.{
  set_weight, measure, hop_step, hop_rounds, walk, record_weight, second, export_new, reroute,
  update_infos, text_to_v4,
}
use smoothie.Collector.Server.{Message, handle, serve, start_udp_server}

module _ (env : Env) (sw : List String) (n : ℕ) where
  -- The switches are `sw`, and there are `n` slots for their clients.
  abbrev Kept : NetGraph env → Type 0
  Kept g = (g.switches ≡ sw) × (length g.thrift_switches ≡ n)

  abbrev Keeps : {A : Type 0} → Exec (NetGraph env) A → Type 0
  Keeps e = (g : NetGraph env) → Kept g → Kept (e g).1

  set_weight-Keeps : (a b : String) (w : env.Weight) → Keeps (set_weight env a b w)
  unfolding set_weight
  set_weight-Keeps a b w g k = elim (Bool-cases (has g.weights (a, b))) [
    | inl t ↦ rw (t, set_weight) k
    | inr t ↦ rw (t, set_weight) k
  ]

  hop_step-Keeps : (dst : ℕ) (hop : HopMetadata) → Keeps (hop_step env dst hop)
  unfolding hop_step
  hop_step-Keeps dst hop g k = elim (Result-cases (measure env g dst hop)) [
    | inr (x, q) ↦ rw (q, hop_step) k
    | inl ((l, w), q) ↦
        rw (q, hop_step)
          (>>=_keeps Kept (set_weight env l.src_node l.dst_node w) (λ _. pure l)
            (set_weight-Keeps l.src_node l.dst_node w) (λ u t h. h) g k)
  ]

  hop_rounds-Keeps :
      (hops : List HopMetadata) (dst : ℕ) (s : Node) (p : Route)
      → Keeps (hop_rounds env hops dst s p)
  unfolding hop_rounds
  hop_rounds-Keeps [] dst s p = λ g k. k
  hop_rounds-Keeps (hop ∷ hops) dst s p =
      >>=_keeps Kept (hop_step env dst hop) _ (hop_step-Keeps dst hop)
        (λ r. hop_rounds-Keeps hops r.src _ _)

  walk-Keeps : (hops : List HopMetadata) → Keeps (walk env hops)
  unfolding walk
  walk-Keeps [] = λ g k. k
  walk-Keeps (hop ∷ hops) =
      >>=_keeps Kept (lift _) _ (λ t h. h) (λ dst. hop_rounds-Keeps hops dst none [])

  record_weight-Keeps :
      (inner : Route) (w : env.Weight) (now : ℕ) → Keeps (record_weight env inner w now)
  unfolding record_weight
  record_weight-Keeps inner w now g k =
      let infos : PathInfos env.Weight = elim (get g.path_infos (hash_nodes env inner)) [
        | none ↦ PathInfos.init 10
        | some p ↦ p
      ] in
      elim (Result-cases (PathInfos.add_weight infos w now)) [
        | inr (x, q) ↦ rw (q, record_weight) k
        | inl (p, q) ↦ rw (q, record_weight) k
      ]

  candidates-Keeps : (src dst : String) (d : ℕ) → Keeps (candidates env src dst d)
  unfolding candidates
  candidates-Keeps src dst d g k =
      elim (Option-cases (get g.paths (hash_list env (src ∷ dst ∷ [])))) [
        | inr (ps, q) ↦ rw (q, candidates) k
        | inl q ↦ elim (Result-cases (env.shortest_path_length src dst)) [
          | inr (x, r) ↦ rw (q, r, candidates) k
          | inl (l, r) ↦ rw (q, r, candidates) k
        ]
      ]

  select_path-Keeps :
      (draw : ℕ → ℕ × ℕ) (src dst : String) (d : ℕ) → Keeps (select_path env draw src dst d)
  unfolding select_path
  select_path-Keeps draw src dst d g k = elim (Result-cases (candidates env src dst d g).0) [
    | inr (x, q) ↦ rw (q, select_path) (candidates-Keeps src dst d g k)
    | inl (ps, q) ↦ rw (q, select_path) (candidates-Keeps src dst d g k)
  ]

  export_path-Keeps : (p : List ℕ) (i port : ℕ) → Keeps (export_path env p i port)
  unfolding export_path
  export_path-Keeps p i port g k = elim (Option-cases (get_elem? g.thrift_switches i)) [
    | inl q ↦ rw (q, export_path) k
    | inr (c, q) ↦
        let slots = λ (v : Option env.Client). length-set g.thrift_switches i v ∙ k.1 in
        elim (Result-cases (entry_for env (drop 1 p))) [
          | inr (x, r) ↦ rw (q, r, export_path) (k.0, slots (some (client_for env c port)))
          | inl (e, r) ↦ elim (Result-cases (install env (client_for env c port) e)) [
            | inr (x, t) ↦ rw (q, r, t, export_path) (k.0, slots (some (client_for env c port)))
            | inl (c', t) ↦ rw (q, r, t, export_path) (k.0, slots (some c'))
          ]
        ]
  ]

  export_new-Keeps : (report : IntReport) (p : Route) → Keeps (export_new env report p)
  unfolding export_new store_flow_path
  export_new-Keeps report p g k =
      elim (Bool-cases (get_path_digest env report.flow_id g == hash_nodes env p)) [
        | inl q ↦ rw (q, export_new) k
        | inr q ↦
            rw (q, export_new)
              (>>=_keeps Kept (lift (path_to_ips env p)) _ (λ t h. h)
                (λ ips.
                  >>=_keeps Kept (lift (second env p)) _ (λ t h. h)
                    (λ first.
                      >>=_keeps Kept (lift (env.p4switch_id first)) _ (λ t h. h)
                        (λ id_s.
                          >>=_keeps Kept (lift (env.thrift_port first)) _ (λ t h. h)
                            (λ port.
                              >>=_keeps Kept (export_path env ips id_s port) _
                                (export_path-Keeps ips id_s port) (λ u t h. h)))))
                g k)
      ]

  reroute-Keeps :
      (draw : ℕ → ℕ × ℕ) (report : IntReport) (src dst : String) (current : Route)
      → Keeps (reroute env draw report src dst current)
  unfolding reroute
  reroute-Keeps draw report src dst current g k =
      >>=_keeps Kept (select_path env draw src dst g.detour) _
        (select_path-Keeps draw src dst g.detour)
        (λ found.
          >>=_keeps Kept (lift (or_raise _ found)) _ (λ t h. h)
            (λ p g1 k1.
              >>=_keeps Kept (lift (weight_path env g1 current)) _ (λ t h. h)
                (λ w.
                  >>=_keeps Kept (lift (weight_path env g1 p)) _ (λ t h. h)
                    (λ w' t h. elim (Bool-cases (env.lt w (env.add w' env.delta))) [
                      | inl q ↦ rw q h
                      | inr q ↦ rw q (export_new-Keeps report p t h)
                    ]))
                g1 k1))
        g k

  asked-Keeps :
      (asked : Bool) (draw : ℕ → ℕ × ℕ) (report : IntReport) (src dst : String) (current : Route)
      → Keeps (if asked then reroute env draw report src dst current else pure tt)
  asked-Keeps true = reroute-Keeps
  asked-Keeps false = λ draw report src dst current g k. k

  update_infos-Keeps :
      (now : ℕ) (draw : ℕ → ℕ × ℕ) (report : IntReport) → Keeps (update_infos env now draw report)
  unfolding update_infos
  update_infos-Keeps now draw report =
      >>=_keeps Kept (lift (text_to_v4 report.flow_id.srcip)) _ (λ t h. h)
        (λ a.
          >>=_keeps Kept (lift (env.host_name a)) _ (λ t h. h)
            (λ src.
              >>=_keeps Kept (lift (text_to_v4 report.flow_id.dstip)) _ (λ t h. h)
                (λ b.
                  >>=_keeps Kept (lift (env.host_name b)) _ (λ t h. h)
                    (λ dst.
                      >>=_keeps Kept (walk env report.hops.hop_metadata) _
                        (walk-Keeps report.hops.hop_metadata)
                        (λ (s, p) g1 k1.
                          (>>=_keeps Kept
                            (lift (weight_path env g1 (some src ∷ ((s ∷ p) ++ (some dst ∷ []))))) _
                            (λ t h. h)
                            (λ w.
                              >>=_keeps Kept (record_weight env (s ∷ p) w now) _
                                (record_weight-Keeps (s ∷ p) w now)
                                (λ u.
                                  asked-Keeps
                                    (not (report.update_path == 0)
                                      && report.ethertype == ethertype_ipv6)
                                    draw report src dst (some src ∷ ((s ∷ p) ++ (some dst ∷ [])))))
                            g1 k1))))))

  handle-Kept : (m : Message) (g : NetGraph env) → Kept g → Kept (handle env m g)
  unfolding handle
  handle-Kept m g k = elim (Result-cases (parse_report m.bytes)) [
    | inr (x, q) ↦ rw (q, handle) k
    | inl (r, q) ↦ rw (q, handle) (update_infos-Keeps m.now m.draw r g k)
  ]

  serve-Kept : (ms : List Message) (g : NetGraph env) → Kept g → Kept (serve env ms g)
  unfolding serve
  serve-Kept [] g k = k
  serve-Kept (m ∷ ms) g k = serve-Kept ms (handle env m g) (handle-Kept m g k)

-- Whatever messages arrive, valid or not, the switches are those of the topology, and there is one
-- slot for a client for each of them.
pub start_udp_server_slots :
    (env : Env) (ms : List Message)
    → ((start_udp_server env ms).switches ≡ (Weights.init env).switches)
      × (length (start_udp_server env ms).thrift_switches ≡ length (Weights.init env).switches)
unfolding start_udp_server
start_udp_server_slots env ms =
    serve-Kept env (Weights.init env).switches (length (Weights.init env).switches) ms
      (Weights.init env) (refl, (unfold Weights.init in length-replicate (length _) none))
