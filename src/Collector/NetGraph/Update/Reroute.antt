-- ===== src/Collector/NetGraph/Update/Reroute.antt =====
-- When `update_infos` exports the path of a flow.
use smoothie.Base.{
  String, ◌≡◌, sym, ap, ◌∙◌, inl, inr, ◌==◌, nat_eq, string_eq, pair_eq, beq_refl, Bool-cases,
}
use smoothie.Base.Error.{Result, ok}
use smoothie.Base.Exec.{lift}
use smoothie.Base.Exec.{>>=-eq-ok}
use smoothie.Collector.Report.{IntReport}
use smoothie.Collector.NetGraph.Env.{Env, NetGraph, Route}
use smoothie.Collector.NetGraph.Weights.{
  hash_list, flow_values, hash_nodes, store_flow_path, get_path_digest,
}
use smoothie.Collector.NetGraph.Weights.Digest.{get_path_digest-store_flow_path}
use smoothie.Collector.NetGraph.Export.{path_to_ips, export_path}
use smoothie.Collector.NetGraph.Update.{second, export_new}

module _ (env : Env) (report : IntReport) (p : Route) where
  abbrev digest : NetGraph env → String
  digest g = get_path_digest env report.flow_id g

  -- A flow that already has the path is left alone.
  export_new_kept :
      (g : NetGraph env) → digest g ≡ hash_nodes env p → export_new env report p g ≡ (ok tt, g)
  unfolding export_new
  export_new_kept g e = rw ((string_eq.beq_iff (digest g) (hash_nodes env p)).1 e, export_new)

  digest-store :
      (g : NetGraph env) → digest (store_flow_path env report.flow_id p g) ≡ hash_nodes env p
  digest-store g = rw (
    get_path_digest-store_flow_path env report.flow_id report.flow_id p g,
    beq_refl (hash_list env (flow_values env report.flow_id)),
  )

  -- Once a path was exported for a flow, or found there already, it is the flow's path.
  export_new-digest :
      (g g' : NetGraph env) → export_new env report p g ≡ (ok tt, g') → digest g' ≡ hash_nodes env p
  unfolding export_new
  export_new-digest g g' e = elim (Bool-cases (digest g == hash_nodes env p)) [
    | inl same ↦
        let stay = ap (λ (q : Result Unit × NetGraph env). q.1) (rw (same, export_new) at e) in
        ap digest (sym stay) ∙ (string_eq.beq_iff (digest g) (hash_nodes env p)).0 same
    | inr new ↦
        let (ips, g1, e1, k1) =
          >>=-eq-ok (lift (path_to_ips env p)) _ g (rw (new, export_new) at e) in
        let (first, g2, e2, k2) = >>=-eq-ok (lift (second env p)) _ g1 k1 in
        let (id_s, g4, e4, k4) = >>=-eq-ok (lift (env.p4switch_id first)) _ g2 k2 in
        let (port, g5, e5, k5) = >>=-eq-ok (lift (env.thrift_port first)) _ g4 k4 in
        let (u, g3, e3, k3) = >>=-eq-ok (export_path env ips id_s port) _ g5 k5 in
        ap digest (sym (ap (λ (q : Result Unit × NetGraph env). q.1) k3)) ∙ digest-store g3
  ]

  -- The same path is not exported twice in a row for a flow: after an export that does not raise, a
  -- second one changes nothing.
  pub export_new_once :
      (g g' : NetGraph env)
      → export_new env report p g ≡ (ok tt, g')
      → export_new env report p g' ≡ (ok tt, g')
  export_new_once g g' e = export_new_kept g' (export_new-digest g g' e)
