-- ===== src/Collector/NetGraph/Update.antt =====
-- src/int_collector_influx.py, `NetGraph.update_infos`: what a report changes, and when a flow is
-- sent another way.
mod Measure
pub use Measure.{Link}
unfoldable pub use Measure.{before_index, text_to_v4, load, measure}
mod Reads
pub mod Walk
pub mod Reroute
use smoothie.Base.{
  ℕ, ◌+◌, String, not, ◌&&◌, none, some, List, [], ◌∷◌, ◌++◌, arith, if◌then◌else◌, ◌==◌, nat_eq,
  string_eq, pair_eq, get_elem?,
}
use smoothie.Base.Dict.{get, put, has}
use smoothie.Base.Error.{
  attribute_error, index_error, key_error, type_error, Result, ok, err, or_raise,
}
use smoothie.Base.Exec.{Exec, pure, lift, gets, ◌>>=◌, ◌>>◌}
use smoothie.Collector.PathInfos
use smoothie.Collector.PathInfos.{PathInfos}
use smoothie.Collector.Hop.{HopMetadata}
use smoothie.Collector.Report.{IntReport}
use smoothie.Collector.Report.Flow.{ethertype_ipv6}
use smoothie.Collector.NetGraph.Env.{Env, NetGraph, Node, Route}
use smoothie.Collector.NetGraph.Weights.{hash_nodes, weight_path, store_flow_path, get_path_digest}
use smoothie.Collector.NetGraph.Paths.{select_path}
use smoothie.Collector.NetGraph.Export.{path_to_ips, export_path}

module _ (env : Env) where
  open env use {Weight, of_ℕ, div, add, lt, delta}

  -- The edge must be one of the topology.
  unfoldable pub set_weight : String → String → Weight → Exec (NetGraph env) (Unit {0})
  set_weight src dst w g =
      if has g.weights (src, dst)
      then (ok tt, record g { weights = put g.weights (src, dst) w })
      else (err key_error, g)

  -- one round of the loop over the hops, the first one left out
  unfoldable pub hop_step : ℕ → HopMetadata → Exec (NetGraph env) Link
  unfolding set_weight
  hop_step dst hop g = elim (measure env g dst hop) [
    | err x ↦ (err x, g)
    | ok m ↦ (set_weight m.0.src_node m.0.dst_node m.1 >> pure m.0) g
  ]

  -- the rest of the loop: `dst`, `src_node` and `current_path` so far
  unfoldable pub hop_rounds :
      List HopMetadata → ℕ → Node → Route → Exec (NetGraph env) (Node × Route)
  hop_rounds [] dst src_node path = pure (src_node, path)
  hop_rounds (hop ∷ hops) dst src_node path =
      hop_step dst hop >>= λ r. hop_rounds hops r.src (some r.src_node) (some r.dst_node ∷ path)

  -- the loop: the first hop gives `dst`
  unfoldable pub walk : List HopMetadata → Exec (NetGraph env) (Node × Route)
  walk [] = pure (none, [])
  walk (hop ∷ hops) = do
    dst ← lift (or_raise attribute_error hop.switch_id)
    hop_rounds hops dst none []

  -- the weight of the path goes to the samples of the path
  unfoldable pub record_weight : Route → Weight → ℕ → Exec (NetGraph env) (Unit {0})
  record_weight inner w now g =
      let key = hash_nodes env inner in
      let infos : PathInfos Weight = elim (get g.path_infos key) [
        | none ↦ PathInfos.init 10
        | some p ↦ p
      ] in
      elim (PathInfos.add_weight infos w now) [
        | err x ↦ (err x, record g { path_infos = put g.path_infos key infos })
        | ok p ↦ (ok tt, record g { path_infos = put g.path_infos key p })
      ]

  -- p[1], where it is a switch
  unfoldable pub second : Route → Result String
  second p = elim (get_elem? p 1) [ none ↦ err index_error | some n ↦ or_raise key_error n ]

  -- the path is exported unless the flow already has it
  unfoldable pub export_new : IntReport → Route → Exec (NetGraph env) (Unit {0})
  export_new report p g =
      if get_path_digest env report.flow_id g == hash_nodes env p
      then (ok tt, g)
      else ((do
        ips ← lift (path_to_ips env p)
        first ← lift (second p)
        id_s ← lift (env.p4switch_id first)
        port ← lift (env.thrift_port first)
        export_path env ips id_s port
        λ g'. (ok tt, store_flow_path env report.flow_id p g'))
          g)

  -- a lighter path is looked for, and taken if it is lighter by more than `delta`
  unfoldable pub reroute :
      (ℕ → ℕ × ℕ) → IntReport → String → String → Route → Exec (NetGraph env) (Unit {0})
  reroute draw report src_host dst_host current g =
      (do
        found ← select_path env draw src_host dst_host g.detour
        p ← lift (or_raise type_error found)
        g' ← gets (λ g'. g')
        w ← lift (weight_path env g' current)
        w' ← lift (weight_path env g' p)
        if lt w (add w' delta) then pure tt else export_new report p)
        g

  -- `update_infos`; `now` is the time, and `draw` what `random.sample` gives.
  unfoldable pub update_infos : ℕ → (ℕ → ℕ × ℕ) → IntReport → Exec (NetGraph env) (Unit {0})
  update_infos now draw report = do
    src_v4 ← lift (text_to_v4 report.flow_id.srcip)
    src_host ← lift (env.host_name src_v4)
    dst_v4 ← lift (text_to_v4 report.flow_id.dstip)
    dst_host ← lift (env.host_name dst_v4)
    (src_node, path) ← walk report.hops.hop_metadata
    let inner = src_node ∷ path
    let current = some src_host ∷ (inner ++ (some dst_host ∷ []))
    g ← gets (λ g. g)
    w ← lift (weight_path env g current)
    record_weight inner w now
    if not (report.update_path == 0) && report.ethertype == ethertype_ipv6
        then reroute draw report src_host dst_host current
        else pure tt
