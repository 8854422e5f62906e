-- ===== src/Collector/Influx/Send.antt =====
-- src/int_collector_influx.py, `__send_reports`: the documents of all reports go to the data base.
use smoothie.Base.{
  ℕ, ◌+◌, String, Bool, not, ◌&&◌, List, [], ◌∷◌, ◌++◌, if◌then◌else◌, ◌==◌, nat_eq, string_eq,
  pair_eq, length,
}
use smoothie.Base.Error.{ok}
use smoothie.Base.Exec.{Exec, pure, ◌>>=◌}
use smoothie.Collector.Report.Flow.{FlowId}
use smoothie.Collector.Report.{IntReport}
use smoothie.Collector.NetGraph.Env.{Env}
use smoothie.Collector.NetGraph.Weights.{join, address_text}
use smoothie.Collector.Influx.{Floats, Document, IntCollector, prepare_reports}

-- `flow_key`
unfoldable pub flow_key : Env → FlowId → String
flow_key env f = join (
    address_text env f.srcip
    ∷ ", "
    ∷ address_text env f.dstip
    ∷ ", "
    ∷ env.str f.scrp
    ∷ ", "
    ∷ env.str f.dstp
    ∷ ", "
    ∷ env.str f.protocol
    ∷ [])

-- if report.hop_metadata
unfoldable pub has_hops : IntReport → Bool
has_hops report = not (length report.hops.hop_metadata == 0)

module _ (env : Env) (fl : Floats) where
  -- the documents of one report, if it has hops
  unfoldable pub report_documents : (ℕ → ℕ) → IntReport → Exec IntCollector (List (Document fl))
  report_documents clock report =
      if has_hops report
      then prepare_reports fl clock report (flow_key env report.flow_id)
      else pure []

  -- `json_body`; `clock` gives the times, by the places of the report and of the document
  unfoldable pub json_body :
      (ℕ → ℕ → ℕ) → ℕ → List IntReport → Exec IntCollector (List (Document fl))
  json_body clock i [] = pure []
  json_body clock i (r ∷ rs) = do
    ds ← report_documents (clock i) r
    rest ← json_body clock (i + 1) rs
    pure (ds ++ rest)

  -- the time of the last sending, where `write_points` did not raise
  unfoldable pub note_sent : Bool → ℕ → IntCollector → IntCollector
  note_sent done now c = if done then record c { last_send = now } else c

  -- `__send_reports`; `write_points` says whether the data base took the documents.
  unfoldable pub send_reports :
      (ℕ → ℕ → ℕ) → (List (Document fl) → Bool) → ℕ → Exec IntCollector (Unit {0})
  send_reports clock write_points now c =
      (do
        ds ← json_body clock 0 c.reports
        λ c'. (
          ok tt,
          record (note_sent (not (length ds == 0) && write_points ds) now c') { reports = [] },
        ))
        c
