-- ===== src/Collector/Report/Loop.antt =====
-- src/int_collector_influx.py, `IntReport`: the loop over the hops of a report.
use smoothie.Base.{
  ℕ, zero, suc, Option, none, some, List, [], ◌∷◌, ◌++◌, ltb, if◌then◌else◌, nat_eq, string_eq,
  pair_eq,
}
use smoothie.Base.Bytes.{Bytes}
use smoothie.Collector.Hop.{HopMetadata, parse_hop}

pub record Hops : Type 0 where
  pub hop_metadata : List HopMetadata
  pub max_qdepth : ℕ
  pub trend : ℕ

-- One more hop, with `q` bytes in its queue.
unfoldable pub grown : HopMetadata → Hops → ℕ → Hops
grown hop s q =
    let fuller = ltb s.max_qdepth q in
    record {
      hop_metadata = s.hop_metadata ++ (hop ∷ []);
      max_qdepth = if fuller then q else s.max_qdepth;
      trend = if fuller then (elim hop.trend [ none ↦ 0 | some t ↦ t ]) else s.trend;
    }

-- `none` where the comparison raises: the queue's occupancy was not written.
unfoldable pub take_hop : HopMetadata → Hops → Option Hops
unfolding grown
take_hop hop s = elim hop.queue_occupancy [ none ↦ none | some q ↦ some (grown hop s q) ]

-- The exception ends the loop. `hop.trend` is there whenever `hop.queue_occupancy` is.
unfoldable pub hop_loop : ℕ → ℕ → ℕ → Bytes → Hops → Hops
hop_loop ins_map int_version zero int_meta s = s
hop_loop ins_map int_version (suc n) int_meta s =
    let (hop, rest) = parse_hop ins_map int_version int_meta in
    elim (take_hop hop s) [ none ↦ s | some s' ↦ hop_loop ins_map int_version n rest s' ]

unfoldable pub parse_hops : ℕ → ℕ → ℕ → Bytes → Hops
parse_hops ins_map int_version hop_count int_meta =
    hop_loop ins_map int_version hop_count int_meta
      (record { hop_metadata = []; max_qdepth = 0; trend = 0 })
