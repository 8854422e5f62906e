-- ===== src/Tests/Server.antt =====
-- src/int_collector_influx.py: messages that arrive, and the documents of a report.
use smoothie.Base.{ℕ, ◌≡◌, refl, some, List, [], ◌∷◌, nat_eq, string_eq, pair_eq, length}
use smoothie.Base.Dict.{get, put}
use smoothie.Base.Error.{Result, ok, err}
use smoothie.Base.Int.{ℤ, pos}
use smoothie.Collector.Hop.{HopMetadata, blank}
use smoothie.Collector.Report.Flow.{ipv6, ethertype_ipv6}
use smoothie.Collector.Report.{IntReport}
use smoothie.Collector.NetGraph.Weights
use smoothie.Collector.Server.{Message, start_udp_server}
use smoothie.Collector.Server.Kept.{start_udp_server_slots}
use smoothie.Collector.Influx.{
  Floats, Document, IntCollector, prepare_e2e_report, prepare_hop_report, prepare_hops,
  prepare_reports, last_hop, hop_jitter,
}
use smoothie.Collector.Influx
use smoothie.Tests.Setup.{example_env}

abbrev noise : Message
noise = record { bytes = 16 ∷ 0 ∷ []; now = 5; draw = λ n. (0, 1) }

start_udp_server_slots_example :
    ((start_udp_server example_env (noise ∷ [])).switches ≡ (Weights.init example_env).switches)
    × (length (start_udp_server example_env (noise ∷ [])).thrift_switches
        ≡ length (Weights.init example_env).switches)
start_udp_server_slots_example = start_udp_server_slots example_env (noise ∷ [])

abbrev whole_floats : Floats
whole_floats = record { Float = ℤ; of_ℕ = pos; of_ℤ = λ i. i; sub = λ a b. a }

abbrev hop_of : ℕ → ℕ → HopMetadata
hop_of i t = record blank {
  switch_id = some i;
  ingress_timestamp = some t;
  queue_occupancy = some 0;
}

abbrev report : IntReport
report = record {
  ver = 1;
  len = 0;
  nprot = 0;
  rep_md_bits = 0;
  d = 0;
  q = 0;
  f = 0;
  hw_id = 0;
  switch_id = 2;
  seq_num = 0;
  ingress_tstamp = 0;
  ethertype = ethertype_ipv6;
  flow_id = record { srcip = ipv6 1; dstip = ipv6 2; scrp = 1; dstp = 23; protocol = 17 };
  update_path = 1;
  int_type = 1;
  int_data_len = pos 0;
  int_version = 1;
  hop_count = pos 2;
  ins_map = 0;
  hops = record { hop_metadata = hop_of 2 140 ∷ hop_of 1 100 ∷ []; max_qdepth = 0; trend = 0 };
}

abbrev made : Result (List (Document whole_floats)) × IntCollector
made = prepare_reports whole_floats (λ i. i) report "flow" (Influx.init 10 0)

abbrev documents : List (Document whole_floats)
documents = elim made.0 [ ok ds ↦ ds | err x ↦ [] ]

documents_run : made ≡ (ok documents, made.1)
unfolding prepare_reports last_hop prepare_hops prepare_hop_report hop_jitter Influx.init
    prepare_e2e_report get put
documents_run = refl
