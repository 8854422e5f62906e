-- ===== src/Tests/Updates.antt =====
-- src/int_collector_influx.py: reports that change the weights and the paths.
use smoothie.Base.{
  ℕ, ◌≡◌, refl, Option, none, some, List, [], ◌∷◌, nat_eq, string_eq, pair_eq, is_some, get_elem?,
  set,
}
use smoothie.Base.Dict.{get, put, has}
use smoothie.Base.Error.{ok}
use smoothie.Base.Int.{pos}
use smoothie.Helper.{mac_to_v4, mac_to_ipv6_linklocal, mac_value}
use smoothie.Collector.Hop.{HopMetadata, blank}
use smoothie.Collector.Report.Flow.{FlowId, ipv6, ethertype_ipv6}
use smoothie.Collector.Report.{IntReport}
use smoothie.Collector.NetGraph.Env.{Route, Entry, NetGraph}
use smoothie.Collector.NetGraph.Weights.{
  join, node_text, flow_values, hash_list, hash_nodes, store_flow_path, get_path_digest, add_edge,
  weight_loop, weight_path,
}
use smoothie.Collector.NetGraph.Paths.{candidates, choose, select_path}
use smoothie.Collector.NetGraph.Export.{path_to_ips, ips_from, entry_for, install, export_path}
use smoothie.Collector.NetGraph.Export.Slots.{IsEntry, Written, export_path-ok}
use smoothie.Collector.NetGraph.Update.{
  before_index, load, measure, hop_step, hop_rounds, walk, second, export_new, set_weight,
}
use smoothie.Collector.NetGraph.Update.Walk.{walk-Named}
use smoothie.Collector.NetGraph.Update.Reroute.{export_new_once}
use smoothie.Tests.Setup.{example_env, network, direct, detour}

abbrev hop_at : ℕ → HopMetadata
hop_at i = record blank { switch_id = some i; queue_occupancy = some 512 }

abbrev walked : NetGraph example_env
walked = record network { weights = put (put network.weights ("s3", "s2") 2) ("s1", "s3") 2 }

walk_runs :
    walk example_env (hop_at 2 ∷ hop_at 3 ∷ hop_at 1 ∷ []) network
    ≡ (ok (some "s1", some "s3" ∷ some "s2" ∷ []), walked)
unfolding walk hop_rounds hop_step measure load before_index set_weight has is_some get put
walk_runs = refl

two_runs : before_index network.switches 2 ≡ ok "s2"
unfolding before_index
two_runs = refl

three_runs : before_index network.switches 3 ≡ ok "s3"
unfolding before_index
three_runs = refl

one_runs : before_index network.switches 1 ≡ ok "s1"
unfolding before_index
one_runs = refl

walk-Named_example :
    ◌≡◌ {A = Route}
      (some "s1" ∷ some "s3" ∷ some "s2" ∷ [])
      (some "s1" ∷ some "s3" ∷ some "s2" ∷ [])
walk-Named_example =
    walk-Named example_env (hop_at 2) (hop_at 3) (hop_at 1 ∷ []) "s2" "s3" ("s1" ∷ []) network
      (some "s1") (some "s3" ∷ some "s2" ∷ []) walked
      (2, refl, two_runs, (3, refl, three_runs, (1, refl, one_runs, tt))) walk_runs

abbrev flow : FlowId
flow = record { srcip = ipv6 1; dstip = ipv6 2; scrp = 1; dstp = 23; protocol = 17 }

abbrev report : IntReport
report = record {
  ver = 1;
  len = 0;
  nprot = 0;
  rep_md_bits = 0;
  d = 0;
  q = 0;
  f = 0;
  hw_id = 0;
  switch_id = 2;
  seq_num = 0;
  ingress_tstamp = 0;
  ethertype = ethertype_ipv6;
  flow_id = flow;
  update_path = 1;
  int_type = 1;
  int_data_len = pos 0;
  int_version = 1;
  hop_count = pos 0;
  ins_map = 0;
  hops = record { hop_metadata = []; max_qdepth = 0; trend = 0 };
}

abbrev exported : NetGraph example_env
exported = (export_new example_env report detour network).1

export_runs : export_new example_env report detour network ≡ (ok tt, exported)
unfolding export_new path_to_ips ips_from second export_path entry_for install get_path_digest
    hash_nodes hash_list flow_values join store_flow_path get mac_to_v4 mac_to_ipv6_linklocal
    mac_value node_text
export_runs = refl

export_new_once_example : export_new example_env report detour exported ≡ (ok tt, exported)
export_new_once_example = export_new_once example_env report detour network exported export_runs

abbrev draw : ℕ → ℕ × ℕ
draw n = (0, 1)

abbrev kept : NetGraph example_env
kept = record network { paths = ("h1h2", detour ∷ []) ∷ [] }

select_runs :
    select_path example_env draw "h1" "h2" network.detour network ≡ (ok (some detour), kept)
unfolding select_path candidates choose hash_list join get put
select_runs = refl

direct_runs : weight_path example_env kept direct ≡ ok 9
unfolding weight_path weight_loop add_edge get
direct_runs = refl

detour_runs : weight_path example_env kept detour ≡ ok 0
unfolding weight_path weight_loop add_edge get
detour_runs = refl

abbrev entry : Entry
entry = record { match_key = 2; action_size = 1; segments = 2 ∷ [] }

abbrev told : NetGraph example_env
told = record network { thrift_switches = none ∷ some (entry ∷ []) ∷ none ∷ [] }

export_path_runs : export_path example_env (1 ∷ 2 ∷ []) 1 9090 network ≡ (ok tt, told)
unfolding export_path entry_for install
export_path_runs = refl

export_path-ok_example :
    (e : Entry) × (c' : List Entry) × (connected : Option (List Entry)) × IsEntry example_env
      (2 ∷ [])
      e
    × (get_elem? network.thrift_switches 1 ≡ some connected)
    × Written example_env (elim connected [ none ↦ example_env.connect 9090 | some c ↦ c ]) e c'
    × (get_elem? told.thrift_switches 1 ≡ some (some c'))
    × (told ≡ record network { thrift_switches = set network.thrift_switches 1 (some c') })
export_path-ok_example = export_path-ok example_env network (1 ∷ 2 ∷ []) 1 9090 export_path_runs
