-- ===== src/Tests/Reports.antt =====
-- src/int_collector_influx.py: a report with one hop, from its bytes.
use smoothie.Base.{false, ◌≡◌, refl, [], ◌∷◌, arith, nat_eq, string_eq, pair_eq}
use smoothie.Base.Bytes.{Bytes, big_endian}
use smoothie.Base.Error.{ok}
use smoothie.Base.Int.{pos}
use smoothie.Collector.Hop.{parse_hop}
use smoothie.Collector.Hop.Encode.{parse_hop-encode_hop}
use smoothie.Collector.Hop.Sent.{swaps_queue, Measured, Fits, encode_hop, measured_hop}
use smoothie.Collector.Report.Flow.{FlowId, ipv4, srv6_shift, parse_flow}
use smoothie.Collector.Report.Loop.{parse_hops}
use smoothie.Collector.Report.{
  IntReport, FixedHeader, parse_header, parse_report, parse_int, update_offset, read_int_part,
  count_hops,
}
use smoothie.Collector.Report.Header
use smoothie.Collector.Report.Header.{encode_header, parse_header-encode_header}
use smoothie.Collector.Report.MaxQueue.{IsWorst, parse_hops-IsWorst}
use smoothie.Collector.Report.RoundTrip.{encode_hops, int_part, measured_hops, parse_int-int_part}
use smoothie.Collector.Report.Accept.{IsAccepted, parse_report-IsAccepted}

abbrev sent : Bytes
sent =
    16 ∷ 0 ∷ 0 ∷ 0 ∷ 0 ∷ 0 ∷ 0 ∷ 2 ∷ 0 ∷ 0 ∷ 0 ∷ 1 ∷ 0 ∷ 0 ∷ 0 ∷ 5 ∷ 0 ∷ 0 ∷ 0 ∷ 0 ∷ 0 ∷ 0 ∷ 0 ∷ 0
    ∷ 0 ∷ 0 ∷ 0 ∷ 0 ∷ 8 ∷ 0 ∷ 69 ∷ 0 ∷ 0 ∷ 0 ∷ 0 ∷ 0 ∷ 0 ∷ 0 ∷ 0 ∷ 17 ∷ 0 ∷ 0 ∷ 10 ∷ 0 ∷ 0 ∷ 1 ∷ 10
    ∷ 0 ∷ 0 ∷ 2 ∷ 0 ∷ 5 ∷ 0 ∷ 6 ∷ 0 ∷ 0 ∷ 0 ∷ 0 ∷ 1 ∷ 1 ∷ 0 ∷ 5 ∷ 0 ∷ 16 ∷ 0 ∷ 2 ∷ 0 ∷ 144 ∷ 0 ∷ 0
    ∷ 0 ∷ 0 ∷ 0 ∷ 0 ∷ 2 ∷ 0 ∷ 0 ∷ 0 ∷ 9 ∷ []

abbrev flow : FlowId
flow = record { srcip = ipv4 10 0 0 1; dstip = ipv4 10 0 0 2; scrp = 5; dstp = 6; protocol = 17 }

abbrev received : IntReport
received = record {
  ver = 1;
  len = 0;
  nprot = 0;
  rep_md_bits = 0;
  d = 0;
  q = 0;
  f = 0;
  hw_id = 0;
  switch_id = 2;
  seq_num = 1;
  ingress_tstamp = 5;
  ethertype = 2048;
  flow_id = flow;
  update_path = 1;
  int_type = 1;
  int_data_len = pos 2;
  int_version = 1;
  hop_count = pos 1;
  ins_map = 144;
  hops = parse_hops 144 1 1 (0 ∷ 0 ∷ 0 ∷ 2 ∷ 0 ∷ 0 ∷ 0 ∷ 9 ∷ []);
}

parse_report_runs : parse_report sent ≡ ok received
unfolding parse_report parse_header srv6_shift big_endian parse_flow update_offset parse_int
    read_int_part count_hops
parse_report_runs = refl

parse_report-IsAccepted_example : IsAccepted sent received
parse_report-IsAccepted_example = parse_report-IsAccepted sent parse_report_runs

abbrev measured : Measured
measured = record {
  switch_id = 2;
  ingress_port = 1;
  egress_port = 3;
  latency = 40;
  queue_id = 0;
  occupancy = 9;
  trend = 1;
  ingress_time = 100;
  egress_time = 140;
  first = 1;
  second = 3;
  tx_util = 7;
}

measured-Fits : Fits 1 measured
measured-Fits = record {
  switch_id = omega arith;
  ingress_port = omega arith;
  egress_port = omega arith;
  latency = omega arith;
  queue_id = omega arith;
  occupancy = omega arith;
  trend = omega arith;
  ingress_time = omega arith;
  egress_time = omega arith;
  first = omega arith;
  second = omega arith;
  tx_util = omega arith;
}

plain : swaps_queue 144 ≡ false
unfolding swaps_queue
plain = refl

parse_hop-encode_hop_example :
    parse_hop 144 1 (encode_hop 144 1 measured (1 ∷ [])) ≡ (measured_hop 144 1 measured, 1 ∷ [])
parse_hop-encode_hop_example = parse_hop-encode_hop 144 1 measured (1 ∷ []) plain measured-Fits

abbrev fixed : FixedHeader
fixed = record {
  ver = 1;
  len = 5;
  nprot = 2;
  rep_md_bits = 6;
  d = 1;
  q = 0;
  f = 1;
  hw_id = 3;
  switch_id = 2;
  seq_num = 8;
  ingress_tstamp = 77;
}

parse_int-int_part_example :
    (r : IntReport) × (parse_int
        (0 ∷ (int_part 144 2 8 1 (encode_hops 144 1 (measured ∷ []) [])))
        fixed
        2048
        flow
        1
        1
      ≡ ok r)
    × (r.hops.hop_metadata ≡ measured_hops 144 1 (measured ∷ []))
    × (r.hop_count ≡ pos 1)
    × (r.ins_map ≡ 144)
    × (r.flow_id ≡ flow)
    × (r.update_path ≡ 1)
parse_int-int_part_example =
    parse_int-int_part (0 ∷ []) fixed 2048 flow 1 144 2 8 (measured ∷ []) [] (omega arith)
      (omega arith) (omega arith) refl plain (measured-Fits, tt)

fixed-Fits : Header.Fits fixed
fixed-Fits = record {
  ver = refl;
  len = omega arith;
  nprot = omega arith;
  rep_md_bits = omega arith;
  d = omega arith;
  q = omega arith;
  f = omega arith;
  hw_id = omega arith;
  switch_id = omega arith;
  seq_num = omega arith;
  ingress_tstamp = omega arith;
}

parse_header-encode_header_example :
    parse_header (encode_header fixed 0 []) ≡ ok (record fixed { rep_md_bits = 3 })
parse_header-encode_header_example = parse_header-encode_header fixed 0 [] (omega arith) fixed-Fits

parse_hops-IsWorst_example : IsWorst (parse_hops 144 1 1 (0 ∷ 0 ∷ 0 ∷ 2 ∷ 0 ∷ 0 ∷ 0 ∷ 9 ∷ []))
parse_hops-IsWorst_example = parse_hops-IsWorst 144 1 1 (0 ∷ 0 ∷ 0 ∷ 2 ∷ 0 ∷ 0 ∷ 0 ∷ 9 ∷ [])
