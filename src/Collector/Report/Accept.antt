-- ===== src/Collector/Report/Accept.antt =====
-- What holds of every report that is accepted.
use smoothie.Base.{
  ℕ, ◌≤◌, ◌≡◌, ◌∙◌, arith, nat_eq, string_eq, pair_eq, length, drop, length-take, length-drop,
}
use smoothie.Base.Error.{ok, >>=-eq-ok}
use smoothie.Base.Bytes.{Bytes, slice, index, from_bytes}
use smoothie.Base.Int.{ℤ, rounds}
use smoothie.Collector.Report.Flow.{FlowId, srv6_shift, parse_flow}
use smoothie.Collector.Report.Loop.{parse_hops}
use smoothie.Collector.Report.MaxQueue.{IsWorst, parse_hops-IsWorst, length-parse_hops}
use smoothie.Collector.Report.{
  FixedHeader, IntReport, parse_header, count_hops, update_offset, read_int_part, parse_int,
  parse_report,
}

pub record IsAccepted (report : Bytes) (r : IntReport) : Type 0 where
  pub long_enough : 16 ≤ length report
  pub ver : r.ver ≡ 1
  pub int_type : r.int_type ≡ 1
  pub int_version : r.int_version ≤ 1
  pub hops_announced : length r.hops.hop_metadata ≤ rounds r.hop_count
  pub worst : IsWorst r.hops

parse_header-ok :
    (r : Bytes) {h : FixedHeader} → parse_header r ≡ ok h → (16 ≤ length r) × (h.ver ≡ 1)
unfolding parse_header
parse_header-ok r e = ground (arith, length-take {0} 12 (drop 4 r), length-drop {0} 4 r)

count_hops_version : (hdr : Bytes) (v : ℕ) (n : ℤ) {k : ℤ} → count_hops hdr v n ≡ ok k → v ≤ 1
unfolding count_hops
count_hops_version hdr v n e = ground arith

read_int_part-ok :
    (shim hdr meta : Bytes) (h : FixedHeader) (e : ℕ) (flow : FlowId) (u : ℕ) {r : IntReport}
    → read_int_part shim hdr meta h e flow u ≡ ok r
    → (r.ver ≡ h.ver)
      × (r.int_type ≡ 1)
      × (r.int_version ≤ 1)
      × (r.hops ≡ parse_hops r.ins_map r.int_version (rounds r.hop_count) meta)
unfolding read_int_part count_hops
read_int_part-ok shim hdr meta h e flow u p = ground arith

-- An accepted report has its fixed header of 16 bytes, the versions and the type that the parser
-- knows, at most the announced hops, and the fullest queue of them.
pub parse_report-IsAccepted :
    (report : Bytes) {r : IntReport} → parse_report report ≡ ok r → IsAccepted report r
unfolding parse_report parse_int
parse_report-IsAccepted report {r} e =
    let (h, header, e1) = >>=-eq-ok (parse_header report) _ e in
    let (shift, _, e2) = >>=-eq-ok (srv6_shift report (from_bytes (slice report 28 30))) _ e1 in
    let (flow, _, e3) =
      >>=-eq-ok (parse_flow report (from_bytes (slice report 28 30)) shift) _ e2 in
    let (u, _, e4) = >>=-eq-ok (index report (update_offset shift flow.protocol)) _ e3 in
    let parts = read_int_part-ok _ _ _ h _ flow u e4 in
    let checked = parse_header-ok report header in
    record {
      long_enough = checked.0;
      ver = parts.0 ∙ checked.1;
      int_type = parts.1;
      int_version = parts.2;
      hops_announced =
          rw parts.3 (length-parse_hops r.ins_map r.int_version (rounds r.hop_count) _);
      worst = rw parts.3 (parse_hops-IsWorst r.ins_map r.int_version (rounds r.hop_count) _);
    }
