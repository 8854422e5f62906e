-- ===== src/Collector/Report.antt =====
-- src/int_collector_influx.py, class `IntReport`: a telemetry report from its bytes.
pub mod Flow
pub mod Loop
pub mod Header
pub mod Accept
pub mod MaxQueue
pub mod RoundTrip
use smoothie.Base.Int.{ℤ, sub_ℕ, quot, rounds}
use smoothie.Base.{
  ℕ, ◌+◌, ◌/◌, ◌%◌, ◌^◌, not, arith, if◌then◌else◌, ◌==◌, nat_eq, string_eq, pair_eq, length, drop,
}
use smoothie.Base.Error.{
  error, attribute_error, zero_division_error, struct_error, Result, ok, err, guard, ◌>>=◌, ◌>>◌,
}
use smoothie.Base.Bytes.{Bytes, slice, index, from_bytes}
use Flow.{FlowId, parse_flow, srv6_shift}
use Loop.{Hops, parse_hops}

pub record IntReport : Type 0 where
  pub ver : ℕ
  pub len : ℕ
  pub nprot : ℕ
  pub rep_md_bits : ℕ
  pub d : ℕ
  pub q : ℕ
  pub f : ℕ
  pub hw_id : ℕ
  pub switch_id : ℕ
  pub seq_num : ℕ
  pub ingress_tstamp : ℕ
  pub ethertype : ℕ
  pub flow_id : FlowId
  pub update_path : ℕ
  pub int_type : ℕ
  pub int_data_len : ℤ
  pub int_version : ℕ
  pub hop_count : ℤ
  pub ins_map : ℕ
  pub hops : Hops

-- the fixed header of 16 bytes
pub record FixedHeader : Type 0 where
  pub ver : ℕ
  pub len : ℕ
  pub nprot : ℕ
  pub rep_md_bits : ℕ
  pub d : ℕ
  pub q : ℕ
  pub f : ℕ
  pub hw_id : ℕ
  pub switch_id : ℕ
  pub seq_num : ℕ
  pub ingress_tstamp : ℕ

-- struct.unpack('!3I', bs), or the word at `i` of it
words : Bytes → Result (Unit {0})
words bs = guard (length bs == 12) struct_error

-- For a version other than 1 the message of the exception names `self.int_version`, which is not
-- set yet: what is raised is an `AttributeError`.
unfoldable pub parse_header : Bytes → Result FixedHeader
unfolding words
parse_header report = do
  let hdr = slice report 0 16
  b0 ← index hdr 0
  guard (b0 / 16 == 1) attribute_error
  b1 ← index hdr 1
  b2 ← index hdr 2
  b3 ← index hdr 3
  words (slice report 4 16)
  ok (record {
    ver = b0 / 16;
    len = b0 % 16;
    nprot = b1 / 32;
    rep_md_bits = b1 % 32 + b2 / 128;
    d = b2 % 2;
    q = b3 / 128;
    f = b3 / 64 % 2;
    hw_id = b3 % 64;
    switch_id = from_bytes (slice report 4 8);
    seq_num = from_bytes (slice report 8 12);
    ingress_tstamp = from_bytes (slice report 12 16);
  })

-- ethernet, IP and UDP headers; ethernet, IP and TCP headers
abbrev udp_offset : ℕ
udp_offset = 14 + 20 + 8

abbrev tcp_offset : ℕ
tcp_offset = 14 + 20 + 20

-- where `update_path` stands
unfoldable pub update_offset : ℕ → ℕ → ℕ
update_offset shift protocol =
    if protocol == 17
    then 16 + shift + udp_offset
    else if protocol == 6
    then 16 + shift + tcp_offset
    else 16 + shift

-- `hop_count`: of the INT header in version 0, of the lengths in version 1
unfoldable pub count_hops : Bytes → ℕ → ℤ → Result ℤ
count_hops int_hdr int_version int_data_len =
    if int_version == 0
    then (do n ← index int_hdr 3; ok (ℤ.pos n))
    else if int_version == 1
    then (do
      b2 ← index int_hdr 2
      b3 ← index int_hdr 3
      guard (not (b2 % 32 == 0)) zero_division_error
      ok (quot int_data_len (b2 % 32)))
    else err error

-- the report from its shim, its INT header and its metadata
unfoldable pub read_int_part :
    Bytes → Bytes → Bytes → FixedHeader → ℕ → FlowId → ℕ → Result IntReport
read_int_part int_shim int_hdr int_meta h ethertype flow_id update_path = do
  int_type ← index int_shim 0
  shim_len ← index int_shim 2
  let int_data_len = sub_ℕ shim_len 3
  guard (int_type == 1) error
  v ← index int_hdr 0
  hop_count ← count_hops int_hdr (v / 16) int_data_len
  let ins_map = from_bytes (slice int_hdr 4 6) / 2 ^ 8
  ok (record {
    ver = h.ver;
    len = h.len;
    nprot = h.nprot;
    rep_md_bits = h.rep_md_bits;
    d = h.d;
    q = h.q;
    f = h.f;
    hw_id = h.hw_id;
    switch_id = h.switch_id;
    seq_num = h.seq_num;
    ingress_tstamp = h.ingress_tstamp;
    ethertype = ethertype;
    flow_id = flow_id;
    update_path = update_path;
    int_type = int_type;
    int_data_len = int_data_len;
    int_version = v / 16;
    hop_count = hop_count;
    ins_map = ins_map;
    hops = parse_hops ins_map (v / 16) (rounds hop_count) int_meta;
  })

-- what stands behind the headers of the packet: from the shim on
unfoldable pub parse_int : Bytes → FixedHeader → ℕ → FlowId → ℕ → ℕ → Result IntReport
parse_int report h ethertype flow_id update_path offset =
    read_int_part (slice report offset (offset + 4)) (slice report (offset + 4) (offset + 12))
      (drop (offset + 12) report) h ethertype flow_id update_path

-- `__init__`
unfoldable pub parse_report : Bytes → Result IntReport
parse_report report = do
  h ← parse_header report
  let ethertype = from_bytes (slice report 28 30)
  shift ← srv6_shift report ethertype
  flow_id ← parse_flow report ethertype shift
  let offset = update_offset shift flow_id.protocol
  update_path ← index report offset
  parse_int report h ethertype flow_id update_path (offset + 1)
