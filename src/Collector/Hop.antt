-- ===== src/Collector/Hop.antt =====
-- src/int_collector_influx.py, class `HopMetadata`: the metadata that one switch put on a packet.
-- The bit of `ins_map` for a field says whether the switch wrote it. A field that was not written
-- is an attribute that the object does not have: `none`.
pub mod Sent
pub mod Encode
use smoothie.Base.{
  ℕ, ◌/◌, ◌%◌, ◌^◌, Option, none, some, arith, if◌then◌else◌, ◌==◌, nat_eq, string_eq, pair_eq,
  take, drop,
}
use smoothie.Base.Bytes.{Bytes, bit, from_bytes}

pub record HopMetadata : Type 0 where
  pub switch_id : Option ℕ
  pub l1_ingress_port_id : Option ℕ
  pub l1_egress_port_id : Option ℕ
  pub hop_latency : Option ℕ
  pub queue_occupancy_id : Option ℕ
  pub queue_occupancy : Option ℕ
  pub trend : Option ℕ
  pub ingress_timestamp : Option ℕ
  pub egress_timestamp : Option ℕ
  pub queue_congestion_id : Option ℕ
  pub queue_congestion : Option ℕ
  pub l2_ingress_port_id : Option ℕ
  pub l2_egress_port_id : Option ℕ
  pub egress_port_tx_util : Option ℕ

abbrev pub blank : HopMetadata
blank = record {
  switch_id = none;
  l1_ingress_port_id = none;
  l1_egress_port_id = none;
  hop_latency = none;
  queue_occupancy_id = none;
  queue_occupancy = none;
  trend = none;
  ingress_timestamp = none;
  egress_timestamp = none;
  queue_congestion_id = none;
  queue_congestion = none;
  l2_ingress_port_id = none;
  l2_egress_port_id = none;
  egress_port_tx_util = none;
}

-- An object under construction, and what `self.data` has not yet given out.
abbrev pub Parse : Type 0
Parse = HopMetadata × Bytes → HopMetadata × Bytes

-- int.from_bytes(self.data.read(n), byteorder='big'): a read past the end gives fewer bytes.
unfoldable pub read_int : ℕ → Bytes → ℕ
read_int n bs = from_bytes (take n bs)

unfoldable pub parse_switch_id : ℕ → Parse
parse_switch_id ins_map (h, bs) =
    if bit 7 ins_map then (record h { switch_id = some (read_int 4 bs) }, drop 4 bs) else (h, bs)

unfoldable pub parse_ports : ℕ → Parse
parse_ports ins_map (h, bs) =
    if bit 6 ins_map
    then (
      record h {
        l1_ingress_port_id = some (read_int 2 bs);
        l1_egress_port_id = some (read_int 2 (drop 2 bs));
      },
      drop 2 (drop 2 bs),
    )
    else (h, bs)

unfoldable pub parse_hop_latency : ℕ → Parse
parse_hop_latency ins_map (h, bs) =
    if bit 5 ins_map then (record h { hop_latency = some (read_int 4 bs) }, drop 4 bs) else (h, bs)

-- `__parse_trend`: the top bit of the 24 is the trend, the others are the occupancy.
unfoldable pub parse_trend : HopMetadata → ℕ → HopMetadata
parse_trend h q = record h { trend = some (q / 2 ^ 23 % 2); queue_occupancy = some (q % 2 ^ 23) }

unfoldable pub parse_queue_occupancy : ℕ → Parse
unfolding parse_trend
parse_queue_occupancy ins_map (h, bs) =
    if bit 4 ins_map
    then (
      parse_trend (record h { queue_occupancy_id = some (read_int 1 bs) }) (read_int 3 (drop 1 bs)),
      drop 3 (drop 1 bs),
    )
    else (h, bs)

unfoldable pub parse_ingress_timestamp : ℕ → Parse
parse_ingress_timestamp ins_map (h, bs) =
    if bit 3 ins_map
    then (record h { ingress_timestamp = some (read_int 8 bs) }, drop 8 bs)
    else (h, bs)

unfoldable pub parse_egress_timestamp : ℕ → Parse
parse_egress_timestamp ins_map (h, bs) =
    if bit 2 ins_map
    then (record h { egress_timestamp = some (read_int 8 bs) }, drop 8 bs)
    else (h, bs)

unfoldable pub parse_queue_congestion : ℕ → Parse
parse_queue_congestion ins_map (h, bs) =
    if bit 1 ins_map
    then (
      record h {
        queue_congestion_id = some (read_int 1 bs);
        queue_congestion = some (read_int 3 (drop 1 bs));
      },
      drop 3 (drop 1 bs),
    )
    else (h, bs)

unfoldable pub parse_l2_ports : ℕ → Parse
parse_l2_ports ins_map (h, bs) =
    if bit 1 ins_map
    then (
      record h {
        l2_ingress_port_id = some (read_int 2 bs);
        l2_egress_port_id = some (read_int 2 (drop 2 bs));
      },
      drop 2 (drop 2 bs),
    )
    else (h, bs)

unfoldable pub parse_egress_port_tx_util : ℕ → Parse
parse_egress_port_tx_util ins_map (h, bs) =
    if bit 0 ins_map
    then (record h { egress_port_tx_util = some (read_int 4 bs) }, drop 4 bs)
    else (h, bs)

-- `__init__`, on the metadata that is left; what comes back beside the object is `unread_data()`.
unfoldable pub parse_hop : ℕ → ℕ → Bytes → HopMetadata × Bytes
parse_hop ins_map int_version bs =
    let s = parse_switch_id ins_map (blank, bs) in
    let s = parse_ports ins_map s in
    let s = parse_hop_latency ins_map s in
    let s = parse_queue_occupancy ins_map s in
    let s = parse_ingress_timestamp ins_map s in
    let s = parse_egress_timestamp ins_map s in
    let s =
      if int_version == 0 then parse_queue_congestion ins_map s else parse_l2_ports ins_map s in
    parse_egress_port_tx_util ins_map s
