-- ===== src/Collector/Hop/Sent.antt =====
-- The bytes that a switch writes for one hop, and the object that stands for them.
use smoothie.Base.{
  ℕ, ◌+◌, ◌*◌, ◌/◌, ◌%◌, ◌||◌, ◌^◌, ◌<◌, Bool, not, ◌&&◌, Option, none, some, [], ◌++◌,
  if◌then◌else◌, ◌==◌, nat_eq, string_eq, pair_eq,
}
use smoothie.Base.Bytes.{Bytes, bit, to_bytes}
use smoothie.Collector.Hop.{HopMetadata}

-- What a switch measured. `first` and `second` are the two fields that share a bit of `ins_map`:
-- the congestion of a queue in version 0, the layer 2 ports in version 1.
pub record Measured : Type 0 where
  pub switch_id : ℕ
  pub ingress_port : ℕ
  pub egress_port : ℕ
  pub latency : ℕ
  pub queue_id : ℕ
  pub occupancy : ℕ
  pub trend : ℕ
  pub ingress_time : ℕ
  pub egress_time : ℕ
  pub first : ℕ
  pub second : ℕ
  pub tx_util : ℕ

-- Each value fits its field.
pub record Fits (int_version : ℕ) (m : Measured) : Type 0 where
  pub switch_id : m.switch_id < 256 ^ 4
  pub ingress_port : m.ingress_port < 256 ^ 2
  pub egress_port : m.egress_port < 256 ^ 2
  pub latency : m.latency < 256 ^ 4
  pub queue_id : m.queue_id < 256 ^ 1
  pub occupancy : m.occupancy < 2 ^ 23
  pub trend : m.trend < 2
  pub ingress_time : m.ingress_time < 256 ^ 8
  pub egress_time : m.egress_time < 256 ^ 8
  pub first : m.first < (if int_version == 0 then 256 ^ 1 else 256 ^ 2)
  pub second : m.second < (if int_version == 0 then 256 ^ 3 else 256 ^ 2)
  pub tx_util : m.tx_util < 256 ^ 4

abbrev pub field : Bool → Bytes → Bytes
field b bs = if b then bs else []

unfoldable pub shared_field : ℕ → Measured → Bytes
shared_field int_version m =
    if int_version == 0
    then to_bytes 1 m.first ++ to_bytes 3 m.second
    else to_bytes 2 m.first ++ to_bytes 2 m.second

-- The bits for which `int_transit.p4` has an action that leaves out the queue, and has the time of
-- the egress in its place.
unfoldable pub swaps_queue : ℕ → Bool
swaps_queue ins_map = ins_map / 16 % 16 == 3

-- What a switch writes in front of `rest`, which the switches before it wrote. The program of the
-- switches is of version 1; in version 0 the field of bit 1 is the one that the collector reads.
unfoldable pub encode_hop : ℕ → ℕ → Measured → Bytes → Bytes
encode_hop ins_map int_version m rest =
    field (bit 7 ins_map) (to_bytes 4 m.switch_id)
    ++ (field (bit 6 ins_map) (to_bytes 2 m.ingress_port ++ to_bytes 2 m.egress_port)
        ++ (field (bit 5 ins_map) (to_bytes 4 m.latency)
            ++ (field (bit 4 ins_map && not (swaps_queue ins_map))
                  (to_bytes 1 m.queue_id ++ to_bytes 3 (m.trend * 2 ^ 23 + m.occupancy))
                ++ (field (bit 3 ins_map) (to_bytes 8 m.ingress_time)
                    ++ (field (bit 2 ins_map || swaps_queue ins_map) (to_bytes 8 m.egress_time)
                        ++ (field (bit 1 ins_map) (shared_field int_version m)
                            ++ (field (bit 0 ins_map) (to_bytes 4 m.tx_util) ++ rest)))))))

abbrev pub when : Bool → ℕ → Option ℕ
when b v = if b then some v else none

-- The object that stands for what was measured, without the fields that were not asked for.
unfoldable pub measured_hop : ℕ → ℕ → Measured → HopMetadata
measured_hop ins_map int_version m =
    let old = int_version == 0 in
    record {
      switch_id = when (bit 7 ins_map) m.switch_id;
      l1_ingress_port_id = when (bit 6 ins_map) m.ingress_port;
      l1_egress_port_id = when (bit 6 ins_map) m.egress_port;
      hop_latency = when (bit 5 ins_map) m.latency;
      queue_occupancy_id = when (bit 4 ins_map) m.queue_id;
      queue_occupancy = when (bit 4 ins_map) m.occupancy;
      trend = when (bit 4 ins_map) m.trend;
      ingress_timestamp = when (bit 3 ins_map) m.ingress_time;
      egress_timestamp = when (bit 2 ins_map) m.egress_time;
      queue_congestion_id = when (old && bit 1 ins_map) m.first;
      queue_congestion = when (old && bit 1 ins_map) m.second;
      l2_ingress_port_id = when (not old && bit 1 ins_map) m.first;
      l2_egress_port_id = when (not old && bit 1 ins_map) m.second;
      egress_port_tx_util = when (bit 0 ins_map) m.tx_util;
    }
