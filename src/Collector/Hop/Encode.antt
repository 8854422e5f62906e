-- ===== src/Collector/Hop/Encode.antt =====
-- `HopMetadata` reads back what a switch wrote.
use smoothie.Base.{
  ℕ, ◌+◌, ◌*◌, ◌^◌, ◌<◌, ◌≡◌, ap, ◌∙◌, inl, inr, not, false, ◌||◌, ◌&&◌, some, ◌++◌, arith,
  if◌then◌else◌, ◌==◌, nat_eq, string_eq, pair_eq, Bool-cases, drop,
}
use mathlib.Core.List.{append_assoc}
use smoothie.Base.Bytes.{
  Bytes, bit, from_bytes, to_bytes, length-to_bytes, from_bytes-to_bytes, take_append, drop_append,
}
use smoothie.Collector.Hop.{
  HopMetadata, read_int, parse_hop, parse_switch_id, parse_ports, parse_hop_latency,
  parse_queue_occupancy, parse_ingress_timestamp, parse_egress_timestamp, parse_queue_congestion,
  parse_l2_ports, parse_egress_port_tx_util,
}
use smoothie.Collector.Hop.Sent.{
  swaps_queue, Measured, Fits, field, shared_field, encode_hop, measured_hop,
}

module _ (n v : ℕ) (rest : Bytes) where
  read_int-to_bytes : v < 256 ^ n → read_int n (to_bytes n v ++ rest) ≡ v
  unfolding read_int
  read_int-to_bytes h =
      ap from_bytes (take_append (to_bytes n v) rest n (length-to_bytes n v))
      ∙ from_bytes-to_bytes n v h

  drop-to_bytes : drop n (to_bytes n v ++ rest) ≡ rest
  drop-to_bytes = drop_append (to_bytes n v) rest n (length-to_bytes n v)

-- two fields, one behind the other
module _ (n v k w : ℕ) (rest : Bytes) where
  read_pair :
      v < 256 ^ n
      → w < 256 ^ k
      → (read_int n ((to_bytes n v ++ to_bytes k w) ++ rest) ≡ v)
        × (read_int k (drop n ((to_bytes n v ++ to_bytes k w) ++ rest)) ≡ w)
        × (drop k (drop n ((to_bytes n v ++ to_bytes k w) ++ rest)) ≡ rest)
  read_pair hv hw = simp append_assoc (
    read_int-to_bytes n v (to_bytes k w ++ rest) hv,
    ap (read_int k) (drop-to_bytes n v (to_bytes k w ++ rest)) ∙ read_int-to_bytes k w rest hw,
    ap (drop k) (drop-to_bytes n v (to_bytes k w ++ rest)) ∙ drop-to_bytes k w rest,
  )

-- Each reader takes its own field, and leaves what follows.
module _ (m : ℕ) (h : HopMetadata) (rest : Bytes) where
  step_switch_id :
      (v : ℕ)
      → v < 256 ^ 4
      → parse_switch_id m (h, field (bit 7 m) (to_bytes 4 v) ++ rest)
        ≡ (record h { switch_id = if bit 7 m then some v else h.switch_id }, rest)
  unfolding parse_switch_id
  step_switch_id v f = ground (arith, read_int-to_bytes 4 v rest f, drop-to_bytes 4 v rest)

  step_ports :
      (v w : ℕ)
      → v < 256 ^ 2
      → w < 256 ^ 2
      → parse_ports m (h, field (bit 6 m) (to_bytes 2 v ++ to_bytes 2 w) ++ rest) ≡ (
        record h {
          l1_ingress_port_id = if bit 6 m then some v else h.l1_ingress_port_id;
          l1_egress_port_id = if bit 6 m then some w else h.l1_egress_port_id;
        },
        rest,
      )
  unfolding parse_ports
  step_ports v w f g = ground (arith, read_pair 2 v 2 w rest f g)

  step_hop_latency :
      (v : ℕ)
      → v < 256 ^ 4
      → parse_hop_latency m (h, field (bit 5 m) (to_bytes 4 v) ++ rest)
        ≡ (record h { hop_latency = if bit 5 m then some v else h.hop_latency }, rest)
  unfolding parse_hop_latency
  step_hop_latency v f = ground (arith, read_int-to_bytes 4 v rest f, drop-to_bytes 4 v rest)

  -- The trend is above the 23 bits of the occupancy.
  step_queue_occupancy :
      (i q t : ℕ)
      → i < 256 ^ 1
      → q < 2 ^ 23
      → t < 2
      → parse_queue_occupancy m
          (h, field (bit 4 m) (to_bytes 1 i ++ to_bytes 3 (t * 2 ^ 23 + q)) ++ rest)
        ≡ (
          record h {
            queue_occupancy_id = if bit 4 m then some i else h.queue_occupancy_id;
            queue_occupancy = if bit 4 m then some q else h.queue_occupancy;
            trend = if bit 4 m then some t else h.trend;
          },
          rest,
        )
  unfolding parse_queue_occupancy
  step_queue_occupancy i q t f g k =
      ground (arith, read_pair 1 i 3 (t * 2 ^ 23 + q) rest f (omega arith))

  step_ingress_timestamp :
      (v : ℕ)
      → v < 256 ^ 8
      → parse_ingress_timestamp m (h, field (bit 3 m) (to_bytes 8 v) ++ rest)
        ≡ (record h { ingress_timestamp = if bit 3 m then some v else h.ingress_timestamp }, rest)
  unfolding parse_ingress_timestamp
  step_ingress_timestamp v f = ground (arith, read_int-to_bytes 8 v rest f, drop-to_bytes 8 v rest)

  step_egress_timestamp :
      (v : ℕ)
      → v < 256 ^ 8
      → parse_egress_timestamp m (h, field (bit 2 m) (to_bytes 8 v) ++ rest)
        ≡ (record h { egress_timestamp = if bit 2 m then some v else h.egress_timestamp }, rest)
  unfolding parse_egress_timestamp
  step_egress_timestamp v f = ground (arith, read_int-to_bytes 8 v rest f, drop-to_bytes 8 v rest)

  step_queue_congestion :
      (v w : ℕ)
      → v < 256 ^ 1
      → w < 256 ^ 3
      → parse_queue_congestion m (h, field (bit 1 m) (to_bytes 1 v ++ to_bytes 3 w) ++ rest) ≡ (
        record h {
          queue_congestion_id = if bit 1 m then some v else h.queue_congestion_id;
          queue_congestion = if bit 1 m then some w else h.queue_congestion;
        },
        rest,
      )
  unfolding parse_queue_congestion
  step_queue_congestion v w f g = ground (arith, read_pair 1 v 3 w rest f g)

  step_l2_ports :
      (v w : ℕ)
      → v < 256 ^ 2
      → w < 256 ^ 2
      → parse_l2_ports m (h, field (bit 1 m) (to_bytes 2 v ++ to_bytes 2 w) ++ rest) ≡ (
        record h {
          l2_ingress_port_id = if bit 1 m then some v else h.l2_ingress_port_id;
          l2_egress_port_id = if bit 1 m then some w else h.l2_egress_port_id;
        },
        rest,
      )
  unfolding parse_l2_ports
  step_l2_ports v w f g = ground (arith, read_pair 2 v 2 w rest f g)

  step_egress_port_tx_util :
      (v : ℕ)
      → v < 256 ^ 4
      → parse_egress_port_tx_util m (h, field (bit 0 m) (to_bytes 4 v) ++ rest) ≡ (
        record h { egress_port_tx_util = if bit 0 m then some v else h.egress_port_tx_util },
        rest,
      )
  unfolding parse_egress_port_tx_util
  step_egress_port_tx_util v f =
      ground (arith, read_int-to_bytes 4 v rest f, drop-to_bytes 4 v rest)

-- The two fields of bit 1, by version.
module _ (b int_version : ℕ) (h : HopMetadata) (rest : Bytes) (m : Measured)
    (f : Fits int_version m) where
  step_shared :
      (if int_version == 0
        then parse_queue_congestion b (h, field (bit 1 b) (shared_field int_version m) ++ rest)
        else parse_l2_ports b (h, field (bit 1 b) (shared_field int_version m) ++ rest))
      ≡ (
        record h {
          queue_congestion_id =
              if int_version == 0 && bit 1 b then some m.first else h.queue_congestion_id;
          queue_congestion =
              if int_version == 0 && bit 1 b then some m.second else h.queue_congestion;
          l2_ingress_port_id =
              if not (int_version == 0) && bit 1 b then some m.first else h.l2_ingress_port_id;
          l2_egress_port_id =
              if not (int_version == 0) && bit 1 b then some m.second else h.l2_egress_port_id;
        },
        rest,
      )
  unfolding shared_field
  step_shared = elim (Bool-cases (int_version == 0)) [
    | inl old ↦ rw old (
        step_queue_congestion b h rest m.first m.second (ground (arith, f.first))
          (ground (arith, f.second)))
    | inr new ↦ rw new (
        step_l2_ports b h rest m.first m.second (ground (arith, f.first))
          (ground (arith, f.second)))
  ]

-- What a switch writes for the bits of `ins_map`, `HopMetadata` reads back, field by field, and it
-- leaves the bytes of the switches before it as they are. Every value has to fit its field, and the
-- upper four of the bits are not those of the latency and the queue alone, for which the program of
-- the switches writes the time of the egress in place of the queue.
pub parse_hop-encode_hop :
    (ins_map int_version : ℕ) (m : Measured) (rest : Bytes)
    → swaps_queue ins_map ≡ false
    → Fits int_version m
    → parse_hop ins_map int_version (encode_hop ins_map int_version m rest)
      ≡ (measured_hop ins_map int_version m, rest)
unfolding parse_hop encode_hop measured_hop
parse_hop-encode_hop b version m rest plain f =
    let queue : (bit 4 b && not (swaps_queue b)) ≡ bit 4 b = ground (arith, plain) in
    let egress : (bit 2 b || swaps_queue b) ≡ bit 2 b = ground (arith, plain) in
    rw (
      queue,
      egress,
      step_switch_id b _ _ m.switch_id f.switch_id,
      step_ports b _ _ m.ingress_port m.egress_port f.ingress_port f.egress_port,
      step_hop_latency b _ _ m.latency f.latency,
      step_queue_occupancy b _ _ m.queue_id m.occupancy m.trend f.queue_id f.occupancy f.trend,
      step_ingress_timestamp b _ _ m.ingress_time f.ingress_time,
      step_egress_timestamp b _ _ m.egress_time f.egress_time,
      step_shared b version _ _ m f,
      step_egress_port_tx_util b _ _ m.tx_util f.tx_util,
    )
