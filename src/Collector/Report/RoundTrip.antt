-- ===== src/Collector/Report/RoundTrip.antt =====
-- The INT part of a report as the sink writes it, and that `IntReport` reads it back.
use smoothie.Base.{
  false, ℕ, suc, ◌+◌, ◌*◌, ◌/◌, ◌%◌, ◌^◌, ◌<◌, ◌≡◌, refl, ◌∙◌, true, some, List, [], ◌∷◌, ◌++◌, map,
  arith, nat_eq, string_eq, pair_eq, length, All,
}
use smoothie.Base.Error.{ok}
use mathlib.Core.List.{append_assoc, append-nil}
use smoothie.Base.Bytes.{Bytes, bit, big_endian, from_bytes, drop_prefix, slice_prefix, slice_here}
use smoothie.Base.Int.{pos, sub_ℕ}
use smoothie.Collector.Hop.{HopMetadata, parse_hop}
use smoothie.Collector.Hop.Encode.{parse_hop-encode_hop}
use smoothie.Collector.Hop.Sent.{swaps_queue, Measured, Fits, encode_hop, measured_hop}
use smoothie.Collector.Report.Loop.{Hops, grown, take_hop, hop_loop, parse_hops}
use smoothie.Collector.Report.Flow.{FlowId}
use smoothie.Collector.Report.{IntReport, FixedHeader, parse_int, read_int_part, count_hops}

module _ (ins_map int_version : ℕ) where
  -- the last switch comes first
  pub encode_hops : List Measured → Bytes → Bytes
  encode_hops [] rest = rest
  encode_hops (m ∷ ms) rest = encode_hop ins_map int_version m (encode_hops ms rest)

  abbrev pub measured_hops : List Measured → List HopMetadata
  measured_hops ms = map (measured_hop ins_map int_version) ms

  take_hop-measured_hop :
      (m : Measured) (s : Hops)
      → bit 4 ins_map ≡ true
      → (take_hop (measured_hop ins_map int_version m) s
          ≡ some (grown (measured_hop ins_map int_version m) s m.occupancy))
  unfolding take_hop measured_hop
  take_hop-measured_hop m s b = rw b

  hop_loop_step :
      (n : ℕ) (bs rest : Bytes) (hop : HopMetadata) (s s' : Hops)
      → parse_hop ins_map int_version bs ≡ (hop, rest)
      → take_hop hop s ≡ some s'
      → hop_loop ins_map int_version (suc n) bs s ≡ hop_loop ins_map int_version n rest s'
  unfolding hop_loop
  hop_loop_step n bs rest hop s s' e t = rw (e, hop_loop) (rw (t, hop_loop) (rw e))

  hop_loop-encode_hops :
      (ms : List Measured) (rest : Bytes) (s : Hops)
      → bit 4 ins_map ≡ true
      → swaps_queue ins_map ≡ false
      → All (Fits int_version) ms
      → (hop_loop ins_map int_version (length ms) (encode_hops ms rest) s).hop_metadata
        ≡ s.hop_metadata ++ measured_hops ms
  unfolding hop_loop encode_hops
  hop_loop-encode_hops [] rest s b plain f = rw append-nil
  hop_loop-encode_hops (m ∷ ms) rest s b plain f =
      rw
        (hop_loop_step (length ms) _ _ _ s _
          (parse_hop-encode_hop ins_map int_version m (encode_hops ms rest) plain f.0)
          (take_hop-measured_hop m s b))
        (hop_loop-encode_hops ms rest (grown (measured_hop ins_map int_version m) s m.occupancy) b
            plain f.1
          ∙ (unfold grown in
              append_assoc s.hop_metadata (measured_hop ins_map int_version m ∷ [])
                (measured_hops ms)))

-- The shim and the header of INT version 1, before the hops; `words` is the length of a hop's
-- metadata in words, and the shim counts the words of all headers.
pub int_part : ℕ → ℕ → ℕ → ℕ → Bytes → Bytes
int_part ins_map words remaining hops body =
    1 ∷ 0 ∷ (3 + hops * words) ∷ 0 ∷ 16 ∷ 0 ∷ words ∷ remaining ∷ ins_map ∷ 0 ∷ 0 ∷ 0 ∷ body

count_hops_lem :
    (words hops b0 b1 b3 : ℕ) (bs : Bytes)
    → 0 < words
    → words < 32
    → count_hops (b0 ∷ b1 ∷ words ∷ b3 ∷ bs) 1 (pos (hops * words)) ≡ ok (pos hops)
unfolding count_hops
count_hops_lem words hops b0 b1 b3 bs p q =
    let small : words % 32 ≡ words = omega arith in
    let whole : hops * words / words ≡ hops = grind arith in rw (small, whole) (ground arith)

from_bytes_ins_map : (ins_map : ℕ) → from_bytes (ins_map ∷ 0 ∷ []) / 2 ^ 8 ≡ ins_map
unfolding big_endian
from_bytes_ins_map ins_map = omega arith

sub_three : (k : ℕ) → sub_ℕ (3 + k) 3 ≡ pos k
sub_three k = ground arith

module _ (before : Bytes) (h : FixedHeader) (ethertype : ℕ) (flow_id : FlowId)
    (update_path : ℕ) where
  module _ (ins_map words remaining : ℕ) (ms : List Measured) (rest : Bytes) where
    abbrev report : Bytes
    report = before ++ int_part ins_map words remaining (length ms) (encode_hops ins_map 1 ms rest)

    parse_int-slices :
        parse_int report h ethertype flow_id update_path (length before)
        ≡ read_int_part
            (1 ∷ 0 ∷ (3 + length ms * words) ∷ 0 ∷ [])
            (16 ∷ 0 ∷ words ∷ remaining ∷ ins_map ∷ 0 ∷ 0 ∷ 0 ∷ [])
            (encode_hops ins_map 1 ms rest)
            h
            ethertype
            flow_id
            update_path
    unfolding parse_int int_part
    parse_int-slices = rw (
      slice_here before
          (int_part ins_map words remaining (length ms) (encode_hops ins_map 1 ms rest))
          (length before) 4 refl,
      slice_prefix before
          (int_part ins_map words remaining (length ms) (encode_hops ins_map 1 ms rest))
          (length before) 4 12 refl,
      drop_prefix before
          (int_part ins_map words remaining (length ms) (encode_hops ins_map 1 ms rest))
          (length before) 12 refl,
    )

    -- From the shim on, a report of version 1 gives back what the switches measured, hop by hop, with
    -- the instructions and the number of hops. The instructions ask for the queue, the
    -- first four of them are not those of the latency and the queue alone, for which a switch leaves
    -- out the queue, and every value fits its field.
    pub parse_int-int_part :
        ins_map < 256
        → 0 < words
        → words < 32
        → bit 4 ins_map ≡ true
        → swaps_queue ins_map ≡ false
        → All (Fits 1) ms
        → (r : IntReport) × (parse_int report h ethertype flow_id update_path (length before)
            ≡ ok r)
          × (r.hops.hop_metadata ≡ measured_hops ins_map 1 ms)
          × (r.hop_count ≡ pos (length ms))
          × (r.ins_map ≡ ins_map)
          × (r.flow_id ≡ flow_id)
          × (r.update_path ≡ update_path)
    unfolding read_int_part
    parse_int-int_part i p q b plain f = rw parse_int-slices (
        rw
          (
            sub_three (length ms * words),
            count_hops_lem words (length ms) 16 0 remaining (ins_map ∷ 0 ∷ 0 ∷ 0 ∷ []) p q,
            from_bytes_ins_map ins_map,
          )
          (
            _,
            refl,
            (unfold parse_hops in hop_loop-encode_hops ins_map 1 ms rest _ b plain f),
            refl,
            refl,
            refl,
            refl,
          ))
