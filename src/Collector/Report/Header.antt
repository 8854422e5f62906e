-- ===== src/Collector/Report/Header.antt =====
-- The fixed header of a report, as the comment above its parser lays it out.
use smoothie.Base.{
  ℕ, ◌+◌, ◌*◌, ◌/◌, ◌%◌, ◌^◌, ◌<◌, ◌≡◌, ◌≢◌, ◌∷◌, ◌++◌, arith, nat_eq, string_eq, pair_eq,
}
use smoothie.Base.Error.{attribute_error, ok, err}
use smoothie.Base.Bytes.{Bytes, big_endian, to_bytes}
use smoothie.Collector.Report.{FixedHeader, parse_header}

-- `r` stands for the reserved bits.
pub encode_header : FixedHeader → ℕ → Bytes → Bytes
encode_header h r rest =
    (h.ver * 16 + h.len)
    ∷ (h.nprot * 32 + h.rep_md_bits / 2)
    ∷ (h.rep_md_bits % 2 * 128 + r * 2 + h.d)
    ∷ (h.q * 128 + h.f * 64 + h.hw_id)
    ∷ (to_bytes 4 h.switch_id ++ (to_bytes 4 h.seq_num ++ (to_bytes 4 h.ingress_tstamp ++ rest)))

pub record Fits (h : FixedHeader) : Type 0 where
  pub ver : h.ver ≡ 1
  pub len : h.len < 16
  pub nprot : h.nprot < 8
  pub rep_md_bits : h.rep_md_bits < 64
  pub d : h.d < 2
  pub q : h.q < 2
  pub f : h.f < 2
  pub hw_id : h.hw_id < 64
  pub switch_id : h.switch_id < 256 ^ 4
  pub seq_num : h.seq_num < 256 ^ 4
  pub ingress_tstamp : h.ingress_tstamp < 256 ^ 4

-- A header that fits its fields is read back, but for `rep_md_bits`: the five upper bits of that
-- field are added to its lowest bit with no shift.
pub parse_header-encode_header :
    (h : FixedHeader) (r : ℕ) (rest : Bytes)
    → r < 64
    → Fits h
    → parse_header (encode_header h r rest)
      ≡ ok (record h { rep_md_bits = h.rep_md_bits / 2 + h.rep_md_bits % 2 })
unfolding parse_header encode_header to_bytes big_endian
parse_header-encode_header h r rest hr f = ground arith

-- A version other than 1 raises an `AttributeError`, and not the exception of the `raise` line.
pub parse_header_version :
    (b : ℕ) (rest : Bytes) → b / 16 ≢ 1 → parse_header (b ∷ rest) ≡ err attribute_error
unfolding parse_header
parse_header_version b rest h = ground arith
