-- ===== src/Collector/Report/Flow.antt =====
-- src/int_collector_influx.py, `IntReport`: the flow of the packet that a report is about.
-- The text of an address is kept as the address.
use smoothie.Base.{ℕ, ◌+◌, ◌*◌, if◌then◌else◌, ◌==◌, nat_eq, string_eq, pair_eq, length}
use smoothie.Base.Error.{value_error, struct_error, Result, ok, guard, ◌>>=◌, ◌>>◌}
use smoothie.Base.Bytes.{Bytes, slice, index, from_bytes}

pub data Address : Type 0 where
  ipv4 : ℕ → ℕ → ℕ → ℕ → Address
  ipv6 : ℕ → Address

pub record FlowId : Type 0 where
  pub srcip : Address
  pub dstip : Address
  pub scrp : ℕ
  pub dstp : ℕ
  pub protocol : ℕ

abbrev pub ethertype_ipv6 : ℕ
ethertype_ipv6 = 0x86dd

-- IPv6 next header of a routing header
abbrev pub routing_header : ℕ
routing_header = 43

-- str(IPv6Address(bs))
ipv6_text : Bytes → Result Address
ipv6_text bs = do guard (length bs == 16) value_error; ok (ipv6 (from_bytes bs))

-- `ip2str`
unfoldable pub ip2str : Bytes → Result Address
ip2str ip = do a ← index ip 0; b ← index ip 1; c ← index ip 2; d ← index ip 3; ok (ipv4 a b c d)

-- struct.unpack('!H', bs)[0]
half_word : Bytes → Result ℕ
half_word bs = do guard (length bs == 2) struct_error; ok (from_bytes bs)

-- `self.ip_hdr`, cut before the segments are counted in
abbrev ip_header : Bytes → ℕ → Bytes
ip_header report ethertype = slice report 30 (50 + (if ethertype == ethertype_ipv6 then 20 else 0))

-- `shift`: by how much what follows the IP header is further behind than in IPv4
unfoldable pub srv6_shift : Bytes → ℕ → Result ℕ
srv6_shift report ethertype =
    if ethertype == ethertype_ipv6
    then (do
      next ← index (ip_header report ethertype) 6
      if next == routing_header
          then (do last ← index report 74; ok (20 + 8 + (last + 1) * 16))
          else ok 20)
    else ok 0

-- the next header and the destination behind a routing header, or of the IPv6 header itself
destination : Bytes → Bytes → Result (ℕ × Bytes)
destination report ip_hdr = do
  next ← index ip_hdr 6
  if next == routing_header
      then (do protocol ← index report 70; ok (protocol, slice report 78 94))
      else ok (next, slice ip_hdr 24 40)

-- `self.flow_id`
unfoldable pub parse_flow : Bytes → ℕ → ℕ → Result FlowId
unfolding ipv6_text half_word destination ip2str
parse_flow report ethertype shift =
    let ip_hdr = ip_header report ethertype in
    let udp_hdr = slice report (50 + shift) (58 + shift) in
    if ethertype == ethertype_ipv6
    then (do
      (protocol, dst_ip) ← destination report ip_hdr
      srcip ← ipv6_text (slice ip_hdr 8 24)
      dstip ← ipv6_text dst_ip
      scrp ← half_word (slice udp_hdr 0 2)
      dstp ← half_word (slice udp_hdr 2 4)
      ok (record { srcip = srcip; dstip = dstip; scrp = scrp; dstp = dstp; protocol = protocol }))
    else (do
      protocol ← index ip_hdr 9
      srcip ← ip2str (slice ip_hdr 12 16)
      dstip ← ip2str (slice ip_hdr 16 20)
      scrp ← half_word (slice udp_hdr 0 2)
      dstp ← half_word (slice udp_hdr 2 4)
      ok (record { srcip = srcip; dstip = dstip; scrp = scrp; dstp = dstp; protocol = protocol }))
