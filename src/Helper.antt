-- ===== src/Helper.antt =====
-- src/helper.py: addresses made of MAC addresses. A text of an address is kept as the number that
-- it stands for; a MAC address is the text that the network description has.
pub mod Eui64
use Prim.Native.Nat.{bit_xor}
use smoothie.Base.Int.{ℤ, sub_ℕ}
use Prim.Native.Char.{code}
use smoothie.Base.{
  ℕ, ◌+◌, ◌-◌, ◌*◌, ◌/◌, ◌%◌, ◌^◌, String, Bool, true, false, not, ◌&&◌, ◌||◌, Option, none, some,
  List, [], ◌∷◌, arith, leb, if◌then◌else◌, ◌==◌, nat_eq, string_eq, pair_eq,
}
use smoothie.Base.Error.{value_error, Result, ok, err, or_raise, ◌>>=◌, ◌>>◌}

abbrev pub codes : String → List ℕ
codes String.[] = []
codes (String.◌∷◌ c s) = code c ∷ codes s

-- the characters that `mac.translate` takes out
is_delimiter : ℕ → Bool
is_delimiter c = c == b' ' || c == b'.' || c == b':' || c == b'-'

hex_digit : ℕ → Option ℕ
hex_digit c =
    if leb b'0' c && leb c b'9'
    then some (c - b'0')
    else if leb b'a' c && leb c b'f'
    then some (c - b'a' + 10)
    else if leb b'A' c && leb c b'F'
    then some (c - b'A' + 10)
    else none

-- int(mac.translate(…), 16): the digits so far stand for `acc`
hex_value : ℕ → List ℕ → Result ℕ
unfolding hex_digit is_delimiter
hex_value acc [] = ok acc
hex_value acc (c ∷ cs) = do
  let d = or_raise value_error (hex_digit c)
  elim (is_delimiter c) [
    | true ↦ hex_value acc cs
    | false ↦ (do v ← d; hex_value (acc * 16 + v) cs)
  ]

has_digit : List ℕ → Bool
unfolding is_delimiter
has_digit [] = false
has_digit (c ∷ cs) = not (is_delimiter c) || has_digit cs

-- A text with no digit at all is refused.
unfoldable pub mac_value : String → Result ℕ
unfolding hex_value has_digit
mac_value mac = if has_digit (codes mac) then hex_value 0 (codes mac) else err value_error

-- the four bytes of the dotted text, as one number
unfoldable pub v4_of : ℕ → ℕ
v4_of mac =
    let high1 = mac / 2 ^ 24 % 256 in
    let high2 = mac / 2 ^ 16 % 256 in
    let low1 = mac / 2 ^ 8 % 256 in
    let low2 = mac % 256 in ((high1 * 256 + high2) * 256 + low1) * 256 + low2

-- `mac >> 32 & 0xffff ^ 0x0200` takes the shift first, then the mask, then the flip.
unfoldable pub linklocal_of : ℕ → ℕ
linklocal_of mac =
    let high2 = bit_xor (mac / 2 ^ 32 % 2 ^ 16) 0x0200 in
    let high1 = mac / 2 ^ 24 % 256 in
    let low1 = mac / 2 ^ 16 % 256 in
    let low2 = mac % 2 ^ 16 in
    0xfe80 * 2 ^ 112
    + high2 * 2 ^ 48
    + (high1 * 256 + 0xff) * 2 ^ 32
    + (0xfe * 256 + low1) * 2 ^ 16
    + low2

unfoldable pub mac_to_v4 : String → Result ℕ
unfolding v4_of mac_value
mac_to_v4 mac = do v ← mac_value mac; ok (v4_of v)

unfoldable pub mac_to_ipv6_linklocal : String → Result ℕ
unfolding linklocal_of mac_value
mac_to_ipv6_linklocal mac = do v ← mac_value mac; ok (linklocal_of v)

-- '2002::' + ipv4address
unfoldable pub converttov6 : ℕ → ℕ
converttov6 ipv4address = 0x2002 * 2 ^ 112 + ipv4address

-- The third byte may be 0, and the product is then negative.
unfoldable pub ipv6_to_id : ℕ → ℕ → ℤ
ipv6_to_id ip hps = sub_ℕ (ip % 256 + ip / 2 ^ 8 % 256 * hps) hps

unfoldable pub ipv6_to_v4 : ℕ → ℕ
ipv6_to_v4 ip = ip % 2 ^ 32
