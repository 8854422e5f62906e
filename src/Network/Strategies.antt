-- ===== src/Network/Strategies.antt =====
-- src/Network_API_l.py: what the assignment strategies share.
pub mod L2
pub mod Mixed
pub mod L3
pub mod InOrder
pub mod Fresh
use smoothie.Base.{
  ℕ, ◌+◌, ◌-◌, ◌/◌, ◌%◌, ◌^◌, String, Bool, true, false, ◌||◌, Option, none, some, List, [], ◌∷◌,
  ◌++◌, map, arith, ltb, if◌then◌else◌, ◌==◌, nat_eq, string_eq, pair_eq, is_some, contains,
}
use smoothie.Base.Dict.{Dict, get}
use smoothie.Base.Error.{
  error, assertion_error, key_error, type_error, value_error, stop_iteration, Result, ok, err,
  or_raise, guard, ◌>>=◌, ◌>>◌,
}
use Prim.Native.String.{◌++◌ as append}
use smoothie.Base.Int.{ℤ, pos, negsuc}
use smoothie.Network.Value.{Value, number, flag, real, value_eq}
use smoothie.Network.Mininet.{Graph, Mininet}
use smoothie.Network.Ids.{is_host, is_switch}
use smoothie.Network.Flags.{check_host_valid_ip_from_name}

-- what the strategies take from Python and from p4utils
pub record Plan : Type 0 where
  -- `int` of a text, and `%d` of a number
  pub int_of : String → Option ℤ
  pub str : ℤ → String
  -- `IPv4Network(net).hosts()`, as texts
  pub hosts_of : String → List String
  -- `ip_address_to_mac(ip) % (n)`
  pub mac_of : String → ℕ → String
  -- `%d` of a float cuts it
  pub trunc : ℕ → Result ℤ
  -- `next_element(numbers, minimum=1, maximum=254)`
  pub next_number : List ℤ → Result ℤ

abbrev pub sw_cpu : String
sw_cpu = "sw-cpu"

-- n & 0xffff
unfoldable pub low16 : ℤ → ℕ
low16 (pos n) = n % 2 ^ 16
low16 (negsuc n) = 2 ^ 16 - 1 - n % 2 ^ 16

-- (n & 0xff00) >> 8 and n & 0x00ff
unfoldable pub upper_byte : ℤ → ℕ
upper_byte n = low16 n / 2 ^ 8

unfoldable pub lower_byte : ℤ → ℕ
lower_byte n = low16 n % 2 ^ 8

-- n < 254
unfoldable pub below_254 : ℤ → Bool
below_254 (pos n) = ltb n 254
below_254 (negsuc n) = true

unfoldable pub dotted : String → String → String → String → String
dotted a b c d = append a (append "." (append b (append "." (append c (append "." d)))))

-- the number that a mask is laid over
unfoldable pub masked : Value → Result ℤ
masked (number n) = ok (pos n)
masked (flag true) = ok (pos 1)
masked (flag false) = ok (pos 0)
masked v = err type_error

-- the number that is compared and printed
unfoldable pub whole : (ℕ → Result ℤ) → Value → Result ℤ
whole trunc (real x) = trunc x
whole trunc v = masked v

module _ (mn : Mininet) (plan : Plan) where
  unfoldable pub is_valid : String → Result Bool
  is_valid = check_host_valid_ip_from_name (λ s. is_some (plan.int_of s))

  -- int(name[1:])
  unfoldable pub host_number : String → Result ℤ
  host_number String.[] = err value_error
  host_number (String.◌∷◌ c s) = or_raise value_error (plan.int_of s)

  -- The host of a link and the switch that it is at; none for a link of switches, or of the CPU's.
  unfoldable pub attached : String → String → Graph → Result (Option (String × String))
  attached node1 node2 g = if node1 == sw_cpu || node2 == sw_cpu then ok none else (do
    host1 ← is_host g node1
    if host1
        then (do s ← is_switch mn g node2; guard s assertion_error; ok (some (node1, node2)))
        else (do
          host2 ← is_host g node2
          if host2
              then (do s ← is_switch mn g node1; guard s assertion_error; ok (some (node2, node1)))
              else ok none))

  -- next(ip_generator), until one is not in use; with what the generator has left
  unfoldable pub next_free : List String → List String → Result (String × List String)
  next_free [] used = err stop_iteration
  next_free (ip ∷ ips) used =
      let rest = next_free ips used in if contains ip used then rest else ok (ip, ips)

  -- the address of a host: the reserved one where its name has a number, or else the next free one
  unfoldable pub host_address :
      Dict String String → List String → List String → String → Result (String × List String)
  host_address reserved assigned ips host = do
    valid ← is_valid host
    if valid
        then (do
          ip ← or_raise key_error (get reserved host)
          if contains ip assigned then err error else ok (ip, ips))
        else next_free ips (assigned ++ map (λ p. p.1) reserved)
