-- ===== src/Helper/Eui64.antt =====
-- Addresses that are made of others can be read back.
use Prim.Native.Nat.{bit_xor}
use smoothie.Base.{
  ℕ, zero, suc, ◌/◌, ◌%◌, ◌^◌, ◌<◌, ◌≡◌, refl, sym, ap, ◌∙◌, Bool, true, ◌&&◌, arith, ltb, ◌==◌,
  nat_eq, string_eq, pair_eq,
}
use smoothie.Helper.{linklocal_of, converttov6, ipv6_to_v4}

-- An IPv4 address of 32 bits that was mapped into 2002::/96 is the one that is read back.
pub ipv6_to_v4-converttov6 : (a : ℕ) → a < 2 ^ 32 → ipv6_to_v4 (converttov6 a) ≡ a
unfolding ipv6_to_v4 converttov6
ipv6_to_v4-converttov6 a h = omega arith

-- `test` passes at each of the first `n` numbers.
every_below : (ℕ → Bool) → ℕ → Bool
every_below test zero = true
every_below test (suc n) = let before = every_below test n in before && test n

every_below_at : (test : ℕ → Bool) (n k : ℕ) → k < n → every_below test n ≡ true → test k ≡ true
unfolding every_below
every_below_at test zero k small passed = absurd (omega arith)
every_below_at test (suc n) k small passed = ground (arith, every_below_at test n k)

-- the flip of bit 9, undone by another one, and inside of 16 bits
abbrev flips_back : ℕ → Bool
flips_back x = bit_xor (bit_xor x 0x200) 0x200 == x && ltb (bit_xor x 0x200) (2 ^ 16)

flip_table : every_below flips_back (2 ^ 16) ≡ true
unfolding every_below
flip_table = refl

flip : (x : ℕ) → x < 2 ^ 16 → (bit_xor (bit_xor x 0x200) 0x200 ≡ x) × (bit_xor x 0x200 < 2 ^ 16)
flip x h = ground (arith, every_below_at flips_back (2 ^ 16) x h flip_table)

-- Two MAC addresses of 48 bits have the same link-local address only if they are the same.
pub linklocal_of-injective :
    (a b : ℕ) → a < 2 ^ 48 → b < 2 ^ 48 → linklocal_of a ≡ linklocal_of b → a ≡ b
unfolding linklocal_of
linklocal_of-injective a b ha hb e =
    let fa = flip (a / 2 ^ 32 % 2 ^ 16) (omega arith) in
    let fb = flip (b / 2 ^ 32 % 2 ^ 16) (omega arith) in
    let high : bit_xor (a / 2 ^ 32 % 2 ^ 16) 0x200 ≡ bit_xor (b / 2 ^ 32 % 2 ^ 16) 0x200 =
      omega arith in
    let back : a / 2 ^ 32 % 2 ^ 16 ≡ b / 2 ^ 32 % 2 ^ 16 =
      sym fa.0 ∙ (ap (λ k. bit_xor k 0x200) high ∙ fb.0) in
    omega arith
