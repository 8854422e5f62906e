-- ===== src/Base/Bytes.antt =====
-- Byte strings as lists of numbers: slices, indexing and big-endian integers, as Python has them.
use Prim.Native.Nat.{ℕ, zero, suc, ◌+◌, ◌-◌, ◌*◌, ◌/◌, ◌%◌, ◌^◌, ◌<◌}
use native.Mathlib.Nat.{pow-suc}
use mathlib.Core.Path.{◌≡◌, refl, ap}
use mathlib.Core.List.{List, [], ◌∷◌, ◌++◌}
use mathlib.Core.Bool.{Bool}
use native.Mathlib.Omega.{arith}
use smoothie.Base.Tests.{◌==◌, nat_eq}
use smoothie.Base.Lists.{length, get_elem?, take, drop, length-append}
use smoothie.Base.Error.{Result, or_raise, index_error}

abbrev pub Bytes : Type 0
Bytes = List ℕ

-- data[a:b]
abbrev pub slice : Bytes → ℕ → ℕ → Bytes
slice xs a b = take (b - a) (drop a xs)

-- data[i]
abbrev pub index : Bytes → ℕ → Result ℕ
index xs i = or_raise index_error (get_elem? xs i)

-- m & (1 << i)
abbrev pub bit : ℕ → ℕ → Bool
bit i m = m / 2 ^ i % 2 == 1

unfoldable pub big_endian : ℕ → Bytes → ℕ
big_endian acc [] = acc
big_endian acc (b ∷ bs) = big_endian (acc * 256 + b) bs

-- int.from_bytes(bs, byteorder='big')
abbrev pub from_bytes : Bytes → ℕ
from_bytes = big_endian 0

-- the `n` bytes that stand for `v`, as a switch writes them
unfoldable pub to_bytes : ℕ → ℕ → Bytes
to_bytes zero v = []
to_bytes (suc n) v = to_bytes n (v / 256) ++ (v % 256 ∷ [])

pub length-to_bytes : (n v : ℕ) → length (to_bytes n v) ≡ n
unfolding to_bytes
length-to_bytes zero v = refl
length-to_bytes (suc n) v =
    omega
      (arith, length-append {0} (to_bytes n (v / 256)) (v % 256 ∷ []), length-to_bytes n (v / 256))

big_endian-append :
    (acc b : ℕ) (bs : Bytes) → big_endian acc (bs ++ b ∷ []) ≡ big_endian acc bs * 256 + b
unfolding big_endian
big_endian-append acc b [] = refl
big_endian-append acc b (c ∷ bs) = big_endian-append (acc * 256 + c) b bs

pub from_bytes-to_bytes : (n v : ℕ) → v < 256 ^ n → from_bytes (to_bytes n v) ≡ v
unfolding to_bytes
from_bytes-to_bytes zero v h = unfold big_endian in omega arith
from_bytes-to_bytes (suc n) v h =
    let smaller : v / 256 < 256 ^ n = omega (arith, pow-suc 256 n) in
    rw big_endian-append (omega (arith, from_bytes-to_bytes n (v / 256) smaller))

module _ {ℓ} {A : Type ℓ} where
  pub take_append : (xs ys : List A) (n : ℕ) → length xs ≡ n → take n (xs ++ ys) ≡ xs
  take_append [] ys zero h = refl
  take_append [] ys (suc n) h = absurd (omega arith)
  take_append (x ∷ xs) ys zero h = absurd (omega arith)
  take_append (x ∷ xs) ys (suc n) h = ap (λ l. x ∷ l) (take_append xs ys n (omega arith))

  pub drop_append : (xs ys : List A) (n : ℕ) → length xs ≡ n → drop n (xs ++ ys) ≡ ys
  drop_append [] ys zero h = refl
  drop_append [] ys (suc n) h = absurd (omega arith)
  drop_append (x ∷ xs) ys zero h = absurd (omega arith)
  drop_append (x ∷ xs) ys (suc n) h = drop_append xs ys n (omega arith)

  -- what stands behind a prefix of length `n`
  pub drop_prefix : (xs ys : List A) (n a : ℕ) → length xs ≡ n → drop (n + a) (xs ++ ys) ≡ drop a ys
  drop_prefix [] ys zero a h = ap (λ k. drop k ys) (omega arith)
  drop_prefix [] ys (suc n) a h = absurd (omega arith)
  drop_prefix (x ∷ xs) ys zero a h = absurd (omega arith)
  drop_prefix (x ∷ xs) ys (suc n) a h =
      let e : suc n + a ≡ suc (n + a) = omega arith in rw e (drop_prefix xs ys n a (omega arith))

pub slice_prefix :
    (xs ys : Bytes) (n a b : ℕ) → length xs ≡ n → slice (xs ++ ys) (n + a) (n + b) ≡ slice ys a b
slice_prefix xs ys n a b h =
    let e : (n + b) - (n + a) ≡ b - a = omega arith in rw (e, drop_prefix xs ys n a h)

pub slice_here : (xs ys : Bytes) (n b : ℕ) → length xs ≡ n → slice (xs ++ ys) n (n + b) ≡ take b ys
slice_here xs ys n b h = let e : (n + b) - n ≡ b = omega arith in rw (e, drop_append xs ys n h)
