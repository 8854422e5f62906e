-- ===== src/Networking/Mac.antt =====
-- src/networking.py: the MAC addresses of the switches' links to the collector.
use Prim.Native.Char.{Char, code}
use Prim.Native.String.{◌++◌ as append}
use smoothie.Base.{
  ℕ, zero, suc, List, [], ◌∷◌, All, length, get_or, ◌+◌, ◌/◌, ◌%◌, ◌<◌, ◌≤◌, inl, inr, Bool-cases,
  String, ◌≡◌, refl, sym, ap, ◌∙◌, Bool, true, false, ◌&&◌, ◌||◌, arith, ltb, leb, ◌==◌, nat_eq,
  string_eq, pair_eq,
}
use text.Mathlib.TextLemmas.{nil-append, append-nil, cons-append}
use smoothie.Networking.{decimal_digit, decimal_from, decimal, with_id, dp_mac}

is_hex : ℕ → Bool
is_hex c = (leb b'0' c && leb c b'9') || (leb b'a' c && leb c b'f')

-- `n` more pairs of digits, with colons between them
pairs : ℕ → String → Bool
unfolding is_hex
pairs zero (String.◌∷◌ a (String.◌∷◌ b String.[])) = is_hex (code a) && is_hex (code b)
pairs (suc n) (String.◌∷◌ a (String.◌∷◌ b (String.◌∷◌ c s))) =
    is_hex (code a) && is_hex (code b) && code c == b':' && pairs n s
pairs n s = false

-- the text of a MAC address: six pairs
pub is_mac : String → Bool
unfolding pairs
is_mac = pairs 5

-- The `count` switches from `first` on have the text of a MAC address.
all_macs : ℕ → ℕ → Bool
all_macs first zero = true
all_macs first (suc count) = is_mac (dp_mac first) && all_macs (first + 1) count

all_macs-is_mac :
    (count first id : ℕ)
    → first ≤ id
    → id < first + count
    → all_macs first count ≡ true
    → is_mac (dp_mac id) ≡ true
unfolding all_macs
all_macs-is_mac zero first id low high h = absurd (omega arith)
all_macs-is_mac (suc count) first id low high h = elim (Bool-cases (ltb first id)) [
  | inl later ↦ all_macs-is_mac count (first + 1) id (ground arith) (omega arith) (ground arith)
  | inr now ↦
      let e : first ≡ id = ground arith in
      let here : is_mac (dp_mac first) ≡ true = ground arith in
      ap (λ k. is_mac (dp_mac k)) (sym e) ∙ here
]

ten_macs : all_macs 0 10 ≡ true
unfolding all_macs is_mac dp_mac
ten_macs = refl

-- a text of one character at least
abbrev Full : String → Type 0
Full s = (c : Char) × (t : String) × (s ≡ String.◌∷◌ c t)

-- a text of two characters at least
abbrev Longer : String → Type 0
Longer s = (c : Char) × (d : Char) × (t : String) × (s ≡ String.◌∷◌ c (String.◌∷◌ d t))

one : (c : Char) → Full (String.◌∷◌ c String.[])
one c = (c, String.[], refl)

get_or-Full : (xs : List String) (k : ℕ) → All Full xs → k < length xs → Full (get_or xs k "")
get_or-Full [] k full h = absurd (omega (arith, h))
get_or-Full (x ∷ xs) zero full h = full.0
get_or-Full (x ∷ xs) (suc k) full h = get_or-Full xs k full.1 (omega (arith, h))

decimal_digit-Full : (n : ℕ) → Full (decimal_digit n)
unfolding decimal_digit
decimal_digit-Full n =
    get_or-Full ("0" ∷ "1" ∷ "2" ∷ "3" ∷ "4" ∷ "5" ∷ "6" ∷ "7" ∷ "8" ∷ "9" ∷ []) (n % 10)
      (
        one "0",
        (
          one "1",
          (
            one "2",
            (one "3", (one "4", (one "5", (one "6", (one "7", (one "8", (one "9", tt))))))),
          ),
        ),
      )
      (omega arith)

append-Longer : (s t : String) → Full s → Full t → Longer (append s t)
append-Longer s t (c, String.[], p) (d, v, q) = (c, d, v, rw (p, q, cons-append, nil-append) refl)
append-Longer s t (c, String.◌∷◌ x u, p) f =
    (c, x, append u t, rw (p, cons-append, cons-append) refl)

Longer-Full : (s : String) → Longer s → Full s
Longer-Full s (c, d, t, e) = (c, String.◌∷◌ d t, e)

decimal_from-Full : (r n : ℕ) → Full (decimal_from r n)
unfolding decimal_from
decimal_from-Full zero n = decimal_digit-Full n
decimal_from-Full (suc r) n = elim (Bool-cases (ltb n 10)) [
  | inl small ↦ rw small (decimal_digit-Full n)
  | inr large ↦ rw large (
      Longer-Full _ (
        append-Longer (decimal_from r (n / 10)) (decimal_digit n) (decimal_from-Full r (n / 10))
          (decimal_digit-Full n)))
]

-- `append`, which computes when its first text does
joined : String → String → String
joined String.[] t = t
joined (String.◌∷◌ c s) t = String.◌∷◌ c (joined s t)

append-joined : (s t : String) → append s t ≡ joined s t
unfolding joined
append-joined String.[] t = nil-append t
append-joined (String.◌∷◌ c s) t = cons-append c s t ∙ ap (String.◌∷◌ c) (append-joined s t)

too_long : (s : String) → Longer s → is_mac (append "f6:61:c0:6a:00:0" s) ≡ false
unfolding is_mac joined
too_long s (c, d, t, e) = rw (append-joined "f6:61:c0:6a:00:0" s, e) refl

decimal-Longer : (n : ℕ) → ltb n 10 ≡ false → Longer (decimal n)
unfolding decimal decimal_from
decimal-Longer zero h = cc h
decimal-Longer (suc n) h = rw h (
    append-Longer (decimal_from n (suc n / 10)) (decimal_digit (suc n))
      (decimal_from-Full n (suc n / 10)) (decimal_digit-Full (suc n)))

dp_mac_long : (id : ℕ) → ltb id 10 ≡ false → is_mac (dp_mac id) ≡ false
unfolding dp_mac with_id
dp_mac_long id h =
    ap (λ s. is_mac (append "f6:61:c0:6a:00:0" s)) (append-nil (decimal id))
    ∙ too_long (decimal id) (decimal-Longer id h)

-- The link of a switch to the collector is given the text of a MAC address exactly if the switch is
-- one of the first ten.
pub is_mac-dp_mac : (id : ℕ) → is_mac (dp_mac id) ≡ ltb id 10
is_mac-dp_mac id = elim (Bool-cases (ltb id 10)) [
  | inr large ↦ dp_mac_long id large ∙ sym large
  | inl small ↦ all_macs-is_mac 10 0 id (omega arith) (ground (arith, small)) ten_macs ∙ sym small
]
