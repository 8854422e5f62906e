-- ===== src/Network/Value.antt =====
-- The options of a node or a link: what a Python program passes as keyword arguments.
use smoothie.Base.{
  list_eq, list_beq_iff, [], ◌∷◌, Option, ◌%◌, ◌^◌, ℕ, String, ◌≡◌, ◌↔◌, Bool, true, false, not,
  none, some, arith, Eq, ◌==◌, nat_eq, string_eq, pair_eq,
}
use smoothie.Base.Dict.{Dict, get}

-- `cls` is a class, by its name; `real` a float, by the 64 bits of its representation; `params` a
-- dictionary of texts; `nothing` is `None`.
pub data Value : Type 0 where
  text : String → Value
  number : ℕ → Value
  flag : Bool → Value
  cls : String → Value
  real : ℕ → Value
  params : Dict String String → Value
  nothing : Value

abbrev bool_beq : Bool → Bool → Bool
bool_beq true b = b
bool_beq false b = not b

-- Equal values. A port or a key is no truth value, so that True, which Python takes for 1 as a key, is
-- another value than 1.
abbrev pub value_beq : Value → Value → Bool
value_beq (text s) (text t) = s == t
value_beq (number m) (number n) = m == n
value_beq (flag b) (flag c) = bool_beq b c
value_beq (cls s) (cls t) = s == t
value_beq (real m) (real n) = m == n
value_beq (params d) (params e) = d == e
value_beq nothing nothing = true
value_beq _ _ = false

params_iff : (d e : Dict String String) → (d == e ≡ true) ↔ (d ≡ e)
params_iff d e = list_beq_iff d e

pub value_beq_iff : (v w : Value) → (value_beq v w ≡ true) ↔ (v ≡ w)
value_beq_iff (text s) (text t) = ground (arith, string_eq.beq_iff s t)
value_beq_iff (number m) (number n) = ground (arith, nat_eq.beq_iff m n)
value_beq_iff (flag b) (flag c) = ground arith
value_beq_iff (cls s) (cls t) = ground (arith, string_eq.beq_iff s t)
value_beq_iff (real m) (real n) = ground (arith, nat_eq.beq_iff m n)
value_beq_iff (params d) (params e) = ground (arith, params_iff d e)
value_beq_iff nothing nothing = ground arith
value_beq_iff _ _ = ground arith

instance abbrev pub value_eq : Eq Value
value_eq = record { beq = value_beq; beq_iff = value_beq_iff }

-- what an `if` makes of a value
unfoldable pub truthy : Value → Bool
truthy (text s) = not (s == "")
truthy (number n) = not (n == 0)
truthy (flag b) = b
truthy (cls s) = true
truthy (real n) = not (n % 2 ^ 63 == 0)
truthy (params []) = false
truthy (params (p ∷ ps)) = true
truthy nothing = false

abbrev pub Attrs : Type 0
Attrs = Dict String Value

-- info.get(key, False), in an `if`
unfoldable pub flagged : Attrs → String → Bool
unfolding truthy
flagged a key = elim (get a key) [ none ↦ false | some v ↦ truthy v ]

-- isinstance(v, dict)
abbrev pub is_params : Value → Bool
is_params (params d) = true
is_params v = false

-- info.get(key), where it is not None
abbrev pub not_nothing : Value → Option Value
not_nothing nothing = none
not_nothing v = some v

unfoldable pub given : Attrs → String → Option Value
given a key = elim (get a key) [ none ↦ none | some v ↦ not_nothing v ]
