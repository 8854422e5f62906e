-- ===== src/Base/Int.antt =====
-- Python's integers where they can be negative. `negsuc n` is -(n + 1).
use smoothie.Base.Tests.{leb, if◌then◌else◌}
use Prim.Native.Nat.{ℕ, suc, ◌-◌, ◌/◌}

pub data ℤ : Type 0 where
  pos : ℕ → ℤ
  negsuc : ℕ → ℤ

-- a - b
abbrev pub sub_ℕ : ℕ → ℕ → ℤ
sub_ℕ a b = if leb b a then pos (a - b) else negsuc (b - a - 1)

-- int(a / b), which cuts towards 0, for 0 < b
abbrev pub quot : ℤ → ℕ → ℤ
quot (pos a) b = pos (a / b)
quot (negsuc a) b = sub_ℕ 0 (suc a / b)

-- how often `for i in range(a)` goes round
abbrev pub rounds : ℤ → ℕ
rounds (pos a) = a
rounds (negsuc a) = 0
