-- ===== src/Tests/Addresses.antt =====
-- src/helper.py: addresses.
use smoothie.Base.{ℕ, ◌≡◌, refl, arith, nat_eq, string_eq, pair_eq}
use smoothie.Helper.Eui64.{linklocal_of-injective}

linklocal_of-injective_example : ◌≡◌ {A = ℕ} 1113982867 1113982867
linklocal_of-injective_example =
    linklocal_of-injective 1113982867 1113982867 (omega arith) (omega arith) refl
