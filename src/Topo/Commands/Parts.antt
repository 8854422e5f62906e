-- ===== src/Topo/Commands/Parts.antt =====
-- src/topos/TopoGenerator.py: what holds of one of the parts that a file of commands is joined from
-- holds of the file.
use mathlib.Core.Path.{subst}
use smoothie.Base.{◌≡◌, List, ◌++◌}
use smoothie.Base.Error.{ok, >>=-eq-ok}
use smoothie.Topo.Commands.{Command, Lines, then_lines}

pub ok-injective {ℓ} : {A : Type ℓ} (a b : A) → ok a ≡ ok b → a ≡ b
ok-injective a b h = cc

module _ (P : List Command → Type 0) (p q : Lines) (cs : List Command)
    (e : then_lines p q ≡ ok cs) where
  pub in_first :
      ((a b : List Command) → P a → P (a ++ b)) → ((a : List Command) → p ≡ ok a → P a) → P cs
  unfolding then_lines
  in_first grows h =
      let (a, f, k) = >>=-eq-ok p _ e in
      let (b, g, l) = >>=-eq-ok q (λ b. ok (a ++ b)) k in
      subst P (ok-injective (a ++ b) cs l) (grows a b (h a f))

  pub in_rest :
      ((a b : List Command) → P b → P (a ++ b)) → ((b : List Command) → q ≡ ok b → P b) → P cs
  unfolding then_lines
  in_rest grows h =
      let (a, f, k) = >>=-eq-ok p _ e in
      let (b, g, l) = >>=-eq-ok q (λ b. ok (a ++ b)) k in
      subst P (ok-injective (a ++ b) cs l) (grows a b (h b g))
