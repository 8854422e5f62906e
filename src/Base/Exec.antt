-- ===== src/Base/Exec.antt =====
-- Methods that change an object and may raise: what was changed before the exception stays.
use mathlib.Core.Path.{◌≡◌, refl, ap}
use mathlib.Core.Bool.{Bool, true, false}
use smoothie.Base.Tests.{if◌then◌else◌}
use smoothie.Base.Error.{Error, Result, ok, err}

abbrev pub Exec {ℓ} : Type ℓ → Type ℓ → Type ℓ
Exec S A = S → Result A × S

module _ {ℓ} {S A : Type ℓ} where
  -- reads the state
  abbrev pub gets : (S → A) → Exec S A
  gets f s = (ok (f s), s)

  abbrev pub pure : A → Exec S A
  pure a s = (ok a, s)

  abbrev pub raise : Error → Exec S A
  raise x s = (err x, s)

  abbrev pub lift : Result A → Exec S A
  lift r s = (r, s)

module _ {ℓ} {S A B : Type ℓ} where
  abbrev continue : Result A → (A → Exec S B) → Exec S B
  continue (err raised) rest s = (err raised, s)
  continue (ok a) rest s = rest a s

  infixl 5 ◌>>=◌ ◌>>◌
  abbrev pub ◌>>=◌ : Exec S A → (A → Exec S B) → Exec S B
  ◌>>=◌ m f s = continue (m s).0 f (m s).1

  abbrev pub ◌>>◌ : Exec S A → Exec S B → Exec S B
  m >> k = m >>= λ _. k

-- Inversion of a successful bind.
module _ {ℓ} {S A B : Type ℓ} where
  continue-eq-ok :
      (r : Result A) (f : A → Exec S B) (s : S) (b : B) (t : S)
      → continue r f s ≡ (ok b, t)
      → (a : A) × (r ≡ ok a) × (f a s ≡ (ok b, t))
  continue-eq-ok (ok a) f s b t h = (a, refl, h)
  continue-eq-ok (err x) f s b t h = cc (ap (λ (p : Result B × S). p.0) h)

  pub >>=-eq-ok :
      (m : Exec S A) (f : A → Exec S B) (s : S) {b : B} {t : S}
      → (m >>= f) s ≡ (ok b, t)
      → (a : A) × (u : S) × (m s ≡ (ok a, u)) × (f a u ≡ (ok b, t))
  >>=-eq-ok m f s {b} {t} h =
      let (a, r, k) = continue-eq-ok (m s).0 f (m s).1 b t h in
      (a, (m s).1, ap (λ (q : Result A). (q, (m s).1)) r, k)

-- What holds before a bind and is kept by both of its parts, raised or not, holds behind it.
module _ {ℓ κ} {S A B : Type ℓ} (P : S → Type κ) where
  continue_keeps :
      (r : Result A) (f : A → Exec S B) (s : S)
      → P s
      → ((a : A) (t : S) → P t → P (f a t).1)
      → P (continue r f s).1
  continue_keeps (ok a) f s h k = k a s h
  continue_keeps (err x) f s h k = h

  pub >>=_keeps :
      (m : Exec S A) (f : A → Exec S B)
      → ((s : S) → P s → P (m s).1)
      → ((a : A) (t : S) → P t → P (f a t).1)
      → (s : S) → P s
      → P ((m >>= f) s).1
  >>=_keeps m f h k s p = continue_keeps (m s).0 f (m s).1 (h s p) k

-- a branch
module _ {ℓ κ} {S A : Type ℓ} (P : S → Type κ) where
  pub if_keeps :
      (b : Bool) (m k : Exec S A)
      → ((s : S) → P s → P (m s).1)
      → ((s : S) → P s → P (k s).1)
      → (s : S) → P s
      → P ((if b then m else k) s).1
  if_keeps true m k x y = x
  if_keeps false m k x y = y

-- The same where the first part leads from `P` to `Q`, and the second from `Q` to `R`; a state that
-- an exception is raised in may have `Q` only, which gives `R`.
module _ {ℓ κ} {S A B : Type ℓ} (P Q R : S → Type κ) where
  continue_leads :
      (r : Result A) (f : A → Exec S B) (s : S)
      → Q s
      → ((t : S) → Q t → R t)
      → ((a : A) (t : S) → Q t → R (f a t).1)
      → R (continue r f s).1
  continue_leads (ok a) f s h weaker k = k a s h
  continue_leads (err x) f s h weaker k = weaker s h

  pub >>=_leads :
      (m : Exec S A) (f : A → Exec S B)
      → ((s : S) → P s → Q (m s).1)
      → ((t : S) → Q t → R t)
      → ((a : A) (t : S) → Q t → R (f a t).1)
      → (s : S) → P s
      → R ((m >>= f) s).1
  >>=_leads m f h weaker k s p = continue_leads (m s).0 f (m s).1 (h s p) weaker k

-- What holds of a state behind the second part of a bind, when it returned, holds behind the bind.
module _ {ℓ κ} {S A B : Type ℓ} (P : S → Type κ) where
  pub >>=_ends :
      (m : Exec S A) (f : A → Exec S B) (b : B)
      → ((a : A) (s t : S) → f a s ≡ (ok b, t) → P t)
      → (s t : S) → (m >>= f) s ≡ (ok b, t)
      → P t
  >>=_ends m f b h s t e = let (a, u, p, q) = >>=-eq-ok m f s e in h a u t q

-- where `m` returns from a state with `P`, its value and the state behind it have `Q`
abbrev pub Ensures {ℓ κ} :
    {S A : Type ℓ} → (S → Type κ) → Exec S A → (A → S → Type κ) → Type (ℓ ⊔ κ)
Ensures {S} {A} P m Q = (s t : S) (a : A) → P s → m s ≡ (ok a, t) → Q a t

pub >>=-Ensures {ℓ κ} :
    {S A B : Type ℓ} (P : S → Type κ) (m : Exec S A) (Q : A → S → Type κ) (f : A → Exec S B)
    (R : B → S → Type κ)
    → Ensures P m Q
    → ((a : A) → Ensures (Q a) (f a) R)
    → Ensures P (m >>= f) R
>>=-Ensures P m Q f R first rest s t b h e =
    let (a, u, p, q) = >>=-eq-ok m f s e in rest a u t b (first s u a h p) q
