-- ===== src/Base/Results.antt =====
-- Exceptions as values: what a function that may throw gives.
use mathlib.Core.Path.{◌≡◌, refl}
use mathlib.Core.Bool.{Bool, true, false}

pub data Result {ℓ} (E A : Type ℓ) : Type ℓ where
  thrown : E → Result E A
  ok : A → Result E A

module _ {ℓ} {E A B : Type ℓ} where
  infixl 5 ◌>>=◌
  -- What throws first ends the chain.
  abbrev pub ◌>>=◌ : Result E A → (A → Result E B) → Result E B
  thrown error >>= next = thrown error
  ok value >>= next = next value

  -- The parts of a chain that has returned.
  pub >>=-eq-ok :
      (first : Result E A) (next : A → Result E B) {final : B}
      → (first >>= next) ≡ ok final
      → (value : A) × (first ≡ ok value) × (next value ≡ ok final)
  >>=-eq-ok (thrown error) next e = cc
  >>=-eq-ok (ok value) next e = (value, refl, e)

module _ {ℓ} {E A : Type ℓ} where
  -- Throws `e` unless the test holds.
  abbrev pub ensure : Bool → E → Result E A → Result E A
  ensure true e m = m
  ensure false e m = thrown e

  pub ensure-eq-ok :
      (b : Bool) (e : E) (m : Result E A) {a : A} → ensure b e m ≡ ok a → (b ≡ true) × (m ≡ ok a)
  ensure-eq-ok true e m h = (refl, h)
  ensure-eq-ok false e m h = cc

  pub ok-injective : {a b : A} → ◌≡◌ {A = Result E A} (ok a) (ok b) → a ≡ b
  ok-injective h = cc
