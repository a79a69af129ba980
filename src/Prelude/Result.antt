-- ===== src/Prelude/Result.antt =====
-- `Result<A, E>` with the `?` operator as bind.
use mathlib.Core.Path.{◌≡◌, refl}
use mathlib.Core.Bool.{Bool, true, false}
use mathlib.Core.Logic.{◌⊎◌, inl, inr}
use mathlib.Core.Option.{Option, none, some}

pub data Result {ℓ} (E A : Type ℓ) : Type ℓ where
  ok : A → Result E A
  err : E → Result E A

module _ {ℓ} {E A B : Type ℓ} where
  infixl 5 ◌>>=◌ ◌>>◌
  abbrev pub ◌>>=◌ : Result E A → (A → Result E B) → Result E B
  ok value >>= next = next value
  err error >>= next = err error

  abbrev pub ◌>>◌ : Result E A → Result E B → Result E B
  first >> second = first >>= λ _. second

module _ {ℓ} {E : Type ℓ} where
  -- `ok_or` and `context`.
  abbrev pub ok_or : {A : Type ℓ} → Option A → E → Result E A
  ok_or none e = err e
  ok_or (some a) e = ok a

  -- `ensure!`
  abbrev pub ensure : Bool → E → Result E (Unit {ℓ})
  ensure true e = ok tt
  ensure false e = err e

  abbrev pub is_ok : {A : Type ℓ} → Result E A → Bool
  is_ok (ok a) = true
  is_ok (err e) = false

-- Inversion of a chain that returned a value.
module _ {ℓ} {E A B : Type ℓ} where
  pub >>=-eq-ok :
      (first : Result E A) (next : A → Result E B) {last : B}
      → (first >>= next) ≡ ok last
      → (value : A) × (first ≡ ok value) × (next value ≡ ok last)
  >>=-eq-ok (ok value) next run = (value, refl, run)
  >>=-eq-ok (err error) next run = cc

module _ {ℓ} {E : Type ℓ} where
  pub ok_or-eq-ok : {A : Type ℓ} (o : Option A) (e : E) {a : A} → ok_or o e ≡ ok a → o ≡ some a
  ok_or-eq-ok none e h = cc
  ok_or-eq-ok (some x) e h = cc

  pub ensure-bind-eq-ok :
      {A : Type ℓ} (c : Bool) (e : E) (m : Result E A) {a : A}
      → (ensure c e >> m) ≡ ok a
      → (c ≡ true) × (m ≡ ok a)
  ensure-bind-eq-ok true e m h = (refl, h)
  ensure-bind-eq-ok false e m h = (cc, cc)

module _ {ℓ} {E A : Type ℓ} where
  pub Result-cases : (r : Result E A) → ((a : A) × (r ≡ ok a)) ⊎ ((e : E) × (r ≡ err e))
  Result-cases (ok a) = inl (a, refl)
  Result-cases (err e) = inr (e, refl)

  pub ok-injective : (a b : A) → ◌≡◌ {A = Result E A} (ok a) (ok b) → a ≡ b
  ok-injective a b h = cc
