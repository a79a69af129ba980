-- ===== src/Prelude/Equality.antt =====
-- `==` of Rust, for the types whose values the program compares.
use Prim.Native.Nat.{ℕ}
use mathlib.Core.Path.{◌≡◌, refl}
use mathlib.Core.Logic.{◌↔◌}
use mathlib.Core.Bool.{Bool, true, false, ◌&&◌}
use mathlib.Core.Option.{Option, none, some}
use mathlib.Core.List.{List, [], ◌∷◌}
use native.Mathlib.Omega.{arith}
use desktop_mdm.Prelude.Tests.{nat_eq, nat_eq_iff}

-- `PartialEq`, with the law that the derived tests have.
pub record PartialEq {ℓ} (Self : Type ℓ) : Type ℓ where
  pub eq : Self → Self → Bool
  pub eq_iff : (x y : Self) → (eq x y ≡ true) ↔ (x ≡ y)

infix 50 ◌==◌
abbrev pub ◌==◌ {ℓ} : {Self : Type ℓ} ⦃law : PartialEq Self⦄ → Self → Self → Bool
◌==◌ ⦃law⦄ = law.eq

instance abbrev pub ℕ_eq : PartialEq ℕ
ℕ_eq = record { eq = nat_eq; eq_iff = nat_eq_iff }

unfoldable pub bool_beq : Bool → Bool → Bool
bool_beq true b = b
bool_beq false true = false
bool_beq false false = true

pub bool_beq_iff : (a b : Bool) → (bool_beq a b ≡ true) ↔ (a ≡ b)
unfolding bool_beq
bool_beq_iff a b = ground arith

instance abbrev pub Bool_eq : PartialEq Bool
Bool_eq = record { eq = bool_beq; eq_iff = bool_beq_iff }

module _ {ℓ} {A : Type ℓ} ⦃e : PartialEq A⦄ where
  unfoldable pub list_beq : List A → List A → Bool
  list_beq [] [] = true
  list_beq (x ∷ xs) (y ∷ ys) = e.eq x y && list_beq xs ys
  list_beq _ _ = false

  pub list_beq_iff : (xs ys : List A) → (list_beq xs ys ≡ true) ↔ (xs ≡ ys)
  unfolding list_beq
  list_beq_iff [] [] = (λ _. refl, λ _. refl)
  list_beq_iff [] (y ∷ ys) = (λ h. cc, λ h. cc)
  list_beq_iff (x ∷ xs) [] = (λ h. cc, λ h. cc)
  list_beq_iff (x ∷ xs) (y ∷ ys) = ground (arith, e.eq_iff x y, list_beq_iff xs ys)

  instance abbrev pub List_eq : PartialEq (List A)
  List_eq = record { eq = list_beq; eq_iff = list_beq_iff }

  unfoldable pub option_beq : Option A → Option A → Bool
  option_beq none none = true
  option_beq (some x) (some y) = e.eq x y
  option_beq _ _ = false

  pub option_beq_iff : (a b : Option A) → (option_beq a b ≡ true) ↔ (a ≡ b)
  unfolding option_beq
  option_beq_iff none none = (λ _. refl, λ _. refl)
  option_beq_iff none (some y) = (λ h. cc, λ h. cc)
  option_beq_iff (some x) none = (λ h. cc, λ h. cc)
  option_beq_iff (some x) (some y) = ground (arith, e.eq_iff x y)

  instance abbrev pub Option_eq : PartialEq (Option A)
  Option_eq = record { eq = option_beq; eq_iff = option_beq_iff }

  pub ==_iff : (a b : A) → ((a == b) ≡ true) ↔ (a ≡ b)
  ==_iff a b = e.eq_iff a b

  pub ==_refl : (a : A) → (a == a) ≡ true
  ==_refl a = (e.eq_iff a a).1 refl
