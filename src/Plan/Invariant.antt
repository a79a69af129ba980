-- ===== src/Plan/Invariant.antt =====
-- The invariant of a plan: the constructor and the deserialisation give exactly the plans that
-- have it.
use desktop_mdm.Prelude.{
  All-append, ◌∙◌, sym, ℕ, ◌+◌, ◌≤◌, ◌≡◌, ◌↔◌, refl, ap, Bool, true, false, List, [], ◌∷◌, arith,
  ltb, length, all, ◌==◌, ℕ_eq, All, ==_iff, Bool-cases, inl, inr, All-append,
}
use desktop_mdm.Prelude.Result.{Result, ok, err}
use desktop_mdm.Text.{Text, utf8, is_alphabetic, is_upper, is_lower, to_upper, encode_utf8}
use desktop_mdm.Recovery.Token.{Uuid}
use desktop_mdm.Plan.{
  PaymentPeriod, DomainError, invalid_period_count, to_uppercase, is_sequential, EmiPlan, new,
  try_from,
}

-- The periods are numbered `index + 1`, `index + 2`, and so on.
abbrev pub Numbered : ℕ → List PaymentPeriod → Type 0
Numbered index [] = Unit {0}
Numbered index (p ∷ ps) = (p.sequence ≡ index + 1) × Numbered (index + 1) ps

module _ {Decimal : Type 0} (positive : Decimal → Bool) where
  pub record IsPlan (p : EmiPlan Decimal) : Type 0 where
    pub letters : All (λ c. is_upper c ≡ true) p.currency
    pub three : length p.currency ≡ 3
    pub amount : positive p.installment_amount ≡ true
    pub counted : p.period_count ≡ length p.periods
    pub nonempty : 1 ≤ length p.periods
    pub fits : length p.periods ≤ 65535
    pub numbered : Numbered 0 p.periods

-- What is relied on of Unicode's upper-case map: no result has an ASCII lower-case letter.
abbrev pub NoLower : (ℕ → Text) → Type 0
NoLower other = (c : ℕ) → All (λ d. is_lower d ≡ false) (other c)

is_sequential-Numbered :
    (index : ℕ) (ps : List PaymentPeriod) → (is_sequential index ps ≡ true) ↔ Numbered index ps
unfolding is_sequential
is_sequential-Numbered index [] = (λ h. tt, λ h. refl)
is_sequential-Numbered index (p ∷ ps) = ground (arith, is_sequential-Numbered (index + 1) ps)

alphabetic_ascii : (c : ℕ) → is_alphabetic c ≡ true → encode_utf8 c ≡ c ∷ []
unfolding is_alphabetic encode_utf8
alphabetic_ascii c h = ground arith

utf8-alphabetic : (s : Text) → all is_alphabetic s ≡ true → length (utf8 s) ≡ length s
unfolding utf8
utf8-alphabetic [] h = refl
utf8-alphabetic (c ∷ s) h = ground (arith, alphabetic_ascii c, utf8-alphabetic s)

to_upper-NoLower : (c : ℕ) → is_lower (to_upper c) ≡ false
unfolding is_lower to_upper
to_upper-NoLower c = ground arith

to_uppercase-NoLower :
    (other : ℕ → Text)
    → NoLower other
    → (s : Text) → All (λ d. is_lower d ≡ false) (to_uppercase other s)
unfolding to_uppercase
to_uppercase-NoLower other law [] = tt
to_uppercase-NoLower other law (c ∷ s) =
    let P = λ (d : ℕ). is_lower d ≡ false in
    elim (Bool-cases (ltb c 0x80)) [
      | inl ascii ↦ rw ascii (to_upper-NoLower c, to_uppercase-NoLower other law s)
      | inr wide ↦ rw wide (All-append P (other c) _ (law c) (to_uppercase-NoLower other law s))
    ]

upper_letters :
    (s : Text)
    → all is_alphabetic s ≡ true
    → All (λ d. is_lower d ≡ false) s
    → All (λ d. is_upper d ≡ true) s
unfolding is_alphabetic
upper_letters [] h k = tt
upper_letters (c ∷ s) h k = ground (arith, upper_letters s)

alphabetic_letters : (s : Text) → All (λ d. is_upper d ≡ true) s → all is_alphabetic s ≡ true
unfolding is_alphabetic
alphabetic_letters [] h = refl
alphabetic_letters (c ∷ s) h = ground (arith, alphabetic_letters s h.1)

to_uppercase-letters :
    (other : ℕ → Text) (s : Text) → All (λ d. is_upper d ≡ true) s → to_uppercase other s ≡ s
unfolding to_uppercase to_upper is_upper
to_uppercase-letters other [] h = refl
to_uppercase-letters other (c ∷ s) h = ground (arith, to_uppercase-letters other s h.1)

module _ {Decimal : Type 0} (other : ℕ → Text) (law : NoLower other)
    (positive : Decimal → Bool) where
  -- A plan that the constructor returns has the invariant: three upper-case ASCII letters of
  -- currency, a positive amount, between 1 and 65535 periods that are counted and numbered from 1.
  -- The currency is the input in upper case, and the other inputs are unchanged.
  pub new-IsPlan :
      (device_id : Uuid) (input : Text) (amount : Decimal) (periods : List PaymentPeriod)
      (p : EmiPlan Decimal)
      → new other positive device_id input amount periods ≡ ok p
      → IsPlan positive p
        × (p.device_id ≡ device_id)
        × (p.currency ≡ to_uppercase other input)
        × (p.installment_amount ≡ amount)
        × (p.periods ≡ periods)
  unfolding new
  new-IsPlan device_id input amount periods p h =
      let currency = to_uppercase other input in
      ground (
        arith,
        utf8-alphabetic currency,
        upper_letters currency,
        to_uppercase-NoLower other law input,
        is_sequential-Numbered 0 periods,
      )

  new_accepts : (p : EmiPlan Decimal) → IsPlan positive p → try_from other positive p ≡ ok p
  unfolding try_from
  new_accepts p v = ground (
    arith,
    to_uppercase-letters other p.currency v.letters,
    utf8-alphabetic p.currency,
    alphabetic_letters p.currency v.letters,
    is_sequential-Numbered 0 p.periods,
  )

  -- A plan that deserialising returns has the invariant, with the document's count and periods and
  -- its currency in upper case; and a document that has the invariant comes back unchanged.
  pub try_from-IsPlan :
      (wire : EmiPlan Decimal)
      → ((p : EmiPlan Decimal)
          → try_from other positive wire ≡ ok p
          → IsPlan positive p
            × (p.period_count ≡ wire.period_count)
            × (p.periods ≡ wire.periods)
            × (p.currency ≡ to_uppercase other wire.currency))
        × (IsPlan positive wire → try_from other positive wire ≡ ok wire)
  unfolding try_from
  try_from-IsPlan wire = (
    λ p h. elim (Bool-cases (wire.period_count == length wire.periods)) [
      | inr lying ↦ absurd (refused p (rw (lying, try_from) at h))
      | inl counted ↦
          let made =
            new-IsPlan wire.device_id wire.currency wire.installment_amount wire.periods p
              (rw (counted, try_from) at h) in
          (
            made.0,
            made.0.counted ∙ ap length made.4 ∙ sym ((==_iff wire.period_count _).0 counted),
            made.4,
            made.2,
          )
    ],
    λ v. new_accepts wire v,
  )
    where
      refused :
          (p : EmiPlan Decimal)
          → ◌≡◌ {A = Result DomainError (EmiPlan Decimal)} (err invalid_period_count) (ok p)
          → ⊥
      refused p h = cc
