-- ===== src/Plan.antt =====
-- crates/emi-core/src/lib.rs: `EmiPlan`, its constructor, its deserialisation and its completion.
pub mod Invariant
use desktop_mdm.Prelude.{
  ℕ, zero, suc, ◌+◌, ◌^◌, Bool, true, false, not, ◌&&◌, ◌||◌, Option, none, some, List, [], ◌∷◌,
  ◌++◌, ltb, leb, nat_eq, if◌then◌else◌, length, all, ◌==◌, ℕ_eq,
}
use desktop_mdm.Prelude.Result.{Result, ok, err, ensure, ◌>>=◌, ◌>>◌}
use desktop_mdm.Text.{Text, utf8, is_alphabetic, to_upper}
use desktop_mdm.Recovery.Token.{Uuid}
use desktop_mdm.Recovery.Verify.{Time}

pub data PaymentStatus : Type 0 where
  pending paid overdue : PaymentStatus

-- `due_on` counts the days of `NaiveDate`.
pub record PaymentPeriod : Type 0 where
  pub sequence : ℕ
  pub due_on : ℕ
  pub status : PaymentStatus
  pub paid_at : Option Time

pub data DomainError : Type 0 where
  invalid_currency non_positive_amount invalid_period_count non_sequential_periods : DomainError

-- `str::to_uppercase`; `other` is Unicode's map on what is not ASCII.
unfoldable pub to_uppercase : (ℕ → Text) → Text → Text
to_uppercase other [] = []
to_uppercase other (c ∷ s) =
    (if ltb c 0x80 then to_upper c ∷ [] else other c) ++ to_uppercase other s

-- The loop over `periods.iter().enumerate()`, from `index` on.
unfoldable pub is_sequential : ℕ → List PaymentPeriod → Bool
is_sequential index [] = true
is_sequential index (period ∷ periods) =
    period.sequence == index + 1 && is_sequential (index + 1) periods

unfoldable pub is_paid : PaymentStatus → Bool
is_paid paid = true
is_paid _ = false

-- `Decimal` is that of rust_decimal, and `positive` its test `amount > Decimal::ZERO`.
pub record EmiPlan (Decimal : Type 0) : Type 0 where
  pub device_id : Uuid
  pub currency : Text
  pub installment_amount : Decimal
  pub period_count : ℕ
  pub periods : List PaymentPeriod

-- `EmiPlanWire` has the same fields.
abbrev pub EmiPlanWire : Type 0 → Type 0
EmiPlanWire = EmiPlan

module _ {Decimal : Type 0} (other : ℕ → Text) (positive : Decimal → Bool) where
  unfoldable pub new :
      Uuid → Text → Decimal → List PaymentPeriod → Result DomainError (EmiPlan Decimal)
  unfolding is_sequential
  new device_id input installment_amount periods = do
    let currency = to_uppercase other input
    ensure (length (utf8 currency) == 3 && all is_alphabetic currency) invalid_currency
    ensure (positive installment_amount) non_positive_amount
    ensure (not (length periods == 0) && leb (length periods) 65535) invalid_period_count
    ensure (is_sequential 0 periods) non_sequential_periods
    ensure (leb (length periods) 65535) invalid_period_count
    ok (record {
      device_id = device_id;
      currency = currency;
      installment_amount = installment_amount;
      period_count = length periods;
      periods = periods;
    })

  unfoldable pub try_from : EmiPlanWire Decimal → Result DomainError (EmiPlan Decimal)
  unfolding new
  try_from wire =
      if wire.period_count == length wire.periods
      then new wire.device_id wire.currency wire.installment_amount wire.periods
      else err invalid_period_count

unfoldable pub is_complete : {Decimal : Type 0} → EmiPlan Decimal → Bool
unfolding is_paid
is_complete plan = all (λ (period : PaymentPeriod). is_paid period.status) plan.periods
