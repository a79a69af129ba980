-- ===== src/Examples/Plan.antt =====
-- Plans at concrete inputs.
use desktop_mdm.Prelude.{ℕ, ◌≡◌, refl, none, List, [], ◌∷◌, ltb, arith, Bool, if◌then◌else◌}
use desktop_mdm.Prelude.Result.{ok}
use desktop_mdm.Text.{Text, chars, is_lower, utf8, to_upper, is_alphabetic}
use desktop_mdm.Plan.{PaymentPeriod, pending, EmiPlan, to_uppercase, is_sequential, new, try_from}
use desktop_mdm.Plan.Invariant.{IsPlan, NoLower, new-IsPlan, try_from-IsPlan}
use desktop_mdm.Examples.Toy.{zeros}

abbrev positive : ℕ → Bool
positive n = ltb 0 n

-- Beyond ASCII every character stands for itself.
abbrev other : ℕ → Text
other c = if ltb c 0x80 then [] else c ∷ []

other-NoLower : NoLower other
unfolding is_lower
other-NoLower c = ground arith

abbrev periods : List PaymentPeriod
periods =
    record { sequence = 1; due_on = 20000; status = pending; paid_at = none }
    ∷ record { sequence = 2; due_on = 20030; status = pending; paid_at = none }
    ∷ []

abbrev plan : EmiPlan ℕ
plan = record {
  device_id = zeros 16;
  currency = chars "NPR";
  installment_amount = 5000;
  period_count = 2;
  periods = periods;
}

made : new other positive (zeros 16) (chars "npr") 5000 periods ≡ ok plan
unfolding new to_uppercase is_sequential utf8 to_upper is_alphabetic
made = refl

new-IsPlan_example :
    IsPlan positive plan
    × (zeros 16 ≡ zeros 16)
    × (chars "NPR" ≡ to_uppercase other (chars "npr"))
    × (plan.installment_amount ≡ 5000)
    × (periods ≡ periods)
new-IsPlan_example =
    new-IsPlan other other-NoLower positive (zeros 16) (chars "npr") 5000 periods plan made

try_from-IsPlan_example :
    ((p : EmiPlan ℕ)
      → try_from other positive plan ≡ ok p
      → IsPlan positive p
        × (p.period_count ≡ 2)
        × (p.periods ≡ periods)
        × (p.currency ≡ to_uppercase other (chars "NPR")))
    × (IsPlan positive plan → try_from other positive plan ≡ ok plan)
try_from-IsPlan_example = try_from-IsPlan other other-NoLower positive plan
