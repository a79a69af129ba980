-- ===== src/Text/Number.antt =====
-- Numbers in text: `from_str_radix` and `parse` of the unsigned types, and `to_string` of a `u64`.
use native.Mathlib.Nat.{pow-suc}
use desktop_mdm.Prelude.{
  lt→ltb, Bool-cases, inl, inr, All-append, ℕ, zero, suc, ◌+◌, ◌-◌, ◌*◌, ◌/◌, ◌%◌, ◌^◌, ◌≤◌, ◌<◌,
  ◌≡◌, ◌≢◌, refl, ap, false, ◌&&◌, Option, none, some, [], ◌∷◌, ◌++◌, arith, ltb, leb, nat_eq,
  if◌then◌else◌,
}
use desktop_mdm.Text.{Text}
use desktop_mdm.Text.Trim.{NoSpace, is_whitespace}

-- `char::to_digit`.
unfoldable pub to_digit : ℕ → ℕ → Option ℕ
to_digit radix c =
    let d =
      if leb b'0' c && leb c b'9'
      then c - 48
      else if leb b'a' c && leb c b'z'
      then c - 87
      else if leb b'A' c && leb c b'Z'
      then c - 55
      else radix in
    if ltb d radix then some d else none

-- One step of the accumulation: fails on a character that is no digit, and past `max`.
unfoldable pub push_digit : ℕ → ℕ → ℕ → ℕ → Option ℕ
unfolding to_digit
push_digit radix max acc c = elim (to_digit radix c) [
  | none ↦ none
  | some d ↦ if leb (acc * radix + d) max then some (acc * radix + d) else none
]

unfoldable pub parse_digits : ℕ → ℕ → Option ℕ → Text → Option ℕ
unfolding push_digit
parse_digits radix max none s = none
parse_digits radix max (some acc) [] = some acc
parse_digits radix max (some acc) (c ∷ s) = parse_digits radix max (push_digit radix max acc c) s

-- An empty text fails, and a `+` may stand before the digits.
unfoldable pub parse_unsigned : ℕ → ℕ → Text → Option ℕ
unfolding parse_digits
parse_unsigned radix max [] = none
parse_unsigned radix max (c ∷ []) = parse_digits radix max (some 0) (c ∷ [])
parse_unsigned radix max (c ∷ d ∷ s) =
    if nat_eq c b'+'
    then parse_digits radix max (some 0) (d ∷ s)
    else parse_digits radix max (some 0) (c ∷ d ∷ s)

-- The decimal digits of `n`, at most `fuel` of them.
unfoldable pub decimal : ℕ → ℕ → Text
decimal zero n = []
decimal (suc fuel) n =
    let high = decimal fuel (n / 10) in
    if ltb n 10 then (48 + n) ∷ [] else high ++ (48 + n % 10) ∷ []

-- `u64::to_string`: twenty digits are enough.
unfoldable pub to_string : ℕ → Text
unfolding decimal
to_string n = decimal 20 n

parse_digits-snoc :
    (radix max : ℕ) (o : Option ℕ) (s : Text) (c : ℕ)
    → parse_digits radix max o (s ++ c ∷ [])
      ≡ parse_digits radix max (parse_digits radix max o s) (c ∷ [])
unfolding parse_digits
parse_digits-snoc radix max none s c = refl
parse_digits-snoc radix max (some acc) [] c = refl
parse_digits-snoc radix max (some acc) (d ∷ s) c =
    parse_digits-snoc radix max (push_digit radix max acc d) s c

push_digit-decimal :
    (max acc d : ℕ)
    → d < 10
    → acc * 10 + d ≤ max
    → push_digit 10 max acc (48 + d) ≡ some (acc * 10 + d)
unfolding push_digit
push_digit-decimal max acc d h k = ground arith

one_digit :
    (max fuel n : ℕ)
    → n < 10
    → n ≤ max
    → parse_digits 10 max (some 0) (decimal (suc fuel) n) ≡ some n
unfolding decimal parse_digits
one_digit max fuel n h k =
    rw (lt→ltb n 10 h, push_digit-decimal max 0 n h (omega arith), parse_digits)
      (ap some (omega arith))

parse_digits-decimal :
    (max fuel n : ℕ)
    → n < 10 ^ suc fuel
    → n ≤ max
    → parse_digits 10 max (some 0) (decimal (suc fuel) n) ≡ some n
unfolding decimal parse_digits
parse_digits-decimal max zero n h k = one_digit max zero n (omega arith) k
parse_digits-decimal max (suc fuel) n h k = elim (Bool-cases (ltb n 10)) [
  | inl small ↦ one_digit max (suc fuel) n (ground arith) k
  | inr large ↦
      rw
        (
          large,
          parse_digits-snoc 10 max (some 0) (decimal (suc fuel) (n / 10)) (48 + n % 10),
          parse_digits-decimal max fuel (n / 10) (omega (arith, pow-suc 10 (suc fuel)))
              (omega arith),
          push_digit-decimal max (n / 10) (n % 10) (omega arith) (omega arith),
          parse_digits,
        )
        (ap some (omega arith))
]

-- A decimal text begins with a digit, so it has no sign.
abbrev Unsigned : Text → Type 0
Unsigned [] = ⊥
Unsigned (c ∷ s) = c ≢ b'+'

Unsigned-append : (s t : Text) → Unsigned s → Unsigned (s ++ t)
Unsigned-append [] t h = absurd h
Unsigned-append (c ∷ s) t h = h

decimal-Unsigned : (fuel n : ℕ) → Unsigned (decimal (suc fuel) n)
unfolding decimal
decimal-Unsigned zero n = elim (Bool-cases (ltb n 10)) [
  | inl small ↦ rw small (λ e. omega arith)
  | inr large ↦ rw large (λ e. omega arith)
]
decimal-Unsigned (suc fuel) n = elim (Bool-cases (ltb n 10)) [
  | inl small ↦ rw small (λ e. omega arith)
  | inr large ↦
      rw large (Unsigned-append (decimal (suc fuel) (n / 10)) _ (decimal-Unsigned fuel (n / 10)))
]

parse_unsigned-Unsigned :
    (radix max : ℕ) (s : Text)
    → Unsigned s
    → parse_unsigned radix max s ≡ parse_digits radix max (some 0) s
unfolding parse_unsigned
parse_unsigned-Unsigned radix max [] h = absurd h
parse_unsigned-Unsigned radix max (c ∷ []) h = refl
parse_unsigned-Unsigned radix max (c ∷ d ∷ s) h = ground arith

-- Every `u64` is read back from its text.
pub parse_unsigned-to_string :
    (n : ℕ) → n < 2 ^ 64 → parse_unsigned 10 (2 ^ 64 - 1) (to_string n) ≡ some n
unfolding to_string
parse_unsigned-to_string n h =
    rw (parse_unsigned-Unsigned 10 (2 ^ 64 - 1) (decimal 20 n) (decimal-Unsigned 19 n))
      (parse_digits-decimal (2 ^ 64 - 1) 19 n (omega arith) (omega arith))

digit-NoSpace : (d : ℕ) → d < 10 → is_whitespace (48 + d) ≡ false
unfolding is_whitespace
digit-NoSpace d h = ground arith

decimal-NoSpace : (fuel n : ℕ) → NoSpace (decimal fuel n)
unfolding decimal
decimal-NoSpace zero n = tt
decimal-NoSpace (suc fuel) n = elim (Bool-cases (ltb n 10)) [
  | inl small ↦ rw small (digit-NoSpace n (ground arith), tt)
  | inr large ↦ rw large (
      All-append (λ (c : ℕ). is_whitespace c ≡ false) (decimal fuel (n / 10)) _
        (decimal-NoSpace fuel (n / 10)) (digit-NoSpace (n % 10) (omega arith), tt))
]

pub to_string-NoSpace : (n : ℕ) → NoSpace (to_string n)
unfolding to_string
to_string-NoSpace n = decimal-NoSpace 20 n
