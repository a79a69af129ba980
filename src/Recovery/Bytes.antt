-- ===== src/Recovery/Bytes.antt =====
-- `u64::to_be_bytes`, `u64::from_be_bytes` and the `i64` versions.
use native.Mathlib.Nat.{pow-suc}
use desktop_mdm.Prelude.{
  ℕ, zero, suc, ◌+◌, ◌-◌, ◌*◌, ◌/◌, ◌%◌, ◌^◌, ◌<◌, ◌≡◌, refl, ap, List, [], ◌∷◌, ◌++◌, arith, ltb,
  if◌then◌else◌, length, length-append,
}
use desktop_mdm.Prelude.Int.{ℤ, pos, negsuc}
use desktop_mdm.Extern.{IsBytes}

-- The last `w` base-256 digits of `n`, the most significant first.
unfoldable pub be_bytes : ℕ → ℕ → List ℕ
be_bytes zero n = []
be_bytes (suc w) n = be_bytes w (n / 256) ++ (n % 256) ∷ []

from_be : ℕ → List ℕ → ℕ
from_be acc [] = acc
from_be acc (b ∷ bs) = from_be (acc * 256 + b) bs

unfoldable pub from_be_bytes : List ℕ → ℕ
unfolding from_be
from_be_bytes = from_be 0

-- The bit pattern of an `i64`, and back.
unfoldable pub i64_bits : ℤ → ℕ
i64_bits (pos n) = n
i64_bits (negsuc n) = 2 ^ 64 - 1 - n

unfoldable pub i64_of_bits : ℕ → ℤ
i64_of_bits n = if ltb n (2 ^ 63) then pos n else negsuc (2 ^ 64 - 1 - n)

abbrev pub InI64 : ℤ → Type 0
InI64 (pos n) = n < 2 ^ 63
InI64 (negsuc n) = n < 2 ^ 63

pub length-be_bytes : (w n : ℕ) → length (be_bytes w n) ≡ w
unfolding be_bytes
length-be_bytes zero n = refl
length-be_bytes (suc w) n =
    omega
      (arith, length-append (be_bytes w (n / 256)) ((n % 256) ∷ []), length-be_bytes w (n / 256))

IsBytes-snoc : (xs : List ℕ) (b : ℕ) → IsBytes xs → b < 256 → IsBytes (xs ++ b ∷ [])
IsBytes-snoc [] b h hb = (hb, tt)
IsBytes-snoc (x ∷ xs) b h hb = (h.0, IsBytes-snoc xs b h.1 hb)

pub be_bytes-IsBytes : (w n : ℕ) → IsBytes (be_bytes w n)
unfolding be_bytes
be_bytes-IsBytes zero n = tt
be_bytes-IsBytes (suc w) n =
    IsBytes-snoc (be_bytes w (n / 256)) (n % 256) (be_bytes-IsBytes w (n / 256)) (omega arith)

from_be-snoc :
    (acc : ℕ) (xs : List ℕ) (b : ℕ) → from_be acc (xs ++ b ∷ []) ≡ from_be acc xs * 256 + b
unfolding from_be
from_be-snoc acc [] b = refl
from_be-snoc acc (x ∷ xs) b = from_be-snoc (acc * 256 + x) xs b

pub from_be_bytes-be_bytes : (w n : ℕ) → n < 256 ^ w → from_be_bytes (be_bytes w n) ≡ n
unfolding from_be_bytes be_bytes
from_be_bytes-be_bytes zero n h = omega arith
from_be_bytes-be_bytes (suc w) n h = omega (
  arith,
  from_be-snoc 0 (be_bytes w (n / 256)) (n % 256),
  from_be_bytes-be_bytes w (n / 256) (omega (arith, pow-suc 256 w)),
)

-- A list of at least one entry ends in an entry.
snoc-cases :
    (w : ℕ) (xs : List ℕ)
    → length xs ≡ suc w
    → IsBytes xs
    → (ys : List ℕ) × (b : ℕ) × (xs ≡ ys ++ b ∷ []) × (length ys ≡ w) × IsBytes ys × (b < 256)
snoc-cases w [] h p = absurd (omega arith)
snoc-cases zero (x ∷ []) h p = ([], x, refl, refl, tt, p.0)
snoc-cases zero (x ∷ y ∷ xs) h p = absurd (omega arith)
snoc-cases (suc w) (x ∷ []) h p = absurd (omega arith)
snoc-cases (suc w) (x ∷ y ∷ xs) h p =
    let (ys, b, e, l, q, r) = snoc-cases w (y ∷ xs) (omega arith) p.1 in
    (x ∷ ys, b, ap (◌∷◌ x) e, ap suc l, (p.0, q), r)

high_digits : (n b : ℕ) → b < 256 → (n * 256 + b) / 256 ≡ n
high_digits n b h = omega arith

low_digit : (n b : ℕ) → b < 256 → (n * 256 + b) % 256 ≡ b
low_digit n b h = omega arith

pub be_bytes-from_be_bytes :
    (w : ℕ) (xs : List ℕ) → length xs ≡ w → IsBytes xs → be_bytes w (from_be_bytes xs) ≡ xs
unfolding from_be_bytes be_bytes
be_bytes-from_be_bytes zero [] h p = refl
be_bytes-from_be_bytes zero (x ∷ xs) h p = absurd (omega arith)
be_bytes-from_be_bytes (suc w) xs h p =
    let (ys, b, e, l, q, r) = snoc-cases w xs h p in
    rw (e, from_be-snoc 0 ys b)
      (rw (high_digits (from_be 0 ys) b r, low_digit (from_be 0 ys) b r)
        (ap (λ (zs : List ℕ). zs ++ b ∷ []) (be_bytes-from_be_bytes w ys l q)))

pub from_be_bytes-lt :
    (w : ℕ) (xs : List ℕ) → length xs ≡ w → IsBytes xs → from_be_bytes xs < 256 ^ w
unfolding from_be_bytes
from_be_bytes-lt zero [] h p = omega arith
from_be_bytes-lt zero (x ∷ xs) h p = absurd (omega arith)
from_be_bytes-lt (suc w) xs h p =
    let (ys, b, e, l, q, r) = snoc-cases w xs h p in
    rw (e, from_be-snoc 0 ys b) (omega (arith, pow-suc 256 w, from_be_bytes-lt w ys l q))

pub i64_of_bits-i64_bits : (z : ℤ) → InI64 z → i64_of_bits (i64_bits z) ≡ z
unfolding i64_of_bits i64_bits
i64_of_bits-i64_bits (pos n) h = ground arith
i64_of_bits-i64_bits (negsuc n) h = ground arith

pub i64_bits-lt : (z : ℤ) → InI64 z → i64_bits z < 2 ^ 64
unfolding i64_bits
i64_bits-lt (pos n) h = omega arith
i64_bits-lt (negsuc n) h = omega arith

pub i64_bits-i64_of_bits : (n : ℕ) → n < 2 ^ 64 → i64_bits (i64_of_bits n) ≡ n
unfolding i64_of_bits i64_bits
i64_bits-i64_of_bits n h = ground arith

pub i64_of_bits-InI64 : (n : ℕ) → n < 2 ^ 64 → InI64 (i64_of_bits n)
unfolding i64_of_bits
i64_of_bits-InI64 n h = ground arith
