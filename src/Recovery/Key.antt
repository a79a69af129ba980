-- ===== src/Recovery/Key.antt =====
-- crates/emi-core/src/recovery.rs: `parse_public_key_hex`, and the hex text of a key as
-- crates/emi-core/examples/keygen.rs prints it.
use desktop_mdm.Prelude.{
  ℕ, ◌+◌, ◌-◌, ◌*◌, ◌/◌, ◌%◌, ◌<◌, ◌≡◌, refl, ◌&&◌, Option, none, some, List, [], ◌∷◌, arith, ltb,
  leb, if◌then◌else◌, length, ◌==◌, ℕ_eq, ◌≤◌, false, ==_iff,
}
use desktop_mdm.Text.{Text, utf8}
use desktop_mdm.Text.Trim.{trim, NoSpace, is_whitespace, trim-NoSpace}
use desktop_mdm.Text.Number.{parse_unsigned, parse_digits, push_digit, to_digit}
use desktop_mdm.Extern.{Ed25519, IsBytes}

infixl 5 ◌>>=◌
abbrev pub ◌>>=◌ {ℓ κ} : {A : Type ℓ} {B : Type κ} → Option A → (A → Option B) → Option B
none >>= next = none
some value >>= next = next value

-- `core::str::from_utf8` of two bytes.
unfoldable pub utf8_pair : ℕ → ℕ → Option Text
utf8_pair a b =
    if ltb a 0x80 && ltb b 0x80
    then some (a ∷ b ∷ [])
    else if leb 0xc2 a && leb a 0xdf && leb 0x80 b && leb b 0xbf
    then some (((a - 0xc0) * 64 + (b - 0x80)) ∷ [])
    else none

-- `u8::from_str_radix(pair, 16)` of the text of two bytes.
unfoldable pub hex_pair : ℕ → ℕ → Option ℕ
unfolding utf8_pair
hex_pair a b = do pair ← utf8_pair a b; parse_unsigned 16 255 pair

-- The loop over `chunks_exact(2)`, which drops an odd last byte.
unfoldable pub hex_pairs : List ℕ → Option (List ℕ)
unfolding hex_pair
hex_pairs [] = some []
hex_pairs (a ∷ []) = some []
hex_pairs (a ∷ b ∷ s) =
    let rest = hex_pairs s in do byte ← hex_pair a b; bytes ← rest; some (byte ∷ bytes)

-- The 32 bytes of a key's hex text.
unfoldable pub key_bytes : Text → Option (List ℕ)
unfolding hex_pairs
key_bytes hex = let t = trim hex in if length (utf8 t) == 64 then hex_pairs (utf8 t) else none

module _ (e : Ed25519) where
  unfoldable pub parse_public_key_hex : Text → Option e.VerifyingKey
  parse_public_key_hex hex = do bytes ← key_bytes hex; e.key_from_bytes bytes

-- `{byte:02x}`
unfoldable pub hex_digit : ℕ → ℕ
hex_digit d = if ltb d 10 then 48 + d else 87 + d

unfoldable pub hex : List ℕ → Text
unfolding hex_digit
hex [] = []
hex (b ∷ bs) = hex_digit (b / 16) ∷ hex_digit (b % 16) ∷ hex bs

to_digit-hex_digit : (d : ℕ) → d < 16 → to_digit 16 (hex_digit d) ≡ some d
unfolding to_digit hex_digit
to_digit-hex_digit d h = ground arith

hex_digit_ascii : (d : ℕ) → d < 16 → (hex_digit d < 0x80) × (48 ≤ hex_digit d)
unfolding hex_digit
hex_digit_ascii d h = ground arith

hex_digit-NoSpace : (d : ℕ) → d < 16 → is_whitespace (hex_digit d) ≡ false
unfolding hex_digit is_whitespace
hex_digit-NoSpace d h = ground arith

push_digit-hex :
    (acc d : ℕ) → d < 16 → acc < 16 → push_digit 16 255 acc (hex_digit d) ≡ some (acc * 16 + d)
unfolding push_digit
push_digit-hex acc d h k = ground (arith, to_digit-hex_digit d h)

hex_pair-hex_digit : (b : ℕ) → b < 256 → hex_pair (hex_digit (b / 16)) (hex_digit (b % 16)) ≡ some b
unfolding hex_pair parse_unsigned parse_digits
hex_pair-hex_digit b h =
    let h1 = hex_digit_ascii (b / 16) (omega arith) in
    let h2 = hex_digit_ascii (b % 16) (omega arith) in
    ground (
      arith,
      push_digit-hex 0 (b / 16) (omega arith) (omega arith),
      push_digit-hex (b / 16) (b % 16) (omega arith) (omega arith),
    )

hex_pairs-hex : (bs : List ℕ) → IsBytes bs → hex_pairs (hex bs) ≡ some bs
unfolding hex hex_pairs
hex_pairs-hex [] h = refl
hex_pairs-hex (b ∷ bs) h = rw (hex_pair-hex_digit b h.0, hex_pairs-hex bs h.1) refl

utf8-hex : (bs : List ℕ) → IsBytes bs → utf8 (hex bs) ≡ hex bs
unfolding utf8 hex
utf8-hex [] h = refl
utf8-hex (b ∷ bs) h =
    let h1 = hex_digit_ascii (b / 16) (omega arith) in
    let h2 = hex_digit_ascii (b % 16) (omega arith) in ground (arith, utf8-hex bs h.1)

length-hex : (bs : List ℕ) → length (hex bs) ≡ 2 * length bs
unfolding hex
length-hex [] = refl
length-hex (b ∷ bs) = omega (arith, length-hex bs)

hex-NoSpace : (bs : List ℕ) → IsBytes bs → NoSpace (hex bs)
unfolding hex
hex-NoSpace [] h = tt
hex-NoSpace (b ∷ bs) h = (
  hex_digit-NoSpace (b / 16) (omega arith),
  (hex_digit-NoSpace (b % 16) (omega arith), hex-NoSpace bs h.1),
)

key_bytes-hex : (bs : List ℕ) → IsBytes bs → length bs ≡ 32 → key_bytes (hex bs) ≡ some bs
unfolding key_bytes
key_bytes-hex bs h l =
    rw (trim-NoSpace (hex bs) (hex-NoSpace bs h), utf8-hex bs h)
      (rw ((==_iff (length (hex bs)) 64).1 (omega (arith, length-hex bs))) (hex_pairs-hex bs h))

-- The text that the key generator prints for 32 bytes parses to the key of those bytes.
pub parse_public_key_hex-hex :
    (e : Ed25519) (bs : List ℕ)
    → IsBytes bs
    → length bs ≡ 32
    → parse_public_key_hex e (hex bs) ≡ e.key_from_bytes bs
unfolding parse_public_key_hex
parse_public_key_hex-hex e bs h l = rw (key_bytes-hex bs h l) refl
