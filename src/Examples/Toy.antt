-- ===== src/Examples/Toy.antt =====
-- Concrete functions for the crates that the program calls, to run the examples: no cryptography.
use desktop_mdm.Prelude.{
  subst, ℕ, ◌+◌, ◌-◌, ◌≡◌, refl, Bool, true, false, ◌&&◌, Option, none, some, List, [], ◌∷◌, ◌++◌,
  arith, ltb, leb, nat_eq, if◌then◌else◌, length, take, drop, take-append, drop-append,
}
use desktop_mdm.Prelude.Int.{pos, negsuc}
use desktop_mdm.Text.{Text}
use mathlib.Core.Option.{some-injective}
use desktop_mdm.Text.Trim.{NoSpace, is_whitespace}
use desktop_mdm.Extern.{Ed25519, IsEd25519, Base64, IsBase64, IsBytes, Json, IsJson}
use desktop_mdm.Recovery.Verify.{FromTimestamp}
use desktop_mdm.RecoveryService.{RecoveryRequest, RecoveryReceipt, RecoveryState}

abbrev pub zeros : ℕ → List ℕ
zeros ℕ.zero = []
zeros (ℕ.suc n) = 0 ∷ zeros n

abbrev bit_of : List ℕ → Bool
bit_of [] = false
bit_of (x ∷ xs) = nat_eq x 1

-- A signature is one bit; signing sets it, and it verifies if it is set and the key is not 0.
abbrev pub toy_ed : Ed25519
toy_ed = record {
  SigningKey = ℕ;
  VerifyingKey = ℕ;
  Signature = Bool;
  verifying_key = λ k. k;
  key_from_bytes = λ bs. some (length bs);
  is_weak = λ k. nat_eq k 0;
  signature_from_slice = λ bs. some (bit_of (drop 63 bs));
  signature_from_bytes = λ bs. bit_of (drop 63 bs);
  signature_to_bytes = λ s. zeros 63 ++ (if s then 1 else 0) ∷ [];
  sign = λ k m. true;
  verify_strict = λ k m s. s && ltb 0 k;
}

toy_verify-sign : (k : ℕ) → nat_eq k 0 ≡ false → (true && ltb 0 k) ≡ true
toy_verify-sign k h = ground arith

toy_from_slice : (s : Bool) → toy_ed.signature_from_slice (toy_ed.signature_to_bytes s) ≡ some s
toy_from_slice true = refl
toy_from_slice false = refl

toy_from_bytes : (s : Bool) → toy_ed.signature_from_bytes (toy_ed.signature_to_bytes s) ≡ s
toy_from_bytes true = refl
toy_from_bytes false = refl

toy_to_bytes : (s : Bool) → IsBytes (toy_ed.signature_to_bytes s)
toy_to_bytes true = omega arith
toy_to_bytes false = omega arith

pub toy_ed-IsEd25519 : IsEd25519 toy_ed
toy_ed-IsEd25519 = record {
  from_slice-to_bytes = toy_from_slice;
  from_bytes-to_bytes = toy_from_bytes;
  length-to_bytes = λ s. refl;
  to_bytes-IsBytes = toy_to_bytes;
  verify-sign = λ k m h. toy_verify-sign k h;
}

-- One character to a byte, from U+4E00 on.
abbrev toy_encode : List ℕ → Text
toy_encode [] = []
toy_encode (b ∷ bs) = (0x4e00 + b) ∷ toy_encode bs

abbrev push : ℕ → Option (List ℕ) → Option (List ℕ)
push c none = none
push c (some bs) = if leb 0x4e00 c && ltb c 0x4f00 then some ((c - 0x4e00) ∷ bs) else none

abbrev toy_decode : Text → Option (List ℕ)
toy_decode [] = some []
toy_decode (c ∷ s) = push c (toy_decode s)

abbrev pub toy_base64 : Base64
toy_base64 = record { encode = toy_encode; decode = toy_decode }

toy_decode-encode : (bs : List ℕ) → IsBytes bs → toy_decode (toy_encode bs) ≡ some bs
toy_decode-encode [] h = refl
toy_decode-encode (b ∷ bs) h = rw (toy_decode-encode bs h.1) (ground arith)

push-IsBytes :
    (c : ℕ) (o : Option (List ℕ)) (bs : List ℕ)
    → ((xs : List ℕ) → o ≡ some xs → IsBytes xs)
    → push c o ≡ some bs
    → IsBytes bs
push-IsBytes c none bs h e = cc
push-IsBytes c (some xs) [] h e = tt
push-IsBytes c (some xs) (b ∷ bs) h e = ground (arith, h xs refl)

toy_decode-IsBytes : (s : Text) (bs : List ℕ) → toy_decode s ≡ some bs → IsBytes bs
toy_decode-IsBytes [] [] h = tt
toy_decode-IsBytes [] (b ∷ bs) h = cc
toy_decode-IsBytes (c ∷ s) bs h = push-IsBytes c (toy_decode s) bs (toy_decode-IsBytes s) h

toy_char : (b : ℕ) → is_whitespace (0x4e00 + b) ≡ false
unfolding is_whitespace
toy_char b = ground arith

toy_encode-NoSpace : (bs : List ℕ) → NoSpace (toy_encode bs)
toy_encode-NoSpace [] = tt
toy_encode-NoSpace (b ∷ bs) = (toy_char b, toy_encode-NoSpace bs)

pub toy_base64-IsBase64 : IsBase64 toy_base64
toy_base64-IsBase64 = record {
  decode-encode = toy_decode-encode;
  decode-IsBytes = toy_decode-IsBytes;
  encode-NoSpace = toy_encode-NoSpace;
}

-- Seconds since the epoch, as nanoseconds; nothing before it.
abbrev pub toy_timestamp : FromTimestamp
toy_timestamp (pos n) = some n
toy_timestamp (negsuc n) = none

abbrev state_to_vec : RecoveryState → Option (List ℕ)
state_to_vec s = elim s.receipt [
  | none ↦ some (1 ∷ s.counter ∷ s.public_key_hex)
  | some r ↦ some (
      2
      ∷ s.counter
      ∷ (if r.accepted then 1 else 0)
      ∷ r.expires_at
      ∷ length r.request_id
      ∷ (r.request_id ++ s.public_key_hex))
]

abbrev state_from_slice : List ℕ → Option RecoveryState
state_from_slice (ℕ.suc ℕ.zero ∷ c ∷ key) =
    some (record { public_key_hex = key; counter = c; receipt = none })
state_from_slice (ℕ.suc (ℕ.suc ℕ.zero) ∷ c ∷ a ∷ x ∷ n ∷ rest) = some (record {
  public_key_hex = drop n rest;
  counter = c;
  receipt = some (record { request_id = take n rest; accepted = nat_eq a 1; expires_at = x });
})
state_from_slice _ = none

abbrev pub state_json : Json RecoveryState
state_json = record { to_vec = state_to_vec; from_slice = state_from_slice }

bit-bool : (a : Bool) → nat_eq (if a then 1 else 0) 1 ≡ a
bit-bool true = refl
bit-bool false = refl

state_round :
    (s : RecoveryState) (o : Option RecoveryReceipt) (bs : List ℕ)
    → s.receipt ≡ o
    → state_to_vec (record s { receipt = o }) ≡ some bs
    → state_from_slice bs ≡ some (record s { receipt = o })
state_round s none bs e h =
    subst (λ x. state_from_slice x ≡ some (record s { receipt = none })) (some-injective _ _ h) refl
state_round s (some r) bs e h =
    subst (λ x. state_from_slice x ≡ some (record s { receipt = some r })) (some-injective _ _ h)
      (rw
        (
          take-append (length r.request_id) r.request_id s.public_key_hex refl,
          drop-append (length r.request_id) r.request_id s.public_key_hex refl,
          bit-bool r.accepted,
        )
        refl)

pub state_json-IsJson : IsJson state_json
state_json-IsJson = record { from_slice-to_vec = λ s bs h. state_round s s.receipt bs refl h }

abbrev pub request_json : Json RecoveryRequest
request_json = record {
  to_vec = λ r. some (length r.request_id ∷ (r.request_id ++ r.token));
  from_slice = request_from_slice;
}
  where
    request_from_slice : List ℕ → Option RecoveryRequest
    request_from_slice [] = none
    request_from_slice (n ∷ rest) = some (record { request_id = take n rest; token = drop n rest })
