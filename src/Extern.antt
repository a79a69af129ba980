-- ===== src/Extern.antt =====
-- The crates that the program calls, as records of the functions that it uses. What is relied on
-- of them stands in the `Is…` records, from the crates' documentation.
use desktop_mdm.Prelude.{ℕ, ◌≡◌, ◌<◌, Bool, true, false, Option, some, List, length, All}
use desktop_mdm.Text.{Text}
use desktop_mdm.Text.Trim.{NoSpace}

-- A list of bytes.
abbrev pub IsBytes : List ℕ → Type 0
IsBytes = All (λ b. b < 256)

-- The crate ed25519-dalek.
pub record Ed25519 : Type 1 where
  pub SigningKey : Type 0
  pub VerifyingKey : Type 0
  pub Signature : Type 0
  pub verifying_key : SigningKey → VerifyingKey
  pub key_from_bytes : List ℕ → Option VerifyingKey
  pub is_weak : VerifyingKey → Bool
  pub signature_from_slice : List ℕ → Option Signature
  pub signature_from_bytes : List ℕ → Signature
  pub signature_to_bytes : Signature → List ℕ
  pub sign : SigningKey → List ℕ → Signature
  pub verify_strict : VerifyingKey → List ℕ → Signature → Bool

-- A signature is 64 bytes that read back, and what a key signs its public half verifies.
pub record IsEd25519 (e : Ed25519) : Type 0 where
  pub from_slice-to_bytes :
      (s : e.Signature) → e.signature_from_slice (e.signature_to_bytes s) ≡ some s
  pub from_bytes-to_bytes : (s : e.Signature) → e.signature_from_bytes (e.signature_to_bytes s) ≡ s
  pub length-to_bytes : (s : e.Signature) → length (e.signature_to_bytes s) ≡ 64
  pub to_bytes-IsBytes : (s : e.Signature) → IsBytes (e.signature_to_bytes s)
  pub verify-sign :
      (k : e.SigningKey) (m : List ℕ)
      → e.is_weak (e.verifying_key k) ≡ false
      → e.verify_strict (e.verifying_key k) m (e.sign k m) ≡ true

-- An engine of the crate base64.
pub record Base64 : Type 0 where
  pub encode : List ℕ → Text
  pub decode : Text → Option (List ℕ)

-- Decoding inverts encoding and yields bytes, and the alphabet has no whitespace.
pub record IsBase64 (b : Base64) : Type 0 where
  pub decode-encode : (bs : List ℕ) → IsBytes bs → b.decode (b.encode bs) ≡ some bs
  pub decode-IsBytes : (s : Text) (bs : List ℕ) → b.decode s ≡ some bs → IsBytes bs
  pub encode-NoSpace : (bs : List ℕ) → NoSpace (b.encode bs)

-- serde_json at one type: `to_vec` and `from_slice`.
pub record Json (A : Type 0) : Type 0 where
  pub to_vec : A → Option (List ℕ)
  pub from_slice : List ℕ → Option A

-- What serde_json writes it reads back.
pub record IsJson {A : Type 0} (j : Json A) : Type 0 where
  pub from_slice-to_vec : (a : A) (bs : List ℕ) → j.to_vec a ≡ some bs → j.from_slice bs ≡ some a
