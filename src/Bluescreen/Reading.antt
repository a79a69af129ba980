-- ===== src/Bluescreen/Reading.antt =====
-- The loop of `read_headers`: it ends, and what it returns is bounded.
use desktop_mdm.Prelude.{
  ℕ, zero, suc, ◌+◌, ◌-◌, ◌≤◌, ◌<◌, ◌≡◌, refl, ap, true, false, ◌||◌, Option, none, some, List, [],
  ◌∷◌, ◌++◌, arith, min, leb, take, length, length-append, length-take, Bool-cases, inl, inr, ◌⊎◌,
  ◌∙◌, sym,
}
use desktop_mdm.Prelude.Result.{Result, ok, err}
use desktop_mdm.Text.{Text}
use desktop_mdm.Text.Split.{ends_with, from_utf8}
use desktop_mdm.LockScreen.{Instant, seconds}
use desktop_mdm.Bluescreen.{
  Turn, Socket, IoError, end_of_headers, read_loop, read_headers, received, would_block, read_error,
  Read, timeout_refused, read_failed,
}

abbrev Outcome : Type 0
Outcome = Option (Result IoError (Option Text))

-- What a whole request is: at most 8192 bytes that end with an empty line and decode to the text.
pub record IsWhole (bytes : List ℕ) (text : Text) : Type 0 where
  pub decoded : from_utf8 bytes ≡ some text
  pub complete : ends_with end_of_headers bytes ≡ true

module _ (turns : ℕ → Turn) (deadline : Instant) where
  abbrev Ends : ℕ → ℕ → List ℕ → Type 0
  Ends fuel i bytes =
      (r : Result IoError (Option Text)) × (read_loop (suc fuel) turns i deadline bytes ≡ some r)
      × ((text : Text) → r ≡ ok (some text) → IsWhole bytes text)

  abbrev GoesOn : ℕ → ℕ → List ℕ → Type 0
  GoesOn fuel i bytes =
      (more : List ℕ) × (read_loop (suc fuel) turns i deadline bytes
        ≡ read_loop fuel turns (i + 1) deadline more)
      × (length bytes ≤ 8192 → length more ≤ 8192)

  -- A round that tests neither the flag, nor the clock, nor the length as over.
  read_loop-round :
      (fuel i : ℕ) (bytes : List ℕ) (read : Read)
      → ends_with end_of_headers bytes ≡ false
      → ((turns i).stopping || leb deadline (turns i).now || leb 8192 (length bytes)) ≡ false
      → (turns i).read ≡ read
      → Ends fuel i bytes ⊎ GoesOn fuel i bytes
  unfolding read_loop
  read_loop-round fuel i bytes would_block e1 e2 e3 =
      inr (bytes, rw (e1, e2, e3, read_loop) refl, λ h. h)
  read_loop-round fuel i bytes read_error e1 e2 e3 =
      inl (err read_failed, rw (e1, e2, e3, read_loop) refl, λ text h. cc)
  read_loop-round fuel i bytes (received chunk) e1 e2 e3 =
      by_chunk (take (min 512 (8192 - length bytes)) chunk) refl
    where
      by_chunk :
          (part : List ℕ)
          → take (min 512 (8192 - length bytes)) chunk ≡ part
          → Ends fuel i bytes ⊎ GoesOn fuel i bytes
      by_chunk [] e4 = inl (ok none, rw (e1, e2, e3, e4, read_loop) refl, λ text h. cc)
      by_chunk (x ∷ xs) e4 =
          let size = length-take (min 512 (8192 - length bytes)) chunk in
          let same = ap length e4 in
          inr (
            bytes ++ x ∷ xs,
            rw (e1, e2, e3, e4, read_loop) refl,
            λ h. ground (arith, length-append bytes (x ∷ xs), size, same),
          )

  read_loop-cases : (fuel i : ℕ) (bytes : List ℕ) → Ends fuel i bytes ⊎ GoesOn fuel i bytes
  unfolding read_loop
  read_loop-cases fuel i bytes = elim (Bool-cases (ends_with end_of_headers bytes)) [
    | inl whole ↦ inl (
      ok (from_utf8 bytes),
      rw (whole, read_loop) refl,
      λ text h. record { decoded = cc; complete = whole },
    )
    | inr partial ↦
        elim (Bool-cases
          ((turns i).stopping || leb deadline (turns i).now || leb 8192 (length bytes))) [
            | inl over ↦ inl (ok none, rw (partial, over, read_loop) refl, λ text h. cc)
            | inr open_ ↦ read_loop-round fuel i bytes (turns i).read partial open_ refl
          ]
  ]

  -- Once the clock has reached the deadline the round ends the loop.
  read_loop-late : (fuel i : ℕ) (bytes : List ℕ) → deadline ≤ (turns i).now → Ends fuel i bytes
  unfolding read_loop
  read_loop-late fuel i bytes late = elim (Bool-cases (ends_with end_of_headers bytes)) [
    | inl whole ↦ (
      ok (from_utf8 bytes),
      rw (whole, read_loop) refl,
      λ text h. record { decoded = cc; complete = whole },
    )
    | inr partial ↦
        let over : ((turns i).stopping || leb deadline (turns i).now || leb 8192 (length bytes))
            ≡ true =
          ground arith in
        (ok none, rw (partial, over, read_loop) refl, λ text h. cc)
  ]

  read_loop-total :
      (n fuel i j : ℕ) (bytes : List ℕ)
      → i + n ≡ j
      → deadline ≤ (turns j).now
      → n < fuel
      → (r : Result IoError (Option Text)) × (read_loop fuel turns i deadline bytes ≡ some r)
  read_loop-total n zero i j bytes at late enough = absurd (omega arith)
  read_loop-total zero (suc fuel) i j bytes at late enough =
      let same : i ≡ j = omega arith in
      let (r, run, whole) = read_loop-late fuel i bytes (rw same late) in (r, run)
  read_loop-total (suc n) (suc fuel) i j bytes at late enough =
      elim (read_loop-cases fuel i bytes) [
        | inl (r, run, whole) ↦ (r, run)
        | inr (more, run, size) ↦
            let (r, rest) =
              read_loop-total n fuel (i + 1) j more (omega arith) late (omega arith) in
            (r, run ∙ rest)
      ]

  read_loop-IsWhole :
      (fuel i : ℕ) (bytes : List ℕ) (text : Text)
      → length bytes ≤ 8192
      → read_loop fuel turns i deadline bytes ≡ some (ok (some text))
      → (all : List ℕ) × IsWhole all text × (length all ≤ 8192)
  unfolding read_loop
  read_loop-IsWhole zero i bytes text small h = cc
  read_loop-IsWhole (suc fuel) i bytes text small h = elim (read_loop-cases fuel i bytes) [
    | inl (r, run, whole) ↦ (bytes, whole text cc, small)
    | inr (more, run, size) ↦ read_loop-IsWhole fuel (i + 1) more text (size small) (sym run ∙ h)
  ]

-- Reading a request ends: where the clock has reached the deadline of one second by some round, fuel
-- for that many rounds and one more gives a result, whatever the client sends and however slowly.
pub read_headers-total :
    (socket : Socket) (n fuel : ℕ)
    → socket.opened_at + seconds 1 ≤ (socket.turns n).now
    → n < fuel
    → (r : Result IoError (Option Text)) × (read_headers fuel socket ≡ some r)
unfolding read_headers
read_headers-total socket n fuel late enough = elim (Bool-cases socket.read_timeout_set) [
  | inl set ↦
      let (r, run) =
        read_loop-total socket.turns (socket.opened_at + seconds 1) n fuel 0 n [] (omega arith) late
          enough in
      (r, rw (set, read_headers) run)
  | inr unset ↦ (err timeout_refused, rw (unset, read_headers) refl)
]

-- Headers that are read are the UTF-8 text of at most 8192 bytes that end with an empty line.
pub read_headers-bounded :
    (socket : Socket) (fuel : ℕ) (text : Text)
    → read_headers fuel socket ≡ some (ok (some text))
    → (bytes : List ℕ) × IsWhole bytes text × (length bytes ≤ 8192)
unfolding read_headers
read_headers-bounded socket fuel text h = elim (Bool-cases socket.read_timeout_set) [
  | inl set ↦
      read_loop-IsWhole socket.turns (socket.opened_at + seconds 1) fuel 0 [] text (omega arith)
        (rw (set, read_headers) at h)
  | inr unset ↦ cc (rw (unset, read_headers) at h)
]
