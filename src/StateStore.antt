-- ===== src/StateStore.antt =====
-- apps/windows-agent/src/state_store.rs: `write_json`, the atomic replacement of a JSON document,
-- and `lock`, the exclusive lock that a transaction holds.
pub mod Stored
use desktop_mdm.Prelude.{
  Bool-cases, ℕ, ◌≡◌, refl, ◌⊎◌, inl, inr, Bool, true, false, ◌&&◌, Option, none, some, List,
  if◌then◌else◌,
}
use desktop_mdm.Prelude.Result.{Result, ok, err}
use desktop_mdm.Extern.{Json}

-- A file on disk: its bytes, or why `fs::read` fails.
pub data File : Type 0 where
  missing unreadable : File
  content : List ℕ → File

pub data StoreError : Type 0 where
  create_dir create_temp protect serialize write_temp sync_temp persist sync_dir lock_file :
      StoreError

-- Which of the calls succeed, and the platform of the build.
pub record WriteIo : Type 0 where
  pub windows : Bool
  pub dir_created : Bool
  pub temp_created : Bool
  pub acl_set : Bool
  pub temp_written : Bool
  pub temp_synced : Bool
  pub persisted : Bool
  pub dir_synced : Bool

-- `create_dir_all`, `open` and `lock_exclusive`.
pub record LockIo : Type 0 where
  pub lock_dir_created : Bool
  pub lock_opened : Bool
  pub lock_taken : Bool

unfoldable pub lock : LockIo → Result StoreError (Unit {0})
lock io = if io.lock_dir_created && io.lock_opened && io.lock_taken then ok tt else err lock_file

-- The bytes are in the temporary file: publish it. On Unix the directory is flushed afterwards.
unfoldable pub publish : WriteIo → File → List ℕ → Result StoreError (Unit {0}) × File
publish io old bytes =
    if io.persisted
    then if io.windows
      then (ok tt, content bytes)
      else if io.dir_synced
      then (ok tt, content bytes)
      else (err sync_dir, content bytes)
    else (err persist, old)

unfoldable pub fill_temporary :
    WriteIo → File → Option (List ℕ) → Result StoreError (Unit {0}) × File
unfolding publish
fill_temporary io old none = (err serialize, old)
fill_temporary io old (some bytes) =
    if io.temp_written
    then if io.temp_synced then publish io old bytes else (err sync_temp, old)
    else (err write_temp, old)

-- `write_json(path, value, private)`, on the file at `path`.
unfoldable pub write_json :
    {A : Type 0} → Json A → WriteIo → File → A → Bool → Result StoreError (Unit {0}) × File
unfolding fill_temporary
write_json j io old value private =
    if io.dir_created
    then if io.temp_created
      then if io.windows && private
        then if io.acl_set then fill_temporary io old (j.to_vec value) else (err protect, old)
        else fill_temporary io old (j.to_vec value)
      else (err create_temp, old)
    else (err create_dir, old)

-- What holds of a result and the file after it, of writing the bytes `o` over `old`.
abbrev pub Replaces : Bool → File → Option (List ℕ) → Result StoreError (Unit {0}) × File → Type 0
Replaces windows old o r =
    ((r.1 ≡ old) ⊎ ((bytes : List ℕ) × (o ≡ some bytes) × (r.1 ≡ content bytes)))
    × (r.0 ≡ ok tt → (bytes : List ℕ) × (o ≡ some bytes) × (r.1 ≡ content bytes))
    × ((x : StoreError) → windows ≡ true → r.0 ≡ err x → r.1 ≡ old)

module _ (windows : Bool) (old : File) where
  Replaces-kept : (o : Option (List ℕ)) (x : StoreError) → Replaces windows old o (err x, old)
  Replaces-kept o x = (inl refl, λ h. cc, λ y w h. refl)

  Replaces-done : (bytes : List ℕ) → Replaces windows old (some bytes) (ok tt, content bytes)
  Replaces-done bytes = (inr (bytes, refl, refl), λ h. (bytes, refl, refl), λ y w h. cc)

  Replaces-if :
      (o : Option (List ℕ)) (c : Bool) (r s : Result StoreError (Unit {0}) × File)
      → Replaces windows old o r
      → Replaces windows old o s
      → Replaces windows old o (if c then r else s)
  Replaces-if o true r s hr hs = hr
  Replaces-if o false r s hr hs = hs

publish-Replaces :
    (io : WriteIo) (old : File) (bytes : List ℕ)
    → Replaces io.windows old (some bytes) (publish io old bytes)
unfolding publish
publish-Replaces io old bytes =
    Replaces-if io.windows old (some bytes) io.persisted _ _
      (elim (Bool-cases io.windows) [
        | inl w ↦ rw w (Replaces-done true old bytes)
        | inr u ↦ rw u (
            Replaces-if false old (some bytes) io.dir_synced _ _ (Replaces-done false old bytes)
              (inr (bytes, refl, refl), λ h. cc, λ y w h. cc))
      ])
      (Replaces-kept io.windows old (some bytes) persist)

fill_temporary-Replaces :
    (io : WriteIo) (old : File) (o : Option (List ℕ))
    → Replaces io.windows old o (fill_temporary io old o)
unfolding fill_temporary
fill_temporary-Replaces io old none = Replaces-kept io.windows old none serialize
fill_temporary-Replaces io old (some bytes) =
    let o = some bytes in
    Replaces-if io.windows old o io.temp_written _ _
      (Replaces-if io.windows old o io.temp_synced _ _ (publish-Replaces io old bytes)
        (Replaces-kept io.windows old o sync_temp))
      (Replaces-kept io.windows old o write_temp)

-- The document is replaced whole or not at all: after `write_json` the file is as it was, or it
-- holds all bytes of the new document. Success means the new document, and on Windows an error
-- means the old file.
pub write_json_atomic :
    {A : Type 0} (j : Json A) (io : WriteIo) (old : File) (value : A) (private : Bool)
    → let r = write_json j io old value private in
      ((r.1 ≡ old) ⊎ ((bytes : List ℕ) × (j.to_vec value ≡ some bytes) × (r.1 ≡ content bytes)))
      × (r.0 ≡ ok tt → (bytes : List ℕ) × (j.to_vec value ≡ some bytes) × (r.1 ≡ content bytes))
      × ((x : StoreError) → io.windows ≡ true → r.0 ≡ err x → r.1 ≡ old)
unfolding write_json
write_json_atomic j io old value private =
    let o = j.to_vec value in
    let filled = fill_temporary-Replaces io old o in
    Replaces-if io.windows old o io.dir_created _ _
      (Replaces-if io.windows old o io.temp_created _ _
        (Replaces-if io.windows old o (io.windows && private) _ _
          (Replaces-if io.windows old o io.acl_set _ _ filled
            (Replaces-kept io.windows old o protect))
          filled)
        (Replaces-kept io.windows old o create_temp))
      (Replaces-kept io.windows old o create_dir)
