-- ===== src/StateStore/Stored.antt =====
-- The document that a file holds, and what writing does to it.
use desktop_mdm.Prelude.{◌≡◌, ◌⊎◌, inl, inr, Option, none, some, Bool}
use desktop_mdm.Prelude.Result.{ok}
use desktop_mdm.Extern.{Json, IsJson}
use desktop_mdm.StateStore.{
  File, missing, unreadable, content, WriteIo, write_json, write_json_atomic,
}

-- `serde_json::from_slice` of what `fs::read` returns, errors as `none`.
abbrev pub stored : {A : Type 0} → Json A → File → Option A
stored j missing = none
stored j unreadable = none
stored j (content bytes) = j.from_slice bytes

module _ {A : Type 0} (j : Json A) (law : IsJson j) where
  pub write_json-stored :
      (io : WriteIo) (old : File) (value : A) (private : Bool)
      → let r = write_json j io old value private in
        ((r.1 ≡ old) ⊎ (stored j r.1 ≡ some value)) × (r.0 ≡ ok tt → stored j r.1 ≡ some value)
  write_json-stored io old value private =
      let (kept, done, failed) = write_json_atomic j io old value private in
      (
        elim kept [
          | inl same ↦ inl same
          | inr (bytes, e1, e2) ↦ inr (rw e2 (law.from_slice-to_vec value bytes e1))
        ],
        λ h. let (bytes, e1, e2) = done h in rw e2 (law.from_slice-to_vec value bytes e1),
      )
