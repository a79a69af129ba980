-- ===== src/Health/Snapshot.antt =====
-- What a health snapshot says, and what writing it leaves.
use desktop_mdm.StateStore.Stored.{stored}
use desktop_mdm.StateStore.{File}
use desktop_mdm.Text.Number.{parse_unsigned}
use desktop_mdm.Text.Split.{from_utf8}
use desktop_mdm.Extern.{Json, IsJson}
use desktop_mdm.Text.Split.{lines}
use desktop_mdm.Text.Trim.{trim}
use desktop_mdm.Recovery.Token.{Uuid}
use desktop_mdm.StateStore.Stored.{stored}
use desktop_mdm.Prelude.{
  ◌⊎◌, false, ℕ, ◌≤◌, ◌≡◌, refl, ◌≢◌, inl, inr, Option, none, some, List, [], ◌∷◌, arith,
  Bool-cases, Option-cases, ◌==◌, ℕ_eq, Bool_eq, List_eq, Option_eq, ==_iff, All,
}
use desktop_mdm.Prelude.Result.{ok, err}
use desktop_mdm.Text.{Text, chars, contains, starts_with}
use desktop_mdm.Text.Ascii.{to_ascii_lowercase}
use desktop_mdm.Health.{BiosProvider, dell, hp, lenovo, asus, acer, unsupported, true}
use desktop_mdm.Health.{
  Output, HealthReadings, battery_status, trimmed_lines, identity_of, computer_system_identity,
  collect_health, write_health_snapshot, at_most, DeviceHealth, bios_provider_from_manufacturer,
  HealthIo, HealthError,
}

-- What the name of a maker, in lower case, is to say for each adapter.
abbrev pub IsMaker : BiosProvider → Text → Type 0
IsMaker dell name = contains (chars "dell") name ≡ true
IsMaker hp name =
    (contains (chars "hewlett") name ≡ true)
    ⊎ ((name ≡ chars "hp") ⊎ (starts_with (chars "hp ") name ≡ true))
IsMaker lenovo name = contains (chars "lenovo") name ≡ true
IsMaker asus name = (contains (chars "asus") name ≡ true) ⊎ (contains (chars "asustek") name ≡ true)
IsMaker acer name = contains (chars "acer") name ≡ true
IsMaker unsupported name =
    (contains (chars "dell") name ≡ false)
    × (contains (chars "hewlett") name ≡ false)
    × (name ≢ chars "hp")
    × (starts_with (chars "hp ") name ≡ false)
    × (contains (chars "lenovo") name ≡ false)
    × (contains (chars "asus") name ≡ false)
    × (contains (chars "acer") name ≡ false)

bios_provider_from_manufacturer-IsMaker :
    (manufacturer : Text)
    → IsMaker (bios_provider_from_manufacturer manufacturer) (to_ascii_lowercase manufacturer)
unfolding bios_provider_from_manufacturer
bios_provider_from_manufacturer-IsMaker manufacturer =
    let name = to_ascii_lowercase manufacturer in
    let exact = ==_iff name (chars "hp") in
    elim (Bool-cases (contains (chars "dell") name)) [
      | inl e1 ↦ rw (e1, bios_provider_from_manufacturer) e1
      | inr e1 ↦ elim (Bool-cases (contains (chars "hewlett") name)) [
        | inl e2 ↦ rw (e1, e2, bios_provider_from_manufacturer) (inl e2)
        | inr e2 ↦ elim (Bool-cases (name == chars "hp")) [
          | inl e3 ↦ rw (e1, e2, e3, bios_provider_from_manufacturer) (inr (inl (exact.0 e3)))
          | inr e3 ↦ elim (Bool-cases (starts_with (chars "hp ") name)) [
            | inl e4 ↦ rw (e1, e2, e3, e4, bios_provider_from_manufacturer) (inr (inr e4))
            | inr e4 ↦ elim (Bool-cases (contains (chars "lenovo") name)) [
              | inl e5 ↦ rw (e1, e2, e3, e4, e5, bios_provider_from_manufacturer) e5
              | inr e5 ↦ elim (Bool-cases (contains (chars "asus") name)) [
                | inl e6 ↦ rw (e1, e2, e3, e4, e5, e6, bios_provider_from_manufacturer) (inl e6)
                | inr e6 ↦ elim (Bool-cases (contains (chars "asustek") name)) [
                  | inl e7 ↦
                      rw (e1, e2, e3, e4, e5, e6, e7, bios_provider_from_manufacturer) (inr e7)
                  | inr e7 ↦ elim (Bool-cases (contains (chars "acer") name)) [
                    | inl e8 ↦
                        rw (e1, e2, e3, e4, e5, e6, e7, e8, bios_provider_from_manufacturer) e8
                    | inr e8 ↦
                        rw (e1, e2, e3, e4, e5, e6, e7, e8, bios_provider_from_manufacturer)
                          (e1, e2, (λ h. cc (e3, exact.1 h)), e4, e5, e6, e8)
                  ]
                ]
              ]
            ]
          ]
        ]
      ]
    ]

-- The snapshot describes a PC: its maker and model are named, and a battery has at most all its
-- charge.
pub record IsDescribed (readings : HealthReadings) (device_id : Uuid) (health : DeviceHealth)
    : Type 0 where
  pub same_device : health.device_id ≡ device_id
  pub has_manufacturer : health.manufacturer ≢ []
  pub has_model : health.model ≢ []
  pub adapter : IsMaker health.bios_provider (to_ascii_lowercase health.manufacturer)
  pub charge : (n : ℕ) → health.battery_percent ≡ some n → n ≤ 100

battery_status-bounded : (output : Option Output) (n : ℕ) → battery_status output ≡ some n → n ≤ 100
unfolding battery_status at_most
battery_status-bounded none n h = cc
battery_status-bounded (some output) n h = elim (Bool-cases output.success) [
  | inr failed ↦ cc (rw (failed, battery_status) at h)
  | inl succeeded ↦ elim (Option-cases (from_utf8 output.stdout)) [
    | inl e ↦ cc (rw (succeeded, e, battery_status) at h)
    | inr (value, e) ↦
        at_most-bounded (parse_unsigned 10 255 (trim value))
          (rw (succeeded, e, battery_status) at h)
  ]
]
  where
    at_most-bounded : (o : Option ℕ) → at_most 100 o ≡ some n → n ≤ 100
    at_most-bounded none h1 = cc
    at_most-bounded (some m) h1 = ground arith

abbrev Named : Text → Type 0
Named text = text ≢ []

trimmed_lines-Named : (all_lines : List Text) → All Named (trimmed_lines all_lines)
unfolding trimmed_lines
trimmed_lines-Named [] = tt
trimmed_lines-Named (line ∷ rest) = elim (Bool-cases (trim line == [])) [
  | inl empty ↦ rw (empty, trimmed_lines) (trimmed_lines-Named rest)
  | inr full ↦
      rw (full, trimmed_lines)
        (λ e. cc (full, (==_iff (trim line) []).1 e), trimmed_lines-Named rest)
]

identity_of-Named :
    (ls : List Text) → All Named ls → Named (identity_of ls).0 × Named (identity_of ls).1
unfolding identity_of
identity_of-Named [] h = (λ e. cc, λ e. cc)
identity_of-Named (a ∷ []) h = (h.0, λ e. cc)
identity_of-Named (a ∷ b ∷ rest) h = (h.0, h.1.0)

computer_system_identity-Named :
    (output : Option Output)
    → Named (computer_system_identity output).0 × Named (computer_system_identity output).1
unfolding computer_system_identity
computer_system_identity-Named none = (λ e. cc, λ e. cc)
computer_system_identity-Named (some output) = elim (Bool-cases output.success) [
  | inl succeeded ↦
      rw (succeeded, computer_system_identity)
        (identity_of-Named _ (trimmed_lines-Named (lines output.stdout_lossy)))
  | inr failed ↦ rw (failed, computer_system_identity) (λ e. cc, λ e. cc)
]

collect_health-IsDescribed :
    (readings : HealthReadings) (device_id : Uuid)
    → IsDescribed readings device_id (collect_health readings device_id)
unfolding collect_health
collect_health-IsDescribed readings device_id =
    let named = computer_system_identity-Named readings.identity in
    record {
      same_device = refl;
      has_manufacturer = named.0;
      has_model = named.1;
      adapter =
          bios_provider_from_manufacturer-IsMaker (collect_health readings device_id).manufacturer;
      charge = battery_status-bounded readings.battery;
    }

-- Writing the snapshot leaves health.json as it was, which it does on every error, or makes it hold
-- a snapshot of this device that names a maker and a model, has an adapter whose words the maker's
-- name holds or, where none of these words occurs in it, no adapter, and gives at most 100 percent
-- of battery; success means the snapshot.
pub write_health_snapshot-IsDescribed :
    (j : Json DeviceHealth) (law : IsJson j) (io : HealthIo) (device_id : Uuid) (file : File)
    → let r = write_health_snapshot j io device_id file in
      ((x : HealthError) → r.0 ≡ err x → r.1 ≡ file)
      × (r.0 ≡ ok tt
          → (health : DeviceHealth) × (stored j r.1 ≡ some health)
            × IsDescribed io.readings device_id health)
unfolding write_health_snapshot
write_health_snapshot-IsDescribed j law io device_id file =
    let health = collect_health io.readings device_id in
    elim (Bool-cases io.found) [
      | inr lost ↦ rw (lost, write_health_snapshot) (λ x e. refl, λ e. cc)
      | inl found ↦ elim (Option-cases (j.to_vec health)) [
        | inl e1 ↦ rw (found, e1, write_health_snapshot) (λ x e. refl, λ e. cc)
        | inr (bytes, e1) ↦ elim (Bool-cases io.written) [
          | inr full ↦ rw (found, e1, full, write_health_snapshot) (λ x e. refl, λ e. cc)
          | inl written ↦ elim (Bool-cases io.renamed) [
            | inr kept ↦ rw (found, e1, written, kept, write_health_snapshot) (λ x e. refl, λ e. cc)
            | inl renamed ↦
                rw (found, e1, written, renamed, write_health_snapshot)
                  (
                    λ x e. cc,
                    λ e. (
                      health,
                      law.from_slice-to_vec health bytes e1,
                      collect_health-IsDescribed io.readings device_id,
                    ),
                  )
          ]
        ]
      ]
    ]
