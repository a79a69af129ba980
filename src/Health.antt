-- ===== src/Health.antt =====
-- apps/windows-agent/src/agent/health.rs: the health snapshot of this PC, and the record that it
-- fills in crates/emi-core/src/lib.rs. What the commands of Windows print is a parameter.
use desktop_mdm.StateStore.{File, content}
use desktop_mdm.Extern.{Json}
use desktop_mdm.Text.Number.{parse_unsigned}
use desktop_mdm.Text.Ascii.{to_ascii_lowercase}
pub mod Snapshot
use desktop_mdm.Prelude.{
  ℕ, zero, suc, ◌+◌, ◌-◌, ◌*◌, ◌/◌, ◌%◌, ◌^◌, ◌≤◌, ◌<◌, min, ◌≡◌, refl, sym, ap, ◌∙◌, subst, ◌≢◌,
  ◌↔◌, ◌⊎◌, inl, inr, Bool, true, false, ◌&&◌, ◌||◌, not, Option, none, some, List, [], ◌∷◌, ◌++◌,
  map, reverse, arith, ltb, leb, nat_eq, if◌then◌else◌, Bool-cases, Option-cases, is_some, ◌==◌,
  ℕ_eq, Bool_eq, List_eq, Option_eq, ==_iff, length, take, drop, all, any, All,
}
use desktop_mdm.Prelude.Result.{Result, ok, err, Result-cases}
use desktop_mdm.Text.{Text, chars, contains, starts_with}
use desktop_mdm.Text.Split.{from_utf8, lines}
use desktop_mdm.Text.Trim.{trim}
use desktop_mdm.Recovery.Token.{Uuid}
use desktop_mdm.Recovery.Verify.{Time}

pub data BiosProvider : Type 0 where
  dell hp lenovo asus acer unsupported : BiosProvider

pub record DeviceHealth : Type 0 where
  pub device_id : Uuid
  pub hostname : Text
  pub os_version : Text
  pub manufacturer : Text
  pub model : Text
  pub agent_version : Text
  pub disk_free_bytes : ℕ
  pub battery_percent : Option ℕ
  pub secure_boot : Option Bool
  pub winget_available : Bool
  pub bios_provider : BiosProvider
  pub observed_at : Time

-- A command that ran: whether it succeeded, what it printed, and `from_utf8_lossy` of that.
pub record Output : Type 0 where
  pub success : Bool
  pub stdout : List ℕ
  pub stdout_lossy : Text

-- What a snapshot reads.
pub record HealthReadings : Type 0 where
  pub hostname : Option Text
  pub os_version : Option Text
  pub identity : Option Output
  pub battery : Option Output
  pub secure_boot : Option Output
  pub winget_version : Option Output
  pub agent_version : Text
  pub disk_space : List ℕ
  pub now : Time

unfoldable pub bios_provider_from_manufacturer : Text → BiosProvider
bios_provider_from_manufacturer input =
    let manufacturer = to_ascii_lowercase input in
    if contains (chars "dell") manufacturer
    then dell
    else if contains (chars "hewlett") manufacturer
        || manufacturer == chars "hp"
        || starts_with (chars "hp ") manufacturer
    then hp
    else if contains (chars "lenovo") manufacturer
    then lenovo
    else if contains (chars "asus") manufacturer || contains (chars "asustek") manufacturer
    then asus
    else if contains (chars "acer") manufacturer
    then acer
    else unsupported

-- `filter`
unfoldable pub at_most : ℕ → Option ℕ → Option ℕ
at_most bound none = none
at_most bound (some n) = if leb n bound then some n else none

unfoldable pub battery_status : Option Output → Option ℕ
unfolding at_most
battery_status none = none
battery_status (some output) =
    if output.success
    then elim (from_utf8 output.stdout) [
      | none ↦ none
      | some value ↦ at_most 100 (parse_unsigned 10 255 (trim value))
    ]
    else none

-- `parse` of a `bool`.
unfoldable pub parse_bool : Text → Option Bool
parse_bool s =
    if s == chars "true" then some true else if s == chars "false" then some false else none

unfoldable pub secure_boot_status : Option Output → Option Bool
unfolding parse_bool
secure_boot_status none = none
secure_boot_status (some output) = elim (from_utf8 output.stdout) [
  | none ↦ none
  | some value ↦ parse_bool (to_ascii_lowercase (trim value))
]

unfoldable pub executable_available : Option Output → Bool
executable_available none = false
executable_available (some output) = output.success

-- The lines that are not empty once trimmed.
unfoldable pub trimmed_lines : List Text → List Text
trimmed_lines [] = []
trimmed_lines (line ∷ rest) =
    let others = trimmed_lines rest in if trim line == [] then others else trim line ∷ others

abbrev unknown_manufacturer : Text
unknown_manufacturer = chars "Unknown manufacturer"

abbrev unknown_model : Text
unknown_model = chars "Unknown model"

unfoldable pub identity_of : List Text → Text × Text
identity_of [] = (unknown_manufacturer, unknown_model)
identity_of (manufacturer ∷ []) = (manufacturer, unknown_model)
identity_of (manufacturer ∷ model ∷ rest) = (manufacturer, model)

unfoldable pub computer_system_identity : Option Output → Text × Text
unfolding identity_of trimmed_lines
computer_system_identity none = (unknown_manufacturer, unknown_model)
computer_system_identity (some output) =
    if output.success
    then identity_of (trimmed_lines (lines output.stdout_lossy))
    else (unknown_manufacturer, unknown_model)

unfoldable pub name_or : Option Text → Text → Text
name_or none other = other
name_or (some name) other = name

-- The sum of `u64` values in a release build.
unfoldable pub sum : List ℕ → ℕ
sum [] = 0
sum (n ∷ ns) = n + sum ns

unfoldable pub collect_health : HealthReadings → Uuid → DeviceHealth
unfolding name_or sum
collect_health readings device_id =
    let identity = computer_system_identity readings.identity in
    record {
      device_id = device_id;
      hostname = name_or readings.hostname (chars "unknown-device");
      os_version = name_or readings.os_version (chars "unknown");
      manufacturer = identity.0;
      model = identity.1;
      agent_version = readings.agent_version;
      disk_free_bytes = sum readings.disk_space % 2 ^ 64;
      battery_percent = battery_status readings.battery;
      secure_boot = secure_boot_status readings.secure_boot;
      winget_available = executable_available readings.winget_version;
      bios_provider = bios_provider_from_manufacturer identity.0;
      observed_at = readings.now;
    }

pub data HealthError : Type 0 where
  no_data_dir serialize_failed write_failed rename_failed : HealthError

-- The readings, and the outcomes of `data_dir`, the write of the temporary file and the rename.
pub record HealthIo : Type 0 where
  pub readings : HealthReadings
  pub found : Bool
  pub written : Bool
  pub renamed : Bool

-- The file is health.json.
unfoldable pub write_health_snapshot :
    Json DeviceHealth → HealthIo → Uuid → File → Result HealthError (Unit {0}) × File
unfolding collect_health
write_health_snapshot j io device_id file =
    if not io.found
    then (err no_data_dir, file)
    else elim (j.to_vec (collect_health io.readings device_id)) [
      | none ↦ (err serialize_failed, file)
      | some bytes ↦
          if not io.written
          then (err write_failed, file)
          else if io.renamed
          then (ok tt, content bytes)
          else (err rename_failed, file)
    ]
