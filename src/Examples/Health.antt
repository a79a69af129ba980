-- ===== src/Examples/Health.antt =====
-- The health snapshot at concrete inputs, with a document format to store it.
use desktop_mdm.Text.Trim.{trim}
use desktop_mdm.Text.Ascii.{to_ascii_lowercase}
use desktop_mdm.Text.Number.{parse_unsigned}
use desktop_mdm.Text.Split.{lines, from_utf8}
use mathlib.Core.Option.{some-injective}
use desktop_mdm.Health.{
  BiosProvider, dell, hp, lenovo, asus, acer, unsupported, DeviceHealth, Output, HealthIo,
  HealthError, collect_health, battery_status, write_health_snapshot, computer_system_identity,
  secure_boot_status, executable_available, bios_provider_from_manufacturer,
}
use desktop_mdm.Health.Snapshot.{IsDescribed, write_health_snapshot-IsDescribed}
use desktop_mdm.StateStore.{missing}
use desktop_mdm.StateStore.Stored.{stored}
use desktop_mdm.Extern.{Json, IsJson}
use desktop_mdm.Examples.Toy.{zeros}
use desktop_mdm.Prelude.{
  ℕ, suc, ◌≡◌, refl, subst, Bool, true, false, Option, none, some, List, [], ◌∷◌, ℕ_eq, Bool_eq,
  List_eq, Option_eq, list_beq,
}
use desktop_mdm.Prelude.Result.{ok, err}
use desktop_mdm.Text.{Text, chars, concat, contains}
use desktop_mdm.Examples.SyncToy.{put, get, get-put}

abbrev provider_code : BiosProvider → ℕ
provider_code dell = 0
provider_code hp = 1
provider_code lenovo = 2
provider_code asus = 3
provider_code acer = 4
provider_code unsupported = 5

abbrev provider_of : ℕ → BiosProvider
provider_of ℕ.zero = dell
provider_of (ℕ.suc ℕ.zero) = hp
provider_of (ℕ.suc (ℕ.suc ℕ.zero)) = lenovo
provider_of (ℕ.suc (ℕ.suc (ℕ.suc ℕ.zero))) = asus
provider_of (ℕ.suc (ℕ.suc (ℕ.suc (ℕ.suc ℕ.zero)))) = acer
provider_of (ℕ.suc (ℕ.suc (ℕ.suc (ℕ.suc (ℕ.suc n))))) = unsupported

provider_round : (p : BiosProvider) → provider_of (provider_code p) ≡ p
provider_round dell = refl
provider_round hp = refl
provider_round lenovo = refl
provider_round asus = refl
provider_round acer = refl
provider_round unsupported = refl

abbrev bit : Bool → ℕ
bit true = 1
bit false = 0

abbrev bool_of : ℕ → Bool
bool_of ℕ.zero = false
bool_of (ℕ.suc n) = true

bool_round : (b : Bool) → bool_of (bit b) ≡ b
bool_round true = refl
bool_round false = refl

abbrev battery_code : Option ℕ → ℕ
battery_code none = 0
battery_code (some n) = suc n

abbrev battery_of : ℕ → Option ℕ
battery_of ℕ.zero = none
battery_of (ℕ.suc n) = some n

battery_round : (o : Option ℕ) → battery_of (battery_code o) ≡ o
battery_round none = refl
battery_round (some n) = refl

abbrev boot_code : Option Bool → ℕ
boot_code none = 0
boot_code (some true) = 1
boot_code (some false) = 2

abbrev boot_of : ℕ → Option Bool
boot_of ℕ.zero = none
boot_of (ℕ.suc ℕ.zero) = some true
boot_of (ℕ.suc (ℕ.suc n)) = some false

boot_round : (o : Option Bool) → boot_of (boot_code o) ≡ o
boot_round none = refl
boot_round (some true) = refl
boot_round (some false) = refl

abbrev health_to_vec : DeviceHealth → List ℕ
health_to_vec h =
    provider_code h.bios_provider
    ∷ h.disk_free_bytes
    ∷ battery_code h.battery_percent
    ∷ boot_code h.secure_boot
    ∷ bit h.winget_available
    ∷ h.observed_at
    ∷ put h.device_id (
        put h.hostname
          (put h.os_version (put h.manufacturer (put h.model (put h.agent_version [])))))

abbrev health_from_slice : List ℕ → Option DeviceHealth
health_from_slice (provider ∷ disk ∷ battery ∷ boot ∷ winget ∷ at ∷ rest) =
    get
      (λ device_id r1.
        get
          (λ hostname r2.
            get
              (λ os_version r3.
                get
                  (λ manufacturer r4.
                    get
                      (λ model r5.
                        get
                          (λ agent_version r6. some (record {
                            device_id = device_id;
                            hostname = hostname;
                            os_version = os_version;
                            manufacturer = manufacturer;
                            model = model;
                            agent_version = agent_version;
                            disk_free_bytes = disk;
                            battery_percent = battery_of battery;
                            secure_boot = boot_of boot;
                            winget_available = bool_of winget;
                            bios_provider = provider_of provider;
                            observed_at = at;
                          }))
                          r5)
                      r4)
                  r3)
              r2)
          r1)
      rest
health_from_slice _ = none

health_round : (h : DeviceHealth) → health_from_slice (health_to_vec h) ≡ some h
health_round h =
    rw
      (
        get-put, get-put, get-put, get-put, get-put, get-put, battery_round, boot_round, bool_round,
        provider_round,
      )
      refl

abbrev pub health_json : Json DeviceHealth
health_json = record { to_vec = λ h. some (health_to_vec h); from_slice = health_from_slice }

health_json-IsJson : IsJson health_json
health_json-IsJson = record {
  from_slice-to_vec =
      λ h bs e. subst (λ x. health_from_slice x ≡ some h) (some-injective _ _ e) (health_round h);
}

abbrev printed : Text → Option Output
printed text = some (record { success = true; stdout = text; stdout_lossy = text })

abbrev identity_text : Text
identity_text =
    concat
      (chars "ASUSTeK COMPUTER INC. " ∷ (13 ∷ 10 ∷ []) ∷ chars "Vivobook" ∷ (13 ∷ 10 ∷ []) ∷ [])

abbrev pub health_io : HealthIo
health_io = record {
  readings = record {
    hostname = none;
    os_version = some (chars "Windows 11");
    identity = printed identity_text;
    battery = printed (chars " 87 ");
    secure_boot = printed (chars "True");
    winget_version = none;
    agent_version = chars "0.1.0";
    disk_space = 5 ∷ 7 ∷ [];
    now = 9;
  };
  found = true;
  written = true;
  renamed = true;
}

reads_asus : collect_health health_io.readings (zeros 16) ≡ record {
  device_id = zeros 16;
  hostname = chars "unknown-device";
  os_version = chars "Windows 11";
  manufacturer = chars "ASUSTeK COMPUTER INC.";
  model = chars "Vivobook";
  agent_version = chars "0.1.0";
  disk_free_bytes = 12;
  battery_percent = some 87;
  secure_boot = some true;
  winget_available = false;
  bios_provider = asus;
  observed_at = 9;
}
unfolding collect_health computer_system_identity battery_status secure_boot_status
    executable_available bios_provider_from_manufacturer lines from_utf8 contains list_beq
    parse_unsigned to_ascii_lowercase trim
reads_asus = refl

too_full : battery_status (printed (chars "101")) ≡ none
unfolding battery_status from_utf8 parse_unsigned trim
too_full = refl

write_health_snapshot-IsDescribed_example :
    let r = write_health_snapshot health_json health_io (zeros 16) missing in
    ((x : HealthError) → r.0 ≡ err x → r.1 ≡ missing)
    × (r.0 ≡ ok tt
        → (health : DeviceHealth) × (stored health_json r.1 ≡ some health)
          × IsDescribed health_io.readings (zeros 16) health)
write_health_snapshot-IsDescribed_example =
    write_health_snapshot-IsDescribed health_json health_json-IsJson health_io (zeros 16) missing
