-- ===== src/Desktop/Password.antt =====
-- apps/windows-agent/src/ui/panels.rs and ui/system.rs: the rules of the BIOS password panel.
use desktop_mdm.Prelude.{
  Bool, true, false, ◌&&◌, ◌||◌, not, [], ◌++◌, if◌then◌else◌, ◌==◌, ℕ_eq, Bool_eq, List_eq,
  Option_eq, any,
}
use desktop_mdm.Text.{Text, chars}
use desktop_mdm.Health.{BiosProvider, dell, hp, lenovo, asus, acer, unsupported}

pub data BiosPasswordAction : Type 0 where
  create change disable : BiosPasswordAction

unfoldable pub script_mode : BiosPasswordAction → Text
script_mode create = chars "Create"
script_mode change = chars "Change"
script_mode disable = chars "Disable"

unfoldable pub provider_name : BiosProvider → Text
provider_name dell = chars "Dell"
provider_name hp = chars "HP"
provider_name lenovo = chars "Lenovo"
provider_name asus = chars "Asus"
provider_name acer = chars "Acer"
provider_name unsupported = chars "Other"

-- Which vendor tools are on this PC: those of Dell, HP and ASUS.
pub record Adapters : Type 0 where
  pub dell_cctk : Bool
  pub hp_cmsl : Bool
  pub asus_act : Bool

unfoldable pub bios_adapter_status : Adapters → BiosProvider → Bool × Text
bios_adapter_status adapters dell = (
  adapters.dell_cctk,
  (if adapters.dell_cctk
      then chars "Dell Command | Configure detected"
      else chars "Dell Command | Configure not installed"),
)
bios_adapter_status adapters lenovo =
    (true, chars "Lenovo BIOS WMI detected as the built-in adapter")
bios_adapter_status adapters hp = (
  adapters.hp_cmsl,
  (if adapters.hp_cmsl
      then chars "HP Client Management Script Library detected"
      else chars "HP CMSL required — install to enable firmware management"),
)
bios_adapter_status adapters asus = (
  adapters.asus_act,
  (if adapters.asus_act
      then chars "ASUS BIOS Configuration Tool detected"
      else chars "ASUS ACT is required and must be obtained for this model"),
)
bios_adapter_status adapters acer =
    (false, chars "Acer does not publish a universal in-Windows password adapter")
bios_adapter_status adapters unsupported =
    (false, chars "Manufacturer not supported for firmware management")

unfoldable pub is_lenovo : BiosProvider → Bool
is_lenovo lenovo = true
is_lenovo _ = false

unfoldable pub is_create : BiosPasswordAction → Bool
is_create create = true
is_create _ = false

unfoldable pub is_manageable : BiosProvider → Bool
is_manageable acer = false
is_manageable unsupported = false
is_manageable _ = true

-- The fields of the panel.
pub record Fields : Type 0 where
  pub current_password : Text
  pub new_password : Text
  pub confirm_password : Text
  pub confirm_disable_bios : Bool

unfoldable pub has_line_break : Text → Bool
has_line_break = any (λ c. c == 13 || c == 10 || c == 0)

unfoldable pub has_semicolon : Text → Bool
has_semicolon = any (λ c. c == b';')

unfoldable pub lenovo_delimiter : BiosProvider → Fields → Bool
unfolding is_lenovo has_semicolon
lenovo_delimiter provider f =
    is_lenovo provider && has_semicolon (f.current_password ++ f.new_password)

unfoldable pub is_filled : BiosPasswordAction → Fields → Bool
is_filled create f = not (f.new_password == []) && f.new_password == f.confirm_password
is_filled change f =
    not (f.current_password == [])
    && not (f.new_password == [])
    && f.new_password == f.confirm_password
is_filled disable f = not (f.current_password == []) && f.confirm_disable_bios

unfoldable pub fields_valid : BiosProvider → BiosPasswordAction → Fields → Bool
unfolding is_filled has_line_break lenovo_delimiter
fields_valid provider action f =
    is_filled action f
    && not (has_line_break (f.current_password ++ f.new_password))
    && not (lenovo_delimiter provider f)

-- Whether the button that applies the action is enabled, apart from an operation that runs.
unfoldable pub can_apply : Bool → BiosProvider → BiosPasswordAction → Fields → Bool
unfolding is_manageable is_lenovo is_create fields_valid
can_apply adapter_present provider action f =
    adapter_present
    && is_manageable provider
    && not (is_lenovo provider && is_create action)
    && fields_valid provider action f
