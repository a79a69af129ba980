-- ===== src/Desktop/Panels.antt =====
-- apps/windows-agent/src/ui/panels.rs: the actions of the panels, with the guards of their widgets.
use desktop_mdm.Desktop.App.{
  Floats, with_status, clear_passwords, provider_of, reload, DeviceApp, no_fields,
}
use desktop_mdm.Prelude.{
  ℕ, ◌+◌, Bool, true, false, ◌&&◌, not, Option, none, some, List, [], ◌∷◌, ◌++◌, if◌then◌else◌,
  ◌==◌, ℕ_eq, Bool_eq, List_eq, Option_eq, take,
}
use desktop_mdm.Text.{Text, chars}
use desktop_mdm.LockScreen.{Instant}
use desktop_mdm.Health.{BiosProvider, dell, hp, DeviceHealth}
use desktop_mdm.Desktop.Password.{
  BiosPasswordAction, create, change, disable, provider_name, Adapters, bios_adapter_status,
  can_apply, is_create,
}

-- A click or an edit in the panels. A script is found beside the app or it is not, with an error.
pub data PanelAction : Type 0 where
  select_action : BiosPasswordAction → PanelAction
  edit_current edit_new edit_confirm : Text → PanelAction
  tick_disable tick_restart : Bool → PanelAction
  apply install_adapter : Option Text → PanelAction
  clear_clicked restart refresh : PanelAction
  reload_clicked : Option DeviceHealth → Instant → PanelAction

unfoldable pub same_action : BiosPasswordAction → BiosPasswordAction → Bool
same_action create create = true
same_action change change = true
same_action disable disable = true
same_action _ _ = false

unfoldable pub has_adapter_download : BiosProvider → Bool
has_adapter_download dell = true
has_adapter_download hp = true
has_adapter_download _ = false

-- An edit field holds at most 128 characters.
abbrev pub edited : Text → Text
edited value = take 128 value

unfoldable pub is_disable : BiosPasswordAction → Bool
is_disable disable = true
is_disable _ = false

module _ {fl : Floats} where
  -- `apply_bios_password`, from the click on.
  unfoldable pub apply_bios_password : Option Text → DeviceApp fl → DeviceApp fl
  unfolding with_status provider_of
  apply_bios_password script_error s =
      if s.operation then s else elim script_error as (λ _. DeviceApp fl) [
        | some error ↦ with_status error s
        | none ↦
            let provider = provider_of s in
            record (with_status
              (chars "Applying " ++ (provider_name provider ++ chars " BIOS password action…")) s) {
                fields = no_fields;
                operation = true;
                operation_progress = some fl.one_percent;
                operation_label = chars "Protecting credentials";
                requests =
                    record {
                      provider = provider;
                      action = s.bios_password_action;
                      current = s.fields.current_password;
                      new = s.fields.new_password;
                    }
                    ∷ s.requests;
              }
      ]

  unfoldable pub install_bios_adapter : Option Text → DeviceApp fl → DeviceApp fl
  unfolding with_status provider_of has_adapter_download
  install_bios_adapter script_error s =
      if s.operation
      then s
      else if not (has_adapter_download (provider_of s))
      then with_status (chars "This manufacturer has no automatic adapter download.") s
      else elim script_error as (λ _. DeviceApp fl) [
        | some error ↦ with_status error s
        | none ↦ record (with_status (chars "Downloading the OEM firmware adapter…") s) {
          operation = true;
          operation_progress = some fl.one_percent;
          operation_label = chars "Preparing download";
          installs = s.installs + 1;
        }
      ]

  unfoldable pub restart_into_firmware : DeviceApp fl → DeviceApp fl
  unfolding clear_passwords with_status
  restart_into_firmware s =
      let cleared : DeviceApp fl = record (clear_passwords s) {
        confirm_firmware_restart = false;
      } in
      if s.operation
      then cleared
      else record (with_status (chars "Waiting for administrator approval to restart into UEFI…")
          cleared) { operation = true; restarts = s.restarts + 1 }

  unfoldable pub refresh_health : DeviceApp fl → DeviceApp fl
  unfolding with_status
  refresh_health s =
      if s.operation then s else record (with_status (chars "Refreshing local device health…") s) {
        operation = true;
        refreshes = s.refreshes + 1;
      }

  -- The action selector: another action clears the fields.
  unfoldable pub select : BiosPasswordAction → DeviceApp fl → DeviceApp fl
  unfolding clear_passwords
  select action s =
      let chosen : DeviceApp fl = record s { bios_password_action = action } in
      if same_action s.bios_password_action action then chosen else clear_passwords chosen

  -- An action of the panel of the BIOS passwords, where its widget is shown and enabled.
  unfoldable pub firmware_action : Adapters → PanelAction → DeviceApp fl → DeviceApp fl
  unfolding select is_disable provider_of apply_bios_password install_bios_adapter
      restart_into_firmware clear_passwords
  firmware_action adapters (select_action action) s = select action s
  firmware_action adapters (edit_current value) s =
      if is_create s.bios_password_action
      then s
      else record s { fields = record s.fields { current_password = edited value } }
  firmware_action adapters (edit_new value) s =
      if is_disable s.bios_password_action
      then s
      else record s { fields = record s.fields { new_password = edited value } }
  firmware_action adapters (edit_confirm value) s =
      if is_disable s.bios_password_action
      then s
      else record s { fields = record s.fields { confirm_password = edited value } }
  firmware_action adapters (tick_disable ticked) s =
      if is_disable s.bios_password_action
      then record s { fields = record s.fields { confirm_disable_bios = ticked } }
      else s
  firmware_action adapters (apply script_error) s =
      let present = (bios_adapter_status adapters (provider_of s)).0 in
      if can_apply present (provider_of s) s.bios_password_action s.fields && not s.operation
      then apply_bios_password script_error s
      else s
  firmware_action adapters clear_clicked s = clear_passwords s
  firmware_action adapters (install_adapter script_error) s =
      if has_adapter_download (provider_of s) && not s.operation
      then install_bios_adapter script_error s
      else s
  firmware_action adapters (tick_restart ticked) s = record s { confirm_firmware_restart = ticked }
  firmware_action adapters restart s =
      if s.confirm_firmware_restart && not s.operation then restart_into_firmware s else s
  firmware_action adapters refresh s = s
  firmware_action adapters (reload_clicked health now) s = s

  -- The same for the overview.
  unfoldable pub overview_action : PanelAction → DeviceApp fl → DeviceApp fl
  unfolding refresh_health reload with_status
  overview_action refresh s = if s.operation then s else refresh_health s
  overview_action (reload_clicked health now) s =
      with_status (chars "Local status reloaded") (reload health now s)
  overview_action _ s = s

  unfoldable pub panel_actions : Adapters → List PanelAction → DeviceApp fl → DeviceApp fl
  unfolding firmware_action overview_action
  panel_actions adapters [] s = s
  panel_actions adapters (a ∷ actions) s = panel_actions adapters actions (
      if s.tab == 1
      then firmware_action adapters a s
      else if s.tab == 2
      then s
      else overview_action a s)

  -- The choice of the tab: leaving the BIOS passwords clears them.
  unfoldable pub select_tab : ℕ → DeviceApp fl → DeviceApp fl
  unfolding clear_passwords
  select_tab tab s =
      let chosen : DeviceApp fl = record s { tab = tab } in
      if s.tab == 1 && not (tab == 1) then clear_passwords chosen else chosen
