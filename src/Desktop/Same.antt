-- ===== src/Desktop/Same.antt =====
-- What the panels of the desktop app leave alone: the lock but for the status line, and the keyboard.
use desktop_mdm.Desktop.App.{
  Floats, DeviceApp, Received, message, empty, disconnected, OperationEvent, progress, finished,
  poll_operation, with_status, reload, provider_of, clear_passwords,
}
use desktop_mdm.Desktop.Password.{Adapters, is_create}
use desktop_mdm.Desktop.Panels.{
  PanelAction, select_action, edit_current, edit_new, edit_confirm, tick_disable, tick_restart,
  apply, install_adapter, clear_clicked, restart, refresh, reload_clicked, same_action, select,
  apply_bios_password, install_bios_adapter, restart_into_firmware, refresh_health, is_disable,
  has_adapter_download, firmware_action, overview_action, panel_actions, select_tab,
}
use desktop_mdm.Desktop.Frame.{FrameIo, open_frame}
use desktop_mdm.Health.{DeviceHealth}
use desktop_mdm.Prelude.{
  ℕ, ◌-◌, ◌≡◌, refl, ◌∙◌, Bool, true, false, ◌&&◌, not, Option, none, some, List, [], ◌∷◌, leb,
  if◌then◌else◌, ◌==◌, ℕ_eq, Bool_eq, List_eq, Option_eq,
}
use desktop_mdm.Text.{Text, chars}
use desktop_mdm.LockScreen.{Instant, is_active, seconds}
use desktop_mdm.LockScreen.Entry.{SameLock, SameLock-trans}
use desktop_mdm.RecoveryService.{RecoveryRequest, RecoveryState}
use desktop_mdm.Extern.{Json}

module _ {fl : Floats} where
  -- What an operation of the panels leaves alone.
  pub record SameApp (s t : DeviceApp fl) : Type 0 where
    pub same_lock : SameLock s.lock t.lock
    pub same_keyboard : t.keyboard_disabled ≡ s.keyboard_disabled
    pub same_guard : t.guard ≡ s.guard

  -- It changes no more of the lock than the status line.
  SameApp-of :
      (s t : DeviceApp fl) (status : Text)
      → t.lock ≡ record s.lock { status = status }
      → t.keyboard_disabled ≡ s.keyboard_disabled
      → t.guard ≡ s.guard
      → SameApp s t
  unfolding is_active
  SameApp-of s t status e1 e2 e3 = record {
    same_lock = rw e1 (record {
      same_active = refl;
      same_started = refl;
      same_manager = refl;
      same_override = refl;
      same_remote = refl;
    });
    same_keyboard = e2;
    same_guard = e3;
  }

  pub kept_app :
      (s t : DeviceApp fl)
      → t.lock ≡ s.lock
      → t.keyboard_disabled ≡ s.keyboard_disabled
      → t.guard ≡ s.guard
      → SameApp s t
  kept_app s t e1 e2 e3 = SameApp-of s t s.lock.status e1 e2 e3

  pub SameApp-trans : {a b c : DeviceApp fl} → SameApp a b → SameApp b c → SameApp a c
  SameApp-trans f g = record {
    same_lock = SameLock-trans f.same_lock g.same_lock;
    same_keyboard = g.same_keyboard ∙ f.same_keyboard;
    same_guard = g.same_guard ∙ f.same_guard;
  }

  if_SameApp :
      (s : DeviceApp fl) (b : Bool) (x y : DeviceApp fl)
      → SameApp s x
      → SameApp s y
      → SameApp s (if b then x else y)
  if_SameApp s true x y hx hy = hx
  if_SameApp s false x y hx hy = hy

  pub poll_operation-SameApp :
      (received : Received (OperationEvent fl)) (health : Option DeviceHealth) (now : Instant)
      (s : DeviceApp fl)
      → SameApp s (poll_operation received health now s)
  unfolding poll_operation with_status reload
  poll_operation-SameApp (message (progress fraction label)) health now s =
      if_SameApp s (not s.operation) _ _ (kept_app s s refl refl refl) (kept_app s _ refl refl refl)
  poll_operation-SameApp (message (finished result)) health now s =
      if_SameApp s (not s.operation) _ _ (kept_app s s refl refl refl)
        (SameApp-of s _ result refl refl refl)
  poll_operation-SameApp disconnected health now s =
      if_SameApp s (not s.operation) _ _ (kept_app s s refl refl refl)
        (SameApp-of s _ (chars "Health refresh worker stopped unexpectedly") refl refl refl)
  poll_operation-SameApp empty health now s =
      if_SameApp s (not s.operation) _ _ (kept_app s s refl refl refl) (kept_app s s refl refl refl)

  apply_bios_password-SameApp :
      (script_error : Option Text) (s : DeviceApp fl)
      → SameApp s (apply_bios_password script_error s)
  unfolding apply_bios_password with_status
  apply_bios_password-SameApp none s =
      if_SameApp s s.operation _ _ (kept_app s s refl refl refl) (SameApp-of s _ _ refl refl refl)
  apply_bios_password-SameApp (some error) s =
      if_SameApp s s.operation _ _ (kept_app s s refl refl refl)
        (SameApp-of s _ error refl refl refl)

  install_bios_adapter-SameApp :
      (script_error : Option Text) (s : DeviceApp fl)
      → SameApp s (install_bios_adapter script_error s)
  unfolding install_bios_adapter with_status
  install_bios_adapter-SameApp none s = if_SameApp s s.operation _ _ (kept_app s s refl refl refl) (
      if_SameApp s (not (has_adapter_download (provider_of s))) _ _
        (SameApp-of s _ _ refl refl refl) (SameApp-of s _ _ refl refl refl))
  install_bios_adapter-SameApp (some error) s =
      if_SameApp s s.operation _ _ (kept_app s s refl refl refl) (
        if_SameApp s (not (has_adapter_download (provider_of s))) _ _
          (SameApp-of s _ _ refl refl refl) (SameApp-of s _ error refl refl refl))

  restart_into_firmware-SameApp : (s : DeviceApp fl) → SameApp s (restart_into_firmware s)
  unfolding restart_into_firmware clear_passwords with_status
  restart_into_firmware-SameApp s =
      if_SameApp s s.operation _ _ (kept_app s _ refl refl refl) (SameApp-of s _ _ refl refl refl)

  firmware_action-SameApp :
      (adapters : Adapters) (action : PanelAction) (s : DeviceApp fl)
      → SameApp s (firmware_action adapters action s)
  unfolding firmware_action select clear_passwords
  firmware_action-SameApp adapters (select_action action) s =
      if_SameApp s (same_action s.bios_password_action action) _ _ (kept_app s _ refl refl refl)
        (kept_app s _ refl refl refl)
  firmware_action-SameApp adapters (edit_current value) s =
      if_SameApp s (is_create s.bios_password_action) _ _ (kept_app s s refl refl refl)
        (kept_app s _ refl refl refl)
  firmware_action-SameApp adapters (edit_new value) s =
      if_SameApp s (is_disable s.bios_password_action) _ _ (kept_app s s refl refl refl)
        (kept_app s _ refl refl refl)
  firmware_action-SameApp adapters (edit_confirm value) s =
      if_SameApp s (is_disable s.bios_password_action) _ _ (kept_app s s refl refl refl)
        (kept_app s _ refl refl refl)
  firmware_action-SameApp adapters (tick_disable ticked) s =
      if_SameApp s (is_disable s.bios_password_action) _ _ (kept_app s _ refl refl refl)
        (kept_app s s refl refl refl)
  firmware_action-SameApp adapters (apply script_error) s =
      if_SameApp s _ _ s (apply_bios_password-SameApp script_error s) (kept_app s s refl refl refl)
  firmware_action-SameApp adapters clear_clicked s = kept_app s _ refl refl refl
  firmware_action-SameApp adapters (install_adapter script_error) s =
      if_SameApp s _ _ s (install_bios_adapter-SameApp script_error s) (kept_app s s refl refl refl)
  firmware_action-SameApp adapters (tick_restart ticked) s = kept_app s _ refl refl refl
  firmware_action-SameApp adapters restart s =
      if_SameApp s _ _ s (restart_into_firmware-SameApp s) (kept_app s s refl refl refl)
  firmware_action-SameApp adapters refresh s = kept_app s s refl refl refl
  firmware_action-SameApp adapters (reload_clicked health now) s = kept_app s s refl refl refl

  overview_action-SameApp :
      (action : PanelAction) (s : DeviceApp fl) → SameApp s (overview_action action s)
  unfolding overview_action refresh_health reload with_status
  overview_action-SameApp refresh s =
      if_SameApp s s.operation _ _ (kept_app s s refl refl refl) (
        if_SameApp s s.operation _ _ (kept_app s s refl refl refl)
          (SameApp-of s _ _ refl refl refl))
  overview_action-SameApp (reload_clicked health now) s = SameApp-of s _ _ refl refl refl
  overview_action-SameApp (select_action action) s = kept_app s s refl refl refl
  overview_action-SameApp (edit_current value) s = kept_app s s refl refl refl
  overview_action-SameApp (edit_new value) s = kept_app s s refl refl refl
  overview_action-SameApp (edit_confirm value) s = kept_app s s refl refl refl
  overview_action-SameApp (tick_disable ticked) s = kept_app s s refl refl refl
  overview_action-SameApp (tick_restart ticked) s = kept_app s s refl refl refl
  overview_action-SameApp (apply e) s = kept_app s s refl refl refl
  overview_action-SameApp (install_adapter e) s = kept_app s s refl refl refl
  overview_action-SameApp clear_clicked s = kept_app s s refl refl refl
  overview_action-SameApp restart s = kept_app s s refl refl refl

  panel_actions-SameApp :
      (adapters : Adapters) (actions : List PanelAction) (s : DeviceApp fl)
      → SameApp s (panel_actions adapters actions s)
  unfolding panel_actions
  panel_actions-SameApp adapters [] s = kept_app s s refl refl refl
  panel_actions-SameApp adapters (a ∷ actions) s =
      SameApp-trans
        (if_SameApp s (s.tab == 1) (firmware_action adapters a s)
          (if s.tab == 2 then s else overview_action a s) (firmware_action-SameApp adapters a s)
          (if_SameApp s (s.tab == 2) s (overview_action a s) (kept_app s s refl refl refl)
            (overview_action-SameApp a s)))
        (panel_actions-SameApp adapters actions _)

  select_tab-SameApp : (tab : ℕ) (s : DeviceApp fl) → SameApp s (select_tab tab s)
  unfolding select_tab clear_passwords
  select_tab-SameApp tab s =
      if_SameApp s (s.tab == 1 && not (tab == 1)) _ _ (kept_app s _ refl refl refl)
        (kept_app s _ refl refl refl)

  pub open_frame-SameApp :
      (js : Json RecoveryState) (jq : Json RecoveryRequest) (io : FrameIo fl) (s : DeviceApp fl)
      → SameApp s (open_frame js jq io s)
  unfolding open_frame
  open_frame-SameApp js jq io s =
      let fresh : DeviceApp fl =
        if leb (seconds 5) (io.frame_at - s.last_refresh)
        then record s { health = io.health; last_refresh = io.frame_at }
        else s in
      SameApp-trans
        (if_SameApp s (leb (seconds 5) (io.frame_at - s.last_refresh)) _ s
          (kept_app s _ refl refl refl) (kept_app s s refl refl refl))
        (SameApp-trans (poll_operation-SameApp io.received io.reloaded io.reloaded_at fresh) (
          SameApp-trans (select_tab-SameApp io.tab _)
            (panel_actions-SameApp io.adapters io.actions _)))
