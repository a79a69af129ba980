-- ===== src/Desktop/Requests.antt =====
-- apps/windows-agent/src/ui/panels.rs and app.rs: what reaches a password script, and the passwords
-- that the app holds, over its frames.
use desktop_mdm.Prelude.{
  if_case, ℕ, ◌-◌, ◌≡◌, refl, Bool, true, false, ◌&&◌, not, Option, List, [], ◌∷◌, arith, leb,
  if◌then◌else◌, ◌==◌, ℕ_eq, Bool_eq, List_eq, Option_eq,
}
use desktop_mdm.Desktop.App.{
  Floats, DeviceApp, Received, message, empty, disconnected, with_status, reload, provider_of,
  clear_passwords, poll_service_probe, load,
}
use desktop_mdm.Desktop.Password.{Adapters, bios_adapter_status, is_create, can_apply}
use desktop_mdm.Desktop.Panels.{
  PanelAction, select_action, edit_current, edit_new, edit_confirm, tick_disable, tick_restart,
  apply, install_adapter, clear_clicked, restart, refresh, reload_clicked, refresh_health,
  is_disable, has_adapter_download, firmware_action, overview_action, panel_actions, select_tab,
}
use desktop_mdm.Desktop.Frame.{FrameIo, open_frame, poll_frame, locked_frame, update, frames}
use desktop_mdm.Health.{DeviceHealth}
use desktop_mdm.Desktop.Keyboard.{Guard}
use desktop_mdm.LockScreen.{Instant, seconds}
use desktop_mdm.Api.{PersistedRemoteState}
use desktop_mdm.RecoveryService.{RecoveryRequest, RecoveryState}
use desktop_mdm.Extern.{Json}
use desktop_mdm.StateStore.{File}
use desktop_mdm.Desktop.Clean.{
  IsClean, kept-IsClean, cleared-IsClean, poll_operation-IsClean, apply_bios_password-IsClean,
  install_bios_adapter-IsClean, restart_into_firmware-IsClean, select-IsClean,
}

still_left : (a b : Bool) → (a && not b) ≡ false → b ≡ false → a ≡ false
still_left a b h e = ground arith

module _ {fl : Floats} where
  firmware_action-IsClean :
      (adapters : Adapters) (action : PanelAction) (s : DeviceApp fl)
      → IsClean s
      → (s.tab == 1) ≡ true
      → IsClean (firmware_action adapters action s)
  unfolding firmware_action clear_passwords
  firmware_action-IsClean adapters (select_action action) s h tab = select-IsClean action s h
  firmware_action-IsClean adapters (edit_current value) s h tab =
      if_case IsClean (is_create s.bios_password_action) s _ (λ e. h)
        (λ e. record {
          sent = h.sent;
          hidden_current = λ x. absurd cc;
          hidden_new = h.hidden_new;
          hidden_confirm = h.hidden_confirm;
          left = λ x. absurd cc;
        })
  firmware_action-IsClean adapters (edit_new value) s h tab =
      if_case IsClean (is_disable s.bios_password_action) s _ (λ e. h)
        (λ e. record {
          sent = h.sent;
          hidden_current = h.hidden_current;
          hidden_new = λ x. absurd cc;
          hidden_confirm = h.hidden_confirm;
          left = λ x. absurd cc;
        })
  firmware_action-IsClean adapters (edit_confirm value) s h tab =
      if_case IsClean (is_disable s.bios_password_action) s _ (λ e. h)
        (λ e. record {
          sent = h.sent;
          hidden_current = h.hidden_current;
          hidden_new = h.hidden_new;
          hidden_confirm = λ x. absurd cc;
          left = λ x. absurd cc;
        })
  firmware_action-IsClean adapters (tick_disable ticked) s h tab =
      if_case IsClean (is_disable s.bios_password_action) _ s
        (λ e. record {
          sent = h.sent;
          hidden_current = h.hidden_current;
          hidden_new = h.hidden_new;
          hidden_confirm = h.hidden_confirm;
          left = λ x. absurd cc;
        })
        (λ e. h)
  firmware_action-IsClean adapters (apply script_error) s h tab =
      let present = (bios_adapter_status adapters (provider_of s)).0 in
      if_case IsClean
        (can_apply present (provider_of s) s.bios_password_action s.fields && not s.operation) _ s
        (λ e. apply_bios_password-IsClean script_error s present h (ground arith)) (λ e. h)
  firmware_action-IsClean adapters clear_clicked s h tab = cleared-IsClean s _ h refl refl
  firmware_action-IsClean adapters (install_adapter script_error) s h tab =
      if_case IsClean (has_adapter_download (provider_of s) && not s.operation) _ s
        (λ e. install_bios_adapter-IsClean script_error s h) (λ e. h)
  firmware_action-IsClean adapters (tick_restart ticked) s h tab =
      kept-IsClean s _ h refl refl refl refl
  firmware_action-IsClean adapters restart s h tab =
      if_case IsClean (s.confirm_firmware_restart && not s.operation) _ s
        (λ e. restart_into_firmware-IsClean s h) (λ e. h)
  firmware_action-IsClean adapters refresh s h tab = h
  firmware_action-IsClean adapters (reload_clicked health now) s h tab = h

  overview_action-IsClean :
      (action : PanelAction) (s : DeviceApp fl) → IsClean s → IsClean (overview_action action s)
  unfolding overview_action refresh_health reload with_status
  overview_action-IsClean refresh s h =
      if_case IsClean s.operation s _ (λ e. h)
        (λ e.
          if_case IsClean s.operation s _ (λ e. h) (λ e. kept-IsClean s _ h refl refl refl refl))
  overview_action-IsClean (reload_clicked health now) s h = kept-IsClean s _ h refl refl refl refl
  overview_action-IsClean (select_action action) s h = h
  overview_action-IsClean (edit_current value) s h = h
  overview_action-IsClean (edit_new value) s h = h
  overview_action-IsClean (edit_confirm value) s h = h
  overview_action-IsClean (tick_disable ticked) s h = h
  overview_action-IsClean (tick_restart ticked) s h = h
  overview_action-IsClean (apply e) s h = h
  overview_action-IsClean (install_adapter e) s h = h
  overview_action-IsClean clear_clicked s h = h
  overview_action-IsClean restart s h = h

  panel_actions-IsClean :
      (adapters : Adapters) (actions : List PanelAction) (s : DeviceApp fl)
      → IsClean s
      → IsClean (panel_actions adapters actions s)
  unfolding panel_actions
  panel_actions-IsClean adapters [] s h = h
  panel_actions-IsClean adapters (a ∷ actions) s h = panel_actions-IsClean adapters actions _ (
      if_case IsClean (s.tab == 1) (firmware_action adapters a s)
        (if s.tab == 2 then s else overview_action a s)
        (λ e. firmware_action-IsClean adapters a s h e)
        (λ e.
          if_case IsClean (s.tab == 2) s (overview_action a s) (λ e2. h)
            (λ e2. overview_action-IsClean a s h)))

  select_tab-IsClean : (tab : ℕ) (s : DeviceApp fl) → IsClean s → IsClean (select_tab tab s)
  unfolding select_tab clear_passwords
  select_tab-IsClean tab s h =
      if_case IsClean (s.tab == 1 && not (tab == 1)) _ _ (λ e. cleared-IsClean s _ h refl refl)
        (λ e. record {
          sent = h.sent;
          hidden_current = h.hidden_current;
          hidden_new = h.hidden_new;
          hidden_confirm = h.hidden_confirm;
          left = λ x. h.left (still_left (s.tab == 1) (tab == 1) e x);
        })

module _ {fl : Floats} (js : Json RecoveryState) (jq : Json RecoveryRequest) where
  open_frame-IsClean :
      (io : FrameIo fl) (s : DeviceApp fl) → IsClean s → IsClean (open_frame js jq io s)
  unfolding open_frame
  open_frame-IsClean io s h = panel_actions-IsClean io.adapters io.actions _ (
      select_tab-IsClean io.tab _ (
        poll_operation-IsClean io.received io.reloaded io.reloaded_at _ (
          if_case IsClean (leb (seconds 5) (io.frame_at - s.last_refresh)) _ s
            (λ e. kept-IsClean s _ h refl refl refl refl) (λ e. h))))

  poll_service_probe-IsClean :
      (probed : Received Bool) (s : DeviceApp fl)
      → IsClean s
      → IsClean (poll_service_probe probed s)
  unfolding poll_service_probe
  poll_service_probe-IsClean (message running) s h =
      if_case IsClean (not s.service_probe) s _ (λ e. h)
        (λ e. kept-IsClean s _ h refl refl refl refl)
  poll_service_probe-IsClean disconnected s h =
      if_case IsClean (not s.service_probe) s _ (λ e. h)
        (λ e. kept-IsClean s _ h refl refl refl refl)
  poll_service_probe-IsClean empty s h = if_case IsClean (not s.service_probe) s _ (λ e. h) (λ e. h)

  update-IsClean :
      (io : FrameIo fl) (s : DeviceApp fl) (mailbox : File)
      → IsClean s
      → IsClean (update js jq io (s, mailbox)).0
  unfolding update poll_frame locked_frame
  update-IsClean io s mailbox h =
      let p = poll_frame js jq io s in
      let polled : IsClean p.1 =
        kept-IsClean _ _
          (poll_service_probe-IsClean io.probed _ (kept-IsClean s _ h refl refl refl refl)) refl
          refl refl refl in
      if_case (λ (x : DeviceApp fl × File). IsClean x.0) p.0 (locked_frame js jq io (p.1, mailbox))
        (open_frame js jq io p.1, mailbox) (λ e. kept-IsClean p.1 _ polled refl refl refl refl)
        (λ e. open_frame-IsClean io p.1 polled)

  frames_from-IsClean :
      (ios : List (FrameIo fl)) (s : DeviceApp fl) (mailbox : File)
      → IsClean s
      → IsClean (frames js jq ios (s, mailbox)).0
  unfolding frames
  frames_from-IsClean [] s mailbox h = h
  frames_from-IsClean (io ∷ ios) s mailbox h =
      let r = update js jq io (s, mailbox) in
      frames_from-IsClean ios r.0 r.1 (update-IsClean io s mailbox h)

  -- Whatever the user clicks and types in any frames from `DeviceApp::load` on, every request that
  -- reaches the password script is for a maker that can be managed and for Lenovo is no first
  -- password, has no line break or NUL and for Lenovo no semicolon, and has a current password exactly
  -- where the action changes or removes one and a new one exactly where it sets one; no hidden
  -- password field holds one, and no password stays while another tab is open.
  pub frames-IsClean :
      (is_admin is_shell : Bool) (remote : Option PersistedRemoteState)
      (health : Option DeviceHealth) (now : Instant) (guard : Guard) (ios : List (FrameIo fl))
      (mailbox : File)
      → IsClean (frames js jq ios (load is_admin is_shell remote health now guard, mailbox)).0
  unfolding load
  frames-IsClean is_admin is_shell remote health now guard ios mailbox =
      frames_from-IsClean ios (load is_admin is_shell remote health now guard) mailbox (record {
        sent = tt;
        hidden_current = λ e. refl;
        hidden_new = λ e. refl;
        hidden_confirm = λ e. refl;
        left = λ e. refl;
      })
