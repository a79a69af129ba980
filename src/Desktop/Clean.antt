-- ===== src/Desktop/Clean.antt =====
-- apps/windows-agent/src/ui/panels.rs and app.rs: the rules of a password request and of the fields,
-- over the operations of the panel.
use desktop_mdm.Prelude.{
  if_case, ◌+◌, ◌≡◌, refl, ap, ◌∙◌, Bool, true, false, ◌&&◌, not, Option, none, some, [], ◌++◌,
  arith, ◌==◌, ℕ_eq, Bool_eq, List_eq, Option_eq, All,
}
use desktop_mdm.Text.{Text, chars}
use desktop_mdm.Desktop.App.{
  Floats, DeviceApp, BiosRequest, Received, message, empty, disconnected, OperationEvent, progress,
  finished, poll_operation, with_status, reload, provider_of, clear_passwords, no_fields,
}
use desktop_mdm.Desktop.Password.{
  BiosPasswordAction, create, change, disable, Fields, is_create, is_lenovo, is_manageable,
  is_filled, has_line_break, has_semicolon, lenovo_delimiter, fields_valid, can_apply,
}
use desktop_mdm.Desktop.Panels.{
  same_action, select, apply_bios_password, install_bios_adapter, restart_into_firmware, is_disable,
  has_adapter_download,
}
use desktop_mdm.Health.{DeviceHealth}
use desktop_mdm.LockScreen.{Instant}

-- A request obeys the rules of the panel.
pub record IsRequest (r : BiosRequest) : Type 0 where
  pub manageable : is_manageable r.provider ≡ true
  pub not_lenovo_create : (is_lenovo r.provider && is_create r.action) ≡ false
  pub one_line : has_line_break (r.current ++ r.new) ≡ false
  pub no_delimiter : (is_lenovo r.provider && has_semicolon (r.current ++ r.new)) ≡ false
  pub no_current : is_create r.action ≡ true → r.current ≡ []
  pub no_new : is_disable r.action ≡ true → r.new ≡ []
  pub has_current : is_create r.action ≡ false → (r.current == []) ≡ false
  pub has_new : is_disable r.action ≡ false → (r.new == []) ≡ false

-- Every request that was sent obeys the rules, a password is held only in the fields that the action
-- shows, and only while the tab of the BIOS passwords is open.
pub record IsClean {fl : Floats} (s : DeviceApp fl) : Type 0 where
  pub sent : All IsRequest s.requests
  pub hidden_current : is_create s.bios_password_action ≡ true → s.fields.current_password ≡ []
  pub hidden_new : is_disable s.bios_password_action ≡ true → s.fields.new_password ≡ []
  pub hidden_confirm : is_disable s.bios_password_action ≡ true → s.fields.confirm_password ≡ []
  pub left : (s.tab == 1) ≡ false → s.fields ≡ no_fields

test_of :
    (a p l f b d : Bool)
    → (a && p && not l && (f && not b && not d)) ≡ true
    → (p ≡ true) × (l ≡ false) × (f ≡ true) × (b ≡ false) × (d ≡ false)
test_of a p l f b d h = (ground arith, ground arith, ground arith, ground arith, ground arith)

is_filled-lem :
    (action : BiosPasswordAction) (f : Fields)
    → is_filled action f ≡ true
    → (is_create action ≡ false → (f.current_password == []) ≡ false)
      × (is_disable action ≡ false → (f.new_password == []) ≡ false)
unfolding is_filled is_create is_disable
is_filled-lem create f h = (λ e. absurd cc, λ e. ground arith)
is_filled-lem change f h = (λ e. ground arith, λ e. ground arith)
is_filled-lem disable f h = (λ e. ground arith, λ e. absurd cc)

same_action-create :
    (a b : BiosPasswordAction)
    → same_action a b ≡ true
    → (is_create a ≡ is_create b) × (is_disable a ≡ is_disable b)
unfolding same_action is_create is_disable
same_action-create create create h = (refl, refl)
same_action-create create change h = absurd cc
same_action-create create disable h = absurd cc
same_action-create change create h = absurd cc
same_action-create change change h = (refl, refl)
same_action-create change disable h = absurd cc
same_action-create disable create h = absurd cc
same_action-create disable change h = absurd cc
same_action-create disable disable h = (refl, refl)

module _ {fl : Floats} where
  -- What changes neither the fields, the action, the tab nor the requests.
  pub kept-IsClean :
      (s t : DeviceApp fl)
      → IsClean s
      → t.requests ≡ s.requests
      → t.fields ≡ s.fields
      → t.bios_password_action ≡ s.bios_password_action
      → t.tab ≡ s.tab
      → IsClean t
  kept-IsClean s t h e1 e2 e3 e4 = record {
    sent = rw e1 h.sent;
    hidden_current = rw (e2, e3) h.hidden_current;
    hidden_new = rw (e2, e3) h.hidden_new;
    hidden_confirm = rw (e2, e3) h.hidden_confirm;
    left = rw (e2, e4) h.left;
  }

  pub cleared-IsClean :
      (s t : DeviceApp fl) → IsClean s → t.requests ≡ s.requests → t.fields ≡ no_fields → IsClean t
  cleared-IsClean s t h e1 e2 = record {
    sent = rw e1 h.sent;
    hidden_current = λ e. ap (λ (f : Fields). f.current_password) e2;
    hidden_new = λ e. ap (λ (f : Fields). f.new_password) e2;
    hidden_confirm = λ e. ap (λ (f : Fields). f.confirm_password) e2;
    left = λ e. e2;
  }

  pub poll_operation-IsClean :
      (received : Received (OperationEvent fl)) (health : Option DeviceHealth) (now : Instant)
      (s : DeviceApp fl)
      → IsClean s
      → IsClean (poll_operation received health now s)
  unfolding poll_operation with_status reload
  poll_operation-IsClean (message (progress fraction label)) health now s h =
      if_case IsClean (not s.operation) s _ (λ e. h) (λ e. kept-IsClean s _ h refl refl refl refl)
  poll_operation-IsClean (message (finished result)) health now s h =
      if_case IsClean (not s.operation) s _ (λ e. h) (λ e. kept-IsClean s _ h refl refl refl refl)
  poll_operation-IsClean disconnected health now s h =
      if_case IsClean (not s.operation) s _ (λ e. h) (λ e. kept-IsClean s _ h refl refl refl refl)
  poll_operation-IsClean empty health now s h =
      if_case IsClean (not s.operation) s _ (λ e. h) (λ e. h)

  can_apply-IsRequest :
      (s : DeviceApp fl) (present : Bool)
      → IsClean s
      → can_apply present (provider_of s) s.bios_password_action s.fields ≡ true
      → IsRequest (record {
        provider = provider_of s;
        action = s.bios_password_action;
        current = s.fields.current_password;
        new = s.fields.new_password;
      })
  unfolding can_apply fields_valid lenovo_delimiter
  can_apply-IsRequest s present h enabled =
      let f = s.fields in
      let lenovo = is_lenovo (provider_of s) in
      let (manageable, not_lenovo_create, filled, one_line, no_delimiter) =
        test_of present (is_manageable (provider_of s)) (lenovo && is_create s.bios_password_action)
          (is_filled s.bios_password_action f)
          (has_line_break (f.current_password ++ f.new_password))
          (lenovo && has_semicolon (f.current_password ++ f.new_password)) enabled in
      let (has_current, has_new) = is_filled-lem s.bios_password_action f filled in
      record {
        manageable = manageable;
        not_lenovo_create = not_lenovo_create;
        one_line = one_line;
        no_delimiter = no_delimiter;
        no_current = h.hidden_current;
        no_new = h.hidden_new;
        has_current = has_current;
        has_new = has_new;
      }

  pub apply_bios_password-IsClean :
      (script_error : Option Text) (s : DeviceApp fl) (present : Bool)
      → IsClean s
      → can_apply present (provider_of s) s.bios_password_action s.fields ≡ true
      → IsClean (apply_bios_password script_error s)
  unfolding apply_bios_password with_status
  apply_bios_password-IsClean (some error) s present h enabled =
      if_case IsClean s.operation s _ (λ e. h) (λ e. kept-IsClean s _ h refl refl refl refl)
  apply_bios_password-IsClean none s present h enabled =
      if_case IsClean s.operation s _ (λ e. h)
        (λ e. record {
          sent = (can_apply-IsRequest s present h enabled, h.sent);
          hidden_current = λ x. refl;
          hidden_new = λ x. refl;
          hidden_confirm = λ x. refl;
          left = λ x. refl;
        })

  pub install_bios_adapter-IsClean :
      (script_error : Option Text) (s : DeviceApp fl)
      → IsClean s
      → IsClean (install_bios_adapter script_error s)
  unfolding install_bios_adapter with_status
  install_bios_adapter-IsClean script_error s h =
      if_case IsClean s.operation s _ (λ e. h)
        (λ e.
          if_case IsClean (not (has_adapter_download (provider_of s))) _ _
            (λ e. kept-IsClean s _ h refl refl refl refl) (λ e. by_script script_error))
    where
      by_script :
          (o : Option Text)
          → IsClean (elim o as (λ _. DeviceApp fl) [
            | some error ↦ with_status error s
            | none ↦ record (with_status (chars "Downloading the OEM firmware adapter…") s) {
              operation = true;
              operation_progress = some fl.one_percent;
              operation_label = chars "Preparing download";
              installs = s.installs + 1;
            }
          ])
      by_script none = kept-IsClean s _ h refl refl refl refl
      by_script (some error) = kept-IsClean s _ h refl refl refl refl

  pub restart_into_firmware-IsClean :
      (s : DeviceApp fl) → IsClean s → IsClean (restart_into_firmware s)
  unfolding restart_into_firmware clear_passwords with_status
  restart_into_firmware-IsClean s h =
      if_case IsClean s.operation _ _ (λ e. cleared-IsClean s _ h refl refl)
        (λ e. cleared-IsClean s _ h refl refl)

  pub select-IsClean :
      (action : BiosPasswordAction) (s : DeviceApp fl) → IsClean s → IsClean (select action s)
  unfolding select clear_passwords
  select-IsClean action s h =
      if_case IsClean (same_action s.bios_password_action action) _ _
        (λ e.
          let (c, d) = same_action-create s.bios_password_action action e in
          record {
            sent = h.sent;
            hidden_current = λ x. h.hidden_current (c ∙ x);
            hidden_new = λ x. h.hidden_new (d ∙ x);
            hidden_confirm = λ x. h.hidden_confirm (d ∙ x);
            left = h.left;
          })
        (λ e. cleared-IsClean s _ h refl refl)
