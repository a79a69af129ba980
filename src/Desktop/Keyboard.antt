-- ===== src/Desktop/Keyboard.antt =====
-- apps/windows-agent/src/keyboard_guard.rs and apps/windows-agent/src/single_instance.rs: the
-- keyboard hook and the mutex of the desktop process.
use desktop_mdm.Prelude.{
  Bool, true, false, ◌&&◌, not, if◌then◌else◌, ℕ_eq, Bool_eq, List_eq, Option_eq,
}

-- LOCK_ACTIVE, INSTALLED and FIRED.
pub record Guard : Type 0 where
  pub lock_active : Bool
  pub installed : Bool
  pub fired : Bool

unfoldable pub set_locked : Bool → Guard → Guard
set_locked active guard = record guard { lock_active = active }

-- `install`: whether this call starts the thread of the hook.
unfoldable pub install : Guard → Bool × Guard
install guard = (not guard.installed, record guard { installed = true })

-- `hook_proc`, for a code that is not negative or is: whether the key is swallowed.
unfoldable pub hook_proc : Bool → Guard → Bool × Guard
hook_proc is_action guard =
    if is_action && guard.lock_active then (true, record guard { fired = true }) else (false, guard)

-- What creating the mutex gives.
pub data Mutex : Type 0 where
  created exists access_denied failed : Mutex

unfoldable pub already_running : Mutex → Bool
already_running created = false
already_running exists = true
already_running access_denied = true
already_running failed = false
