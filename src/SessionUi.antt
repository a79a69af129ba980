-- ===== src/SessionUi.antt =====
-- apps/windows-agent/src/agent/session_ui.rs: the start of the desktop UI in the session of the
-- signed-in user. What the calls of Windows give is a parameter.
use desktop_mdm.Prelude.{
  ℕ, ◌-◌, ◌^◌, Bool, true, false, ◌&&◌, not, Option, some, List, if◌then◌else◌, ◌==◌, ℕ_eq, Bool_eq,
  List_eq, Option_eq, any,
}
use desktop_mdm.Prelude.Result.{Result, ok, err}
use desktop_mdm.Text.{Text, chars}
use desktop_mdm.Text.Ascii.{eq_ignore_ascii_case}

abbrev ui_exe : Text
ui_exe = chars "emi-device-ui.exe"

-- A running process: its name and its session, where that can be read.
pub record Process : Type 0 where
  pub name : Text
  pub session : Option ℕ

pub data LaunchError : Type 0 where
  no_executable no_environment no_process : LaunchError

-- The console session, the processes, whether it gives a user's token, and the outcomes of the calls
-- that start a process.
pub record Console : Type 0 where
  pub session : ℕ
  pub processes : List Process
  pub has_token : Bool
  pub executable_found : Bool
  pub environment_built : Bool
  pub process_created : Bool

unfoldable pub is_ui_process : ℕ → Process → Bool
is_ui_process session process =
    eq_ignore_ascii_case process.name ui_exe && process.session == some session

unfoldable pub ui_running_in_session : ℕ → List Process → Bool
unfolding is_ui_process
ui_running_in_session session processes = any (is_ui_process session) processes

unfoldable pub launch_as_user : Console → Result LaunchError (Unit {0})
launch_as_user console =
    if not console.executable_found
    then err no_executable
    else if not console.environment_built
    then err no_environment
    else if console.process_created
    then ok tt
    else err no_process

-- `ok false` is a console without a user.
unfoldable pub ensure_ui_running : Console → Result LaunchError Bool
unfolding ui_running_in_session launch_as_user
ensure_ui_running console =
    if console.session == 2 ^ 32 - 1
    then ok false
    else if ui_running_in_session console.session console.processes
    then ok true
    else if not console.has_token
    then ok false
    else elim (launch_as_user console) [ ok u ↦ ok true | err x ↦ err x ]

-- Whether the call starts a process.
unfoldable pub starts_ui : Console → Bool
unfolding ui_running_in_session launch_as_user
starts_ui console =
    not (console.session == 2 ^ 32 - 1)
    && not (ui_running_in_session console.session console.processes)
    && console.has_token
    && elim (launch_as_user console) [ ok u ↦ true | err x ↦ false ]
