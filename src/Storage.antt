-- ===== src/Storage.antt =====
-- apps/windows-agent/src/agent/storage.rs: the files that the agent shares with the desktop UI.
use desktop_mdm.Prelude.{
  ℕ, ◌-◌, Bool, false, Option, none, some, List, [], ◌∷◌, ◌++◌, ltb, if◌then◌else◌, length, drop,
}
use desktop_mdm.Text.{Text}
use desktop_mdm.Recovery.Verify.{Time}
use desktop_mdm.Extern.{Json}
use desktop_mdm.StateStore.{File, WriteIo, write_json}
use desktop_mdm.StateStore.Stored.{stored}

pub record ApiActivityEvent : Type 0 where
  pub endpoint : Text
  pub request : Text
  pub response : Text

pub record ApiActivity : Type 0 where
  pub recorded_at : Time
  pub events : List ApiActivityEvent

pub record EnrollmentStatus : Type 0 where
  pub checked_at : Time
  pub device_serial_no : Text
  pub enrolled : Option Bool
  pub status : Option Text
  pub error : Option Text

abbrev pub max_events : ℕ
max_events = 8

-- The outcome of `data_dir`, the clock, and the write.
pub record ActivityIo : Type 0 where
  pub found : Bool
  pub now : Time
  pub write : WriteIo

-- `write_json_safely` on a file other than config.json.
unfoldable pub write_json_safely : {A : Type 0} → Json A → WriteIo → File → A → File
write_json_safely j io file value = (write_json j io file value false).1

-- `drain(..excess)` once there are more than `max_events`.
unfoldable pub keep_latest : List ApiActivityEvent → List ApiActivityEvent
keep_latest events =
    if ltb max_events (length events) then drop (length events - max_events) events else events

unfoldable pub earlier_events : Json ApiActivity → File → List ApiActivityEvent
earlier_events j file = elim (stored j file) as (λ _. List ApiActivityEvent) [
  | none ↦ []
  | some activity ↦ activity.events
]

abbrev pub activity_of : Time → List ApiActivityEvent → ApiActivity
activity_of now events = record { recorded_at = now; events = keep_latest events }

unfoldable pub record_api_activity : Json ApiActivity → ActivityIo → File → ApiActivityEvent → File
unfolding write_json_safely
record_api_activity j io file event =
    if io.found
    then write_json_safely j io.write file
        (activity_of io.now (earlier_events j file ++ event ∷ []))
    else file

unfoldable pub record_enrollment_status :
    Json EnrollmentStatus → ActivityIo → File → EnrollmentStatus → File
unfolding write_json_safely
record_enrollment_status j io file status =
    if io.found then write_json_safely j io.write file status else file

unfoldable pub read_enrollment_status :
    Json EnrollmentStatus → Bool → File → Option EnrollmentStatus
read_enrollment_status j found file = if found then stored j file else none
