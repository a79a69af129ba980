-- ===== src/Examples/Storage.antt =====
-- The activity log at a concrete input.
use desktop_mdm.Prelude.{ℕ, true, Option, some, none, List, [], ◌∷◌}
use desktop_mdm.Text.{chars}
use desktop_mdm.Extern.{Json}
use desktop_mdm.Storage.{ApiActivity, ApiActivityEvent, ActivityIo}
use desktop_mdm.Examples.SyncToy.{put, get}

-- A format for logs of one event.
abbrev events_to_vec : ℕ → List ApiActivityEvent → Option (List ℕ)
events_to_vec now (e ∷ []) = some (now ∷ put e.endpoint (put e.request e.response))
events_to_vec now _ = none

abbrev events_from_slice : List ℕ → Option ApiActivity
events_from_slice [] = none
events_from_slice (now ∷ rest) =
    get
      (λ endpoint r.
        get
          (λ request response. some (record {
            recorded_at = now;
            events = record { endpoint = endpoint; request = request; response = response } ∷ [];
          }))
          r)
      rest

abbrev event_json : Json ApiActivity
event_json = record {
  to_vec = λ a. events_to_vec a.recorded_at a.events;
  from_slice = events_from_slice;
}

abbrev event : ApiActivityEvent
event = record {
  endpoint = chars "/api/agent/check-in/";
  request = chars "agent_version=0.1.0";
  response = chars "success";
}

abbrev recording : ActivityIo
recording = record {
  found = true;
  now = 9;
  write = record {
    windows = true;
    dir_created = true;
    temp_created = true;
    acl_set = true;
    temp_written = true;
    temp_synced = true;
    persisted = true;
    dir_synced = true;
  };
}
