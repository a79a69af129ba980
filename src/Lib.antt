-- ===== src/Lib.antt =====
-- Verification of the managed Windows EMI agent: a workspace of the crate emi-core (crates/emi-core)
-- and the Windows agent (apps/windows-agent).
--
-- The agent runs as a service beside a desktop UI. The service checks in with the admin API, applies
-- the lock state and the signed commands that it reports, and answers offline unlock tokens that the
-- locked UI puts into a mailbox file. All security state is in JSON files that are replaced
-- atomically under a lock. Times are nanoseconds from chrono's least instant, UUIDs are their sixteen
-- bytes, and a text is the list of its Unicode scalar values.
--
-- Parts and files:
--   Prelude, Text       helpers: tests, equality, lists, results, integers; texts, trimming, ASCII
--                       case, decimal and radix numbers, UTF-8.
--   Extern              the crates ed25519-dalek, base64 and serde_json as records of functions; the
--                       records named Is... state what is relied on, and each theorem names them.
--   Recovery            crates/emi-core/src/recovery.rs: UnlockToken::payload (Recovery/Token),
--                       verify_unlock (Recovery/Verify), parse_public_key_hex (Recovery/Key),
--                       read_counter and record_counter (Recovery/Counter). A u64 or i64 is a number
--                       with its bound where one is needed, and parsing and byte order keep the width.
--   Plan                crates/emi-core/src/lib.rs: EmiPlan::new, try_from, is_complete.
--   StateStore          apps/windows-agent/src/state_store.rs: write_json and lock. Each system call
--                       is a Boolean outcome, so that a theorem covers every failure.
--   RecoveryService     apps/windows-agent/src/recovery_service.rs: validate_public_key, provision and
--                       process as functions of the mailbox file and the state file; History runs
--                       them in any order.
--   Api                 the messages of apps/windows-agent/src/agent_api.rs.
--   Command             apps/windows-agent/src/command_security.rs: the verification of a command
--                       patch and the replay ledger; the set of nonces is a list.
--   Storage             apps/windows-agent/src/agent/storage.rs: the activity log and the enrolment
--                       status.
--   RemoteSync          apps/windows-agent/src/agent/remote_sync.rs: synchronize_remote_state over the
--                       remote-state file, the activity log and the acknowledgements sent; Server
--                       holds the answers of the API, Machine the clock readings and the outcome of
--                       each input and output; Ledger runs synchronizations in any number.
--   Api/Client          AgentApi::new, verify_patch_download and the reading of responses; the crate url
--                       and the transport are parameters. The HTTP client follows redirects by
--                       default; they are part of what it returns for a request.
--   LockScreen          apps/windows-agent/src/ui/lock.rs and sync_remote_lock_state of ui/app.rs:
--                       the fields of DeviceApp that the lock uses, and what it does to the mailbox.
--   Config              apps/windows-agent/src/agent/config.rs: initialize over config.json, its
--                       backups and ui-config.json; trust_command_key. The search for a backup name
--                       has the 65536 steps of its range.
--   Enrollment          apps/windows-agent/src/agent/enrollment.rs: check_or_enroll_config over the
--                       configuration files, the status file and the activity log; the answers of
--                       the server and the serial of the BIOS are parameters.
--   Bluescreen          apps/windows-agent/src/bluescreen.rs: the page, read_headers, headers_allowed
--                       (Bluescreen/Allowed), serve, and the worker over the connections it accepts
--                       (Bluescreen/Worker); what a socket gives is a list of reads. The reading
--                       loop has one unit of fuel for each read, and each turn of it takes one read.
--   Health              apps/windows-agent/src/agent/health.rs: the reading of what the commands of
--                       Windows print, and write_health_snapshot.
--   SessionUi           apps/windows-agent/src/agent/session_ui.rs: when the desktop UI is started.
--   Runner              apps/windows-agent/src/agent/runner.rs and service.rs: the rounds of run over
--                       the agent's files, its deadlines and flags, the control handler
--                       (Runner/Service) and the recovery worker. A check-in is recorded with the
--                       instant at which it is sent, once synchronize_remote_state holds
--                       command.lock, and with the outcome of the synchronization.
--   Desktop             apps/windows-agent/src/ui/app.rs, ui/panels.rs, ui/system.rs,
--                       keyboard_guard.rs and single_instance.rs: DeviceApp::load and update, the
--                       password panel, the argument list of run_elevated_script, the keyboard hook.
--                       The f32 of a progress is a parameter; a worker thread is a flag, and its
--                       messages are inputs. Each request to the Task Manager policy is a field.
--   LockScreen/Entry    the on-screen keyboard, suppress_keyboard and render_blue_screen of lock.rs.
--   Examples            concrete functions for the parameters, test runs, and the theorems applied at
--                       concrete inputs.
--
-- How they interact: Runner calls Config, Enrollment, RemoteSync, Health, RecoveryService and
-- SessionUi in turn, Desktop calls LockScreen, RecoveryService calls Recovery and StateStore, and
-- RemoteSync calls Command, Storage and StateStore. The desktop app and the service meet in the
-- remote-state file and the two recovery files. The functions are structural recursions.
-- Text.Number.decimal prints at most twenty digits, which is enough for every u64
-- (parse_unsigned-to_string in that file), and UTF-8 decoding takes one unit of fuel for each byte.
--
-- Not modelled: drawing with egui, the calls of Windows themselves (services, sessions, registry,
-- hooks, DPAPI), the PowerShell commands that the worker threads run, the dispatch of the command
-- line (main.rs), HTTP transport and TLS, Argon2 (verify_unlock_word), the QR image, logging, and
-- error texts beyond those that the program shows, sends or stores. Their outcomes are parameters
-- where modelled code depends on them.
pub mod Api
pub mod Bluescreen
pub mod Command
pub mod Config
pub mod Desktop
pub mod Enrollment
pub mod Examples
pub mod Extern
pub mod Health
pub mod LockScreen
pub mod Plan
pub mod Prelude
pub mod Recovery
pub mod RecoveryService
pub mod RemoteSync
pub mod Runner
pub mod SessionUi
pub mod StateStore
pub mod Storage
pub mod Text
