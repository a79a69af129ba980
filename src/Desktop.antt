-- ===== src/Desktop.antt =====
-- apps/windows-agent/src/ui, keyboard_guard.rs and single_instance.rs: the desktop app.
pub mod Quote
pub mod Keyboard
pub mod Password
pub mod App
pub mod Panels
pub mod Frame
pub mod Same
pub mod Guarded
pub mod Clean
pub mod Requests
