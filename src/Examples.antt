-- ===== src/Examples.antt =====
-- The theorems at concrete inputs, and test runs of the definitions.
mod Toy
mod Recovery
mod Service
mod Plan
mod Command
mod SyncToy
mod Sync
mod Storage
mod Lock
mod Download
mod Config
mod Bluescreen
mod Health
mod Runner
mod Desktop
