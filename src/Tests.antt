-- ===== src/Tests.antt =====
-- Tests of the definitions, and the theorems at concrete inputs.
mod Interpreter
mod DeviceFilter
mod Settings
mod Parse
mod Actions
mod Groups
mod Gathering
mod Metrics
mod Events
mod Systemd
