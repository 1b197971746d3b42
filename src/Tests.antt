-- ===== src/Tests.antt =====
-- Runs of the definitions on concrete inputs.
pub mod Machine
pub mod Memory
pub mod Debug
pub mod Handlers
pub mod Exceptions
pub mod Lookups
pub mod Messages
pub mod Daemon
pub mod Registers
pub mod Lifecycle
pub mod Debugger
pub mod Capstone
