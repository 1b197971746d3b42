-- ===== src/MachExc.antt =====
-- src/mach_excServer.c and src/mach_excUser.c: the two ends of the mach_exc protocol.
pub mod Message
pub mod Server
pub mod Client
pub mod Words
pub mod Dispatch
pub mod Preserve
pub mod Layout
pub mod Fits
pub mod Requests
pub mod Rpc
