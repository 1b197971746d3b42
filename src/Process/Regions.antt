-- ===== src/Process/Regions.antt =====
-- src/process.cc: Process::GetRegions.
pub mod Defs
pub mod Termination
pub mod Flat
