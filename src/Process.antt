-- ===== src/Process.antt =====
-- src/process.h, src/process.cc: the class Process. `name` is the bytes of the std::string.
-- A Process is a value here: only `paused` ever changes, and no other class reads it.
pub mod Memory
pub mod Protection
pub mod Listing
pub mod Threads
pub mod Regions
pub mod Steady
pub mod Lookup
pub mod Named
pub mod Others
use master_lib.Base.{ℕ, Bool, List}

pub record Process : Type 0 where
  pub pid : ℕ
  pub name : List ℕ
  pub task : ℕ
  pub paused : Bool
