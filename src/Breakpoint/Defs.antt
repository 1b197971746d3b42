-- ===== src/Breakpoint/Defs.antt =====
-- The data of src/breakpoint.h and of the classes derived from Breakpoint.
use master_lib.Base.{ℕ, Bool, List, Option}
use master_lib.Process.{Process}

-- The class of a breakpoint, with the members that the class adds.
-- `in_use` is the 32 bits of the int in_use_ as an unsigned number: a negative value is 2^31 or more.
-- Only values from 0 to 3 are ever incremented.
pub data Kind : Type 0 where
  x64_hardware : (in_use : ℕ) → Kind
  x64_software : (original_opcode : List ℕ) → Kind
  armv7_hardware : Kind
  armv7_software : (original_opcode : List ℕ) → Kind
  thumbv7_software : (original_opcode : List ℕ) → Kind

-- A callback is a std::function of the client; it goes by a number here.
pub record Breakpoint : Type 0 where
  pub active : Bool
  pub address : ℕ
  pub proc : Process
  pub callback : Option ℕ
  pub kind : Kind
