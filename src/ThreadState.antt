-- ===== src/ThreadState.antt =====
-- src/thread_state.h and the four classes derived from ThreadState: the virtual functions.
mod Defs
pub mod Registers
pub mod X64
pub mod X86
pub mod Armv7
pub mod Aarch64
pub mod Steady
pub mod Lookup
pub mod Names
pub mod Bytes
pub mod Access
pub mod Description
pub mod Persistence
pub use Defs.{
  Arch, x64, x86, armv7, aarch64, Location, word, cpsr, pad, Register, register, ThreadState, codes,
}
use master_lib.Base.{ℕ, Bool, List}
use master_lib.Mach.{Kernel}

-- The registers that Load appends.
unfoldable pub table : Arch → List Register
table x64 = X64.register_table
table x86 = X86.register_table
table armv7 = Armv7.register_table
table aarch64 = Aarch64.register_table

address_of : Arch → ThreadState → ℕ
unfolding X64.current_address X86.current_address Armv7.current_address Aarch64.current_address
address_of x64 s = X64.current_address s
address_of x86 s = X86.current_address s
address_of armv7 s = Armv7.current_address s
address_of aarch64 s = Aarch64.current_address s

unfoldable pub current_address : ThreadState → ℕ
unfolding address_of
current_address s = address_of s.arch s

module _ {W : Type 0} (k : Kernel W) where
  load_arch : Arch → ThreadState → W → Bool × ThreadState × W
  unfolding X64.load X86.load Armv7.load Aarch64.load
  load_arch x64 s w = X64.load k s w
  load_arch x86 s w = X86.load k s w
  load_arch armv7 s w = Armv7.load k s w
  load_arch aarch64 s w = Aarch64.load k s w

  unfoldable pub load : ThreadState → W → Bool × ThreadState × W
  unfolding load_arch
  load s w = load_arch s.arch s w

  save_arch : Arch → ThreadState → W → Bool × W
  unfolding X64.save X86.save Armv7.save Aarch64.save
  save_arch x64 s w = X64.save k s w
  save_arch x86 s w = X86.save k s w
  save_arch armv7 s w = Armv7.save k s w
  save_arch aarch64 s w = Aarch64.save k s w

  unfoldable pub save : ThreadState → W → Bool × W
  unfolding save_arch
  save s w = save_arch s.arch s w
