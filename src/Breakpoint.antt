-- ===== src/Breakpoint.antt =====
-- src/breakpoint.h: the abstract class Breakpoint and its virtual functions, with the classes of
-- src/x64 and src/armv7 as its kinds. The pointer proc_ is a value: the breakpoints read only the
-- task of the process, which no function changes.
mod Defs
pub mod X64Software
pub mod X64Hardware
pub mod Armv7Software
pub mod RoundTrip
pub mod Software
pub mod Nested
pub mod Steady
pub use Defs.{
  Kind, x64_hardware, x64_software, armv7_hardware, armv7_software, thumbv7_software, Breakpoint,
}
use master_lib.Base.{◌%◌, ◌^◌, ℕ, Bool, false, not, List, [], Option, none, some, ◌==◌, get_or}
use master_lib.Host.{Target}
use master_lib.Mach.{Kernel, to_bool}
use master_lib.Process.{Process}

abbrev set_callback : Breakpoint → Option ℕ → Breakpoint
set_callback b callback = record b { callback = callback }

module _ {W : Type 0} (k : Kernel W) where
  -- The constructors: no one assigns active_, nor x86_64HardwareBreakpoint in_use_. The standard leaves
  -- the behaviour undefined when such a member is read; here a read gives the value that its storage
  -- happens to hold, which is any.
  base : Process → ℕ → Kind → W → Breakpoint
  base proc address kind w = record {
    active = to_bool (get_or (k.indeterminate 1 w) 0 0);
    address = address;
    proc = proc;
    callback = none;
    kind = kind;
  }

  abbrev new_x64_hardware : Process → ℕ → W → Breakpoint
  unfolding base
  new_x64_hardware proc address w =
      base proc address (x64_hardware (get_or (k.indeterminate 1 w) 0 0 % 2 ^ 32)) w

  abbrev new_x64_software : Process → ℕ → W → Breakpoint
  unfolding base
  new_x64_software proc address w = base proc address (x64_software []) w

  abbrev new_armv7_hardware : Process → ℕ → W → Breakpoint
  unfolding base
  new_armv7_hardware proc address w = base proc address armv7_hardware w

  abbrev new_armv7_software : Process → ℕ → W → Breakpoint
  unfolding base
  new_armv7_software proc address w = base proc address (armv7_software []) w

  abbrev new_thumbv7_software : Process → ℕ → W → Breakpoint
  unfolding base
  new_thumbv7_software proc address w = base proc address (thumbv7_software []) w

  -- The virtual functions. Those of ARMv7HardwareBreakpoint return false and do nothing.
  apply_kind : Target → Kind → Breakpoint → W → Bool × Breakpoint × W
  unfolding X64Hardware.apply X64Software.apply Armv7Software.apply Armv7Software.apply_thumb
  apply_kind t (x64_hardware in_use) b w = X64Hardware.apply k t b in_use w
  apply_kind t (x64_software saved) b w = X64Software.apply k b saved w
  apply_kind t armv7_hardware b w = (false, b, w)
  apply_kind t (armv7_software saved) b w = Armv7Software.apply k b w
  apply_kind t (thumbv7_software saved) b w = Armv7Software.apply_thumb k b w

  reset_kind : Target → Kind → Breakpoint → W → Bool × Breakpoint × W
  unfolding X64Hardware.reset X64Software.reset Armv7Software.reset Armv7Software.reset_thumb
  reset_kind t (x64_hardware in_use) b w = X64Hardware.reset k t b w
  reset_kind t (x64_software saved) b w = X64Software.reset k b saved w
  reset_kind t armv7_hardware b w = (false, b, w)
  reset_kind t (armv7_software saved) b w = Armv7Software.reset k b saved w
  reset_kind t (thumbv7_software saved) b w = Armv7Software.reset_thumb k b saved w

  unfoldable pub apply : Target → Breakpoint → W → Bool × Breakpoint × W
  unfolding apply_kind
  apply t b w = apply_kind t b.kind b w

  unfoldable pub reset : Target → Breakpoint → W → Bool × Breakpoint × W
  unfolding reset_kind
  reset t b w = reset_kind t b.kind b w
