-- ===== src/Tests/Lifecycle.antt =====
-- Runs of several breakpoints.
use master_lib.Base.{◌≡◌, refl, List, [], ◌∷◌}
use master_lib.Host.{arm}
use master_lib.Mach.Memory.{written}
use master_lib.Process.Memory.{read_memory, write_memory}
use master_lib.Breakpoint.{Breakpoint, apply, reset}
use master_lib.Breakpoint.X64Software
use master_lib.Breakpoint.Armv7Software
use master_lib.Breakpoint.Nested.{nest, Succeed, nest-peek, cross, Crosses, cross-peek}
use master_lib.Tests.Machine.{machine, start, machine-MemoryLaws}
use master_lib.Tests.Memory.{on_x64, on_arm, peek}

-- An ARM breakpoint on the bytes from 18 to 21, and an x86 breakpoint in the middle of them.
abbrev overlapping : List Breakpoint
overlapping = record on_arm { address = 18 } ∷ on_x64 ∷ []

overlapping-Succeed : Succeed machine arm peek machine-MemoryLaws overlapping start
unfolding nest apply reset X64Software.apply X64Software.reset Armv7Software.apply
    Armv7Software.reset read_memory write_memory
overlapping-Succeed = (tt, (refl, refl), refl, (refl, (refl, refl), refl, tt))

nest-peek_example : peek (nest machine arm overlapping start) 107 20 ≡ 20
nest-peek_example =
    nest-peek machine arm peek machine-MemoryLaws overlapping start overlapping-Succeed 107 20

same-Crosses : Crosses machine arm peek machine-MemoryLaws on_arm on_arm start
unfolding apply reset Armv7Software.apply Armv7Software.reset read_memory write_memory
same-Crosses = record {
  task = refl;
  address = refl;
  opcode = refl;
  fresh = (tt, tt);
  applied = (refl, refl);
  applied_too = (refl, refl);
  was_reset = refl;
  was_reset_too = refl;
}

cross-peek_example :
    peek (cross machine arm on_arm on_arm start) 107 22
    ≡ written (peek start) 107 20 Armv7Software.arm_opcode 107 22
cross-peek_example =
    cross-peek machine arm peek machine-MemoryLaws on_arm on_arm start same-Crosses 107 22
