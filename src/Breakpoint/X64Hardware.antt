-- ===== src/Breakpoint/X64Hardware.antt =====
-- src/x64/breakpoint_x64.cc: x86_64HardwareBreakpoint.
pub mod Dr7
pub mod Slots
pub mod SlotLaws
pub mod Count
pub mod Arming
pub mod Disarming
pub mod Rounds
pub mod Armed
use master_lib.Base.{
  ℕ, suc, ◌+◌, Bool, true, false, List, [], ◌∷◌, Option, none, some, Option-cases, inl, inr,
}
use master_lib.Host.{Target}
use master_lib.Mach.{Kernel}
use master_lib.Process.Threads.{threads}
use master_lib.ThreadState.{ThreadState}
use master_lib.ThreadState.X64
use master_lib.Breakpoint.Defs.{Breakpoint, x64_hardware}
use Slots.{DebugState, of_words, to_words, arm_slot, find_slot, disarm_slot}

module _ {W : Type 0} (k : Kernel W) where
  -- `state->Save()` with the changed debug registers
  unfoldable pub save_debug : ThreadState → DebugState → W → W
  save_debug s d w = (X64.save k (record s { debug_state = to_words d }) w).1

  -- the loop of Apply; `in_use` is in_use_, which counts up in every round
  unfoldable pub apply_loop : List ThreadState → Breakpoint → ℕ → W → Bool × Breakpoint × W
  unfolding save_debug
  apply_loop [] b in_use w = (true, b, w)
  apply_loop (s ∷ rest) b in_use w =
      let (_, loaded, w') = X64.load k s w in
      elim (arm_slot in_use b.address (of_words loaded.debug_state)) [
        | none ↦ (false, b, w')
        | some d ↦
            apply_loop rest (record b { active = true; kind = x64_hardware (in_use + 1) })
              (in_use + 1) (save_debug loaded d w')
      ]

  unfoldable pub apply : Target → Breakpoint → ℕ → W → Bool × Breakpoint × W
  unfolding apply_loop
  apply t b in_use w =
      let (self, w1) = k.mach_thread_self w in
      let (states, w2) = threads k t b.proc self w1 in apply_loop states b in_use w2

  -- the loop of Reset
  unfoldable pub reset_loop : List ThreadState → Breakpoint → W → Bool × Breakpoint × W
  unfolding save_debug
  reset_loop [] b w = (true, b, w)
  reset_loop (s ∷ rest) b w =
      let (_, loaded, w') = X64.load k s w in
      let d = of_words loaded.debug_state in
      elim (find_slot b.address d) [
        | none ↦ reset_loop rest b w'
        | some index ↦
            reset_loop rest (record b { active = false })
              (save_debug loaded (disarm_slot index d) w')
      ]

  unfoldable pub reset : Target → Breakpoint → W → Bool × Breakpoint × W
  unfolding reset_loop
  reset t b w =
      let (self, w1) = k.pthread_mach_thread w in
      let (states, w2) = threads k t b.proc self w1 in reset_loop states b w2
