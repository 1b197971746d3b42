-- ===== src/Breakpoint/X64Hardware/Count.antt =====
-- When x86_64HardwareBreakpoint::Apply finds a free debug register.
use master_lib.Base.{ℕ, ◌+◌, ◌≤◌, ◌<◌, ◌≡◌, ap, ◌∙◌, true, false, List, [], ◌∷◌, arith, length}
use master_lib.Host.{Target}
use master_lib.Mach.{Kernel}
use master_lib.Process.Threads.{threads}
use master_lib.ThreadState.{ThreadState}
use master_lib.ThreadState.X64
use master_lib.Breakpoint.Defs.{Breakpoint, x64_hardware}
use master_lib.Breakpoint.X64Hardware.{apply_loop, save_debug}
use master_lib.Breakpoint.X64Hardware.Slots.{of_words}
use master_lib.Breakpoint.X64Hardware.SlotLaws.{armed, arm_slot-armed, arm_slot-none}

module _ {W : Type 0} (k : Kernel W) where
  -- The threads that `Apply` goes through.
  abbrev pub other_threads : Target → Breakpoint → W → List ThreadState
  other_threads t b w = let (self, w1) = k.mach_thread_self w in (threads k t b.proc self w1).0

  -- One round with a free register.
  pub apply_loop-cons :
      (s : ThreadState) (ss : List ThreadState) (b : Breakpoint) (in_use : ℕ) (w : W)
      → in_use < 4
      → let (_, loaded, w') = X64.load k s w in
        apply_loop k (s ∷ ss) b in_use w
        ≡ apply_loop k ss
            (record b { active = true; kind = x64_hardware (in_use + 1) })
            (in_use + 1)
            (save_debug k loaded (armed in_use b.address (of_words loaded.debug_state)) w')
  unfolding apply_loop
  apply_loop-cons s ss b in_use w h =
      let (_, loaded, w') = X64.load k s w in
      rw (arm_slot-armed in_use b.address (of_words loaded.debug_state) h, apply_loop)

  pub apply_loop-full :
      (s : ThreadState) (ss : List ThreadState) (b : Breakpoint) (in_use : ℕ) (w : W)
      → 4 ≤ in_use
      → (apply_loop k (s ∷ ss) b in_use w).0 ≡ false
  unfolding apply_loop
  apply_loop-full s ss b in_use w h =
      let (_, loaded, w') = X64.load k s w in
      rw (arm_slot-none in_use b.address (of_words loaded.debug_state) h, apply_loop)

  -- What a successful walk leaves in the breakpoint.
  pub apply_loop-kind :
      (ss : List ThreadState) (b : Breakpoint) (in_use : ℕ) (w : W)
      → 0 < length ss
      → in_use + length ss ≤ 4
      → (apply_loop k ss b in_use w).1
        ≡ record b { active = true; kind = x64_hardware (in_use + length ss) }
  apply_loop-kind [] b in_use w h fits = absurd (omega arith)
  apply_loop-kind (s ∷ []) b in_use w h fits =
      rw (apply_loop-cons s [] b in_use w (omega arith)) (unfold apply_loop in ground arith)
  apply_loop-kind (s ∷ s' ∷ ss) b in_use w h fits =
      let (_, loaded, w') = X64.load k s w in
      let b' = record b { active = true; kind = x64_hardware (in_use + 1) } in
      rw (apply_loop-cons s (s' ∷ ss) b in_use w (omega arith)) (
        apply_loop-kind (s' ∷ ss) b' (in_use + 1)
          (save_debug k loaded (armed in_use b.address (of_words loaded.debug_state)) w')
          (omega arith) (omega arith)
        ∙ ap (λ n. record b { active = true; kind = x64_hardware n }) (omega arith))
