-- ===== src/Breakpoint/Steady.antt =====
-- Reset changes nothing that the system's calls leave alone.
use master_lib.Base.{ℕ, ◌≡◌, refl, ◌∙◌, true, List, [], ◌∷◌, arith, Option-cases, inl, inr}
use master_lib.Host.{Target}
use master_lib.Mach.{Kernel, x86_thread_state64, x86_debug_state64}
use master_lib.Mach.Steady.{Steady}
use master_lib.ThreadState.{ThreadState}
use master_lib.ThreadState.X64
use master_lib.Process.Threads.{threads}
use master_lib.Process.Steady.{write_memory-Steady, threads-Steady}
use master_lib.Breakpoint.{
  Kind, x64_hardware, x64_software, armv7_hardware, armv7_software, thumbv7_software, Breakpoint,
  reset, reset_kind,
}
use master_lib.Breakpoint.X64Hardware
use master_lib.Breakpoint.X64Hardware.{save_debug, reset_loop}
use master_lib.Breakpoint.X64Hardware.Slots.{DebugState, to_words, of_words, find_slot, disarm_slot}
use master_lib.Breakpoint.X64Software
use master_lib.Breakpoint.Armv7Software

module _ {W : Type 0} (k : Kernel W) (obs : W → ℕ) (laws : Steady k obs) where
  load-Steady : (s : ThreadState) (w : W) → obs (X64.load k s w).2 ≡ obs w
  unfolding X64.load
  load-Steady s w =
      let w' = (k.thread_get_state x86_thread_state64 s.thread w).1 in
      ground (
        arith,
        laws.looks.thread_get_state x86_thread_state64 s.thread w,
        laws.looks.thread_get_state x86_debug_state64 s.thread w',
      )

  save_debug-Steady : (s : ThreadState) (d : DebugState) (w : W) → obs (save_debug k s d w) ≡ obs w
  unfolding save_debug X64.save
  save_debug-Steady s d w =
      let w' = k.thread_set_state x86_thread_state64 s.thread s.thread_state w in
      laws.looks.thread_set_state x86_debug_state64 s.thread (to_words d) w'
      ∙ laws.looks.thread_set_state x86_thread_state64 s.thread s.thread_state w

  reset_loop-Steady :
      (ss : List ThreadState) (b : Breakpoint) (w : W) → obs (reset_loop k ss b w).2 ≡ obs w
  unfolding reset_loop
  reset_loop-Steady [] b w = refl
  reset_loop-Steady (s ∷ ss) b w =
      let (_, loaded, w') = X64.load k s w in
      let d = of_words loaded.debug_state in
      elim (Option-cases (find_slot b.address d)) [
        | inl e ↦ rw (e, reset_loop) (reset_loop-Steady ss b w' ∙ load-Steady s w)
        | inr (i, e) ↦
            rw (e, reset_loop)
              (reset_loop-Steady ss _ (save_debug k loaded (disarm_slot i d) w')
                ∙ save_debug-Steady loaded (disarm_slot i d) w'
                ∙ load-Steady s w)
      ]

  reset_kind-Steady :
      (t : Target) (kind : Kind) (b : Breakpoint) (w : W) → obs (reset_kind k t kind b w).2 ≡ obs w
  unfolding reset_kind
  reset_kind-Steady t (x64_hardware in_use) b w =
      unfold X64Hardware.reset in
      (let (self, w1) = k.pthread_mach_thread w in
        let (states, w2) = threads k t b.proc self w1 in
        reset_loop-Steady states b w2
        ∙ threads-Steady k obs laws.looks t b.proc self w1
        ∙ laws.looks.pthread_mach_thread w)
  reset_kind-Steady t (x64_software saved) b w =
      unfold X64Software.reset in write_memory-Steady k obs laws b.proc b.address saved true w
  reset_kind-Steady t armv7_hardware b w = refl
  reset_kind-Steady t (armv7_software saved) b w =
      unfold Armv7Software.reset in write_memory-Steady k obs laws b.proc b.address saved true w
  reset_kind-Steady t (thumbv7_software saved) b w =
      unfold Armv7Software.reset_thumb in
      write_memory-Steady k obs laws b.proc b.address saved true w

  pub reset-Steady : (t : Target) (b : Breakpoint) (w : W) → obs (reset k t b w).2 ≡ obs w
  unfolding reset
  reset-Steady t b w = reset_kind-Steady t b.kind b w
