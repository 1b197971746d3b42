-- ===== src/ThreadState/Steady.antt =====
-- Save changes nothing that thread_set_state leaves alone.
use master_lib.Base.{ℕ, ◌≡◌, ◌∙◌}
use master_lib.Mach.{
  Kernel, x86_thread_state64, x86_debug_state64, x86_thread_state32, x86_debug_state32,
  arm_thread_state, arm_vfp_state, arm_neon_state, arm_exception_state, arm_debug_state,
  arm_thread_state64, arm_neon_state64, arm_exception_state64, arm_debug_state64,
}
use master_lib.Mach.Steady.{Looks}
use master_lib.ThreadState.{Arch, x64, x86, armv7, aarch64, ThreadState, save, save_arch}
use master_lib.ThreadState.X64
use master_lib.ThreadState.X86
use master_lib.ThreadState.Armv7
use master_lib.ThreadState.Aarch64

module _ {W : Type 0} (k : Kernel W) (obs : W → ℕ) (laws : Looks k obs) where
  save_arch-Steady : (a : Arch) (s : ThreadState) (w : W) → obs (save_arch k a s w).1 ≡ obs w
  unfolding save_arch X64.save X86.save Armv7.save Aarch64.save
  save_arch-Steady x64 s w =
      let w1 = k.thread_set_state x86_thread_state64 s.thread s.thread_state w in
      laws.thread_set_state x86_debug_state64 s.thread s.debug_state w1
      ∙ laws.thread_set_state x86_thread_state64 s.thread s.thread_state w
  save_arch-Steady x86 s w =
      let w1 = k.thread_set_state x86_thread_state32 s.thread s.thread_state w in
      laws.thread_set_state x86_debug_state32 s.thread s.debug_state w1
      ∙ laws.thread_set_state x86_thread_state32 s.thread s.thread_state w
  save_arch-Steady armv7 s w =
      let w1 = k.thread_set_state arm_thread_state s.thread s.thread_state w in
      let w2 = k.thread_set_state arm_vfp_state s.thread s.vfp_state w1 in
      let w3 = k.thread_set_state arm_neon_state s.thread s.neon_state w2 in
      let w4 = k.thread_set_state arm_exception_state s.thread s.exception_state w3 in
      laws.thread_set_state arm_debug_state s.thread s.debug_state w4
      ∙ laws.thread_set_state arm_exception_state s.thread s.exception_state w3
      ∙ laws.thread_set_state arm_neon_state s.thread s.neon_state w2
      ∙ laws.thread_set_state arm_vfp_state s.thread s.vfp_state w1
      ∙ laws.thread_set_state arm_thread_state s.thread s.thread_state w
  save_arch-Steady aarch64 s w =
      let w1 = k.thread_set_state arm_thread_state64 s.thread s.thread_state w in
      let w2 = k.thread_set_state arm_neon_state64 s.thread s.neon_state w1 in
      let w3 = k.thread_set_state arm_exception_state64 s.thread s.exception_state w2 in
      laws.thread_set_state arm_debug_state64 s.thread s.debug_state w3
      ∙ laws.thread_set_state arm_exception_state64 s.thread s.exception_state w2
      ∙ laws.thread_set_state arm_neon_state64 s.thread s.neon_state w1
      ∙ laws.thread_set_state arm_thread_state64 s.thread s.thread_state w

  pub save-Steady : (s : ThreadState) (w : W) → obs (save k s w).1 ≡ obs w
  unfolding save
  save-Steady s w = save_arch-Steady s.arch s w
