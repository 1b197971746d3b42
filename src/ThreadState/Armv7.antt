-- ===== src/ThreadState/Armv7.antt =====
-- src/armv7/thread_state_armv7.cc: ARMv7ThreadState.
use master_lib.Base.{ℕ, ◌-◌, ◌/◌, ◌%◌, ◌^◌, ◌==◌, get_or, Bool, true, List, [], ◌∷◌, ◌++◌}
use master_lib.Mach.{
  Kernel, arm_thread_state, arm_vfp_state, arm_neon_state, arm_exception_state, arm_debug_state,
}
use master_lib.ThreadState.Defs.{word, Register, register, armv7, ThreadState, fetch}

-- What the STATE_ADD_REGISTER lines append.
abbrev pub register_table : List Register
register_table =
    register "R0" (word 0)
    ∷ register "R1" (word 1)
    ∷ register "R2" (word 2)
    ∷ register "R3" (word 3)
    ∷ register "R4" (word 4)
    ∷ register "R5" (word 5)
    ∷ register "R6" (word 6)
    ∷ register "R7" (word 7)
    ∷ register "R8" (word 8)
    ∷ register "R9" (word 9)
    ∷ register "R10" (word 10)
    ∷ register "R11" (word 11)
    ∷ register "R12" (word 12)
    ∷ register "SP" (word 13)
    ∷ register "LR" (word 14)
    ∷ register "PC" (word 15)
    ∷ register "CPSR" (word 16)
    ∷ []

module _ {W : Type 0} (k : Kernel W) where
  -- A new object: its structures hold what the memory held.
  unfoldable pub create : ℕ → W → ThreadState
  create thread w = record {
    arch = armv7;
    thread = thread;
    thread_state = k.indeterminate (k.state_count arm_thread_state) w;
    debug_state = k.indeterminate (k.state_count arm_debug_state) w;
    vfp_state = k.indeterminate (k.state_count arm_vfp_state) w;
    neon_state = k.indeterminate (k.state_count arm_neon_state) w;
    exception_state = k.indeterminate (k.state_count arm_exception_state) w;
    registers = [];
  }

  unfoldable pub load : ThreadState → W → Bool × ThreadState × W
  unfolding fetch
  load s w =
      let (thread_state, w1) = fetch k arm_thread_state s.thread s.thread_state w in
      let (vfp_state, w2) = fetch k arm_vfp_state s.thread s.vfp_state w1 in
      let (neon_state, w3) = fetch k arm_neon_state s.thread s.neon_state w2 in
      let (exception_state, w4) = fetch k arm_exception_state s.thread s.exception_state w3 in
      let (debug_state, w5) = fetch k arm_debug_state s.thread s.debug_state w4 in
      (
        true,
        record s {
          thread_state = thread_state;
          vfp_state = vfp_state;
          neon_state = neon_state;
          exception_state = exception_state;
          debug_state = debug_state;
          registers = s.registers ++ register_table;
        },
        w5,
      )

  unfoldable pub save : ThreadState → W → Bool × W
  save s w =
      let w1 = k.thread_set_state arm_thread_state s.thread s.thread_state w in
      let w2 = k.thread_set_state arm_vfp_state s.thread s.vfp_state w1 in
      let w3 = k.thread_set_state arm_neon_state s.thread s.neon_state w2 in
      let w4 = k.thread_set_state arm_exception_state s.thread s.exception_state w3 in
      let w5 = k.thread_set_state arm_debug_state s.thread s.debug_state w4 in (true, w5)

-- `__pc & ~0x1` and `(__cpsr >> 0x5) & 0x1`: __pc and __cpsr are the 16th and 17th member of
-- arm_thread_state_t.
unfoldable pub current_address : ThreadState → ℕ
current_address s = let pc = get_or s.thread_state 15 0 in pc - pc % 2

unfoldable pub is_thumb_mode : ThreadState → Bool
is_thumb_mode s = get_or s.thread_state 16 0 / 2 ^ 5 % 2 == 1
