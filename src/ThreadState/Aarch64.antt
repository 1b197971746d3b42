-- ===== src/ThreadState/Aarch64.antt =====
-- src/aarch64/thread_state_aarch64.cc: AArch64ThreadState.
use master_lib.Base.{ℕ, get_or, Bool, true, List, [], ◌∷◌, ◌++◌}
use master_lib.Mach.{
  Kernel, arm_thread_state64, arm_neon_state64, arm_exception_state64, arm_debug_state64,
}
use master_lib.ThreadState.Defs.{word, cpsr, pad, Register, register, aarch64, ThreadState, fetch}

-- What the STATE_ADD_REGISTER lines append.
abbrev pub register_table : List Register
register_table =
    register "X0" (word 0)
    ∷ register "X1" (word 1)
    ∷ register "X2" (word 2)
    ∷ register "X3" (word 3)
    ∷ register "X4" (word 4)
    ∷ register "X5" (word 5)
    ∷ register "X6" (word 6)
    ∷ register "X7" (word 7)
    ∷ register "X8" (word 8)
    ∷ register "X9" (word 9)
    ∷ register "X10" (word 10)
    ∷ register "X11" (word 11)
    ∷ register "X12" (word 12)
    ∷ register "X13" (word 13)
    ∷ register "X14" (word 14)
    ∷ register "X15" (word 15)
    ∷ register "X16" (word 16)
    ∷ register "X17" (word 17)
    ∷ register "X18" (word 18)
    ∷ register "X19" (word 19)
    ∷ register "X20" (word 20)
    ∷ register "X21" (word 21)
    ∷ register "X22" (word 22)
    ∷ register "X23" (word 23)
    ∷ register "X24" (word 24)
    ∷ register "X25" (word 25)
    ∷ register "X26" (word 26)
    ∷ register "X27" (word 27)
    ∷ register "X28" (word 28)
    ∷ register "X29" (word 29)
    ∷ register "X30" (word 30)
    ∷ register "FP" (word 31)
    ∷ register "LR" (word 32)
    ∷ register "SP" (word 33)
    ∷ register "PC" (word 34)
    ∷ register "CPSR" cpsr
    ∷ register "PAD" pad
    ∷ []

module _ {W : Type 0} (k : Kernel W) where
  -- A new object: its structures hold what the memory held.
  unfoldable pub create : ℕ → W → ThreadState
  create thread w = record {
    arch = aarch64;
    thread = thread;
    thread_state = k.indeterminate (k.state_count arm_thread_state64) w;
    debug_state = k.indeterminate (k.state_count arm_debug_state64) w;
    vfp_state = [];
    neon_state = k.indeterminate (k.state_count arm_neon_state64) w;
    exception_state = k.indeterminate (k.state_count arm_exception_state64) w;
    registers = [];
  }

  unfoldable pub load : ThreadState → W → Bool × ThreadState × W
  unfolding fetch
  load s w =
      let (thread_state, w1) = fetch k arm_thread_state64 s.thread s.thread_state w in
      let (neon_state, w2) = fetch k arm_neon_state64 s.thread s.neon_state w1 in
      let (exception_state, w3) = fetch k arm_exception_state64 s.thread s.exception_state w2 in
      let (debug_state, w4) = fetch k arm_debug_state64 s.thread s.debug_state w3 in
      (
        true,
        record s {
          thread_state = thread_state;
          neon_state = neon_state;
          exception_state = exception_state;
          debug_state = debug_state;
          registers = s.registers ++ register_table;
        },
        w4,
      )

  unfoldable pub save : ThreadState → W → Bool × W
  save s w =
      let w1 = k.thread_set_state arm_thread_state64 s.thread s.thread_state w in
      let w2 = k.thread_set_state arm_neon_state64 s.thread s.neon_state w1 in
      let w3 = k.thread_set_state arm_exception_state64 s.thread s.exception_state w2 in
      let w4 = k.thread_set_state arm_debug_state64 s.thread s.debug_state w3 in (true, w4)

-- arm_thread_state64_t: __x[29], __fp, __lr, __sp, __pc, so __pc is the word 32.
unfoldable pub current_address : ThreadState → ℕ
current_address s = get_or s.thread_state 32 0
