-- ===== src/ThreadState/X64.antt =====
-- src/x64/thread_state_x64.cc: x64ThreadState.
use master_lib.Base.{ℕ, get_or, Bool, true, List, [], ◌∷◌, ◌++◌}
use master_lib.Mach.{Kernel, x86_thread_state64, x86_debug_state64}
use master_lib.ThreadState.Defs.{word, Register, register, x64, ThreadState, fetch}

-- What the STATE_ADD_REGISTER lines append.
abbrev pub register_table : List Register
register_table =
    register "RAX" (word 0)
    ∷ register "RBX" (word 1)
    ∷ register "RCX" (word 2)
    ∷ register "RDX" (word 3)
    ∷ register "RDI" (word 4)
    ∷ register "RSI" (word 5)
    ∷ register "RBP" (word 6)
    ∷ register "RSP" (word 7)
    ∷ register "R8" (word 8)
    ∷ register "R9" (word 9)
    ∷ register "R10" (word 10)
    ∷ register "R11" (word 11)
    ∷ register "R12" (word 12)
    ∷ register "R13" (word 13)
    ∷ register "R14" (word 14)
    ∷ register "R15" (word 15)
    ∷ register "RIP" (word 16)
    ∷ register "RFLAGS" (word 17)
    ∷ register "CS" (word 18)
    ∷ register "FS" (word 19)
    ∷ register "GS" (word 20)
    ∷ []

module _ {W : Type 0} (k : Kernel W) where
  -- A new object: its structures hold what the memory held.
  unfoldable pub create : ℕ → W → ThreadState
  create thread w = record {
    arch = x64;
    thread = thread;
    thread_state = k.indeterminate (k.state_count x86_thread_state64) w;
    debug_state = k.indeterminate (k.state_count x86_debug_state64) w;
    vfp_state = [];
    neon_state = [];
    exception_state = [];
    registers = [];
  }

  unfoldable pub load : ThreadState → W → Bool × ThreadState × W
  unfolding fetch
  load s w =
      let (thread_state, w1) = fetch k x86_thread_state64 s.thread s.thread_state w in
      let (debug_state, w2) = fetch k x86_debug_state64 s.thread s.debug_state w1 in
      (
        true,
        record s {
          thread_state = thread_state;
          debug_state = debug_state;
          registers = s.registers ++ register_table;
        },
        w2,
      )

  unfoldable pub save : ThreadState → W → Bool × W
  save s w =
      let w1 = k.thread_set_state x86_thread_state64 s.thread s.thread_state w in
      let w2 = k.thread_set_state x86_debug_state64 s.thread s.debug_state w1 in (true, w2)

-- __rip is the 17th member of x86_thread_state64_t.
unfoldable pub current_address : ThreadState → ℕ
current_address s = get_or s.thread_state 16 0
