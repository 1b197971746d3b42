-- ===== src/ThreadState/X86.antt =====
-- src/x86/thread_state_x86.cc: x86ThreadState.
use master_lib.Base.{ℕ, get_or, Bool, true, List, [], ◌∷◌, ◌++◌}
use master_lib.Mach.{Kernel, x86_thread_state32, x86_debug_state32}
use master_lib.ThreadState.Defs.{word, Register, register, x86, ThreadState, fetch}

-- What the STATE_ADD_REGISTER lines append.
abbrev pub register_table : List Register
register_table =
    register "EAX" (word 0)
    ∷ register "EBX" (word 1)
    ∷ register "ECX" (word 2)
    ∷ register "EDX" (word 3)
    ∷ register "EDI" (word 4)
    ∷ register "ESI" (word 5)
    ∷ register "EBP" (word 6)
    ∷ register "ESP" (word 7)
    ∷ register "SS" (word 8)
    ∷ register "EFLAGS" (word 9)
    ∷ register "EIP" (word 10)
    ∷ register "CS" (word 11)
    ∷ register "DS" (word 12)
    ∷ register "ES" (word 13)
    ∷ register "FS" (word 14)
    ∷ register "GS" (word 15)
    ∷ []

module _ {W : Type 0} (k : Kernel W) where
  -- A new object: its structures hold what the memory held.
  unfoldable pub create : ℕ → W → ThreadState
  create thread w = record {
    arch = x86;
    thread = thread;
    thread_state = k.indeterminate (k.state_count x86_thread_state32) w;
    debug_state = k.indeterminate (k.state_count x86_debug_state32) w;
    vfp_state = [];
    neon_state = [];
    exception_state = [];
    registers = [];
  }

  unfoldable pub load : ThreadState → W → Bool × ThreadState × W
  unfolding fetch
  load s w =
      let (thread_state, w1) = fetch k x86_thread_state32 s.thread s.thread_state w in
      let (debug_state, w2) = fetch k x86_debug_state32 s.thread s.debug_state w1 in
      (
        true,
        record s {
          thread_state = thread_state;
          debug_state = debug_state;
          registers = s.registers ++ register_table;
        },
        w2,
      )

  unfoldable pub save : ThreadState → W → Bool × W
  save s w =
      let w1 = k.thread_set_state x86_thread_state32 s.thread s.thread_state w in
      let w2 = k.thread_set_state x86_debug_state32 s.thread s.debug_state w1 in (true, w2)

-- __eip is the 11th member of x86_thread_state32_t.
unfoldable pub current_address : ThreadState → ℕ
current_address s = get_or s.thread_state 10 0
