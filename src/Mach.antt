-- ===== src/Mach.antt =====
-- The Mach and BSD calls that src/*.cc makes, as an interface over a type `W` of states of the
-- system. Every call returns the new state, so the system may change at each of them. What stands
-- here is declared by the system's headers: no file of the repository defines it.
pub mod Memory
pub mod Steady
pub mod Ports
use master_lib.Base.{ℕ, ◌^◌, Bool, not, List, Option, ◌==◌}

-- Documented values of <mach/kern_return.h>, <mach/exception_types.h>, <mach/vm_prot.h>.
abbrev pub kern_success : ℕ
kern_success = 0

abbrev pub kern_invalid_address : ℕ
kern_invalid_address = 1

abbrev pub kern_failure : ℕ
kern_failure = 5

abbrev pub exc_breakpoint : ℕ
exc_breakpoint = 6

-- VM_PROT_READ, WRITE and EXECUTE are 1, 2 and 4; VM_PROT_COPY is 0x10.
abbrev pub prot_read_execute : ℕ
prot_read_execute = 5

abbrev pub prot_all_copy : ℕ
prot_all_copy = 0x17

abbrev pub sigkill : ℕ
sigkill = 9

-- An `int` or `kern_return_t` as a C++ `bool`.
abbrev pub to_bool : ℕ → Bool
to_bool n = not (n == 0)

-- The flavors of thread_get_state and thread_set_state that the library asks for.
pub data Flavor : Type 0 where
  x86_thread_state64 x86_debug_state64 : Flavor
  x86_thread_state32 x86_debug_state32 : Flavor
  arm_thread_state arm_vfp_state arm_neon_state arm_exception_state arm_debug_state : Flavor
  arm_thread_state64 arm_neon_state64 arm_exception_state64 arm_debug_state64 : Flavor

-- What vm_region_recurse_64 writes through its pointers, and its status.
pub record RegionReply : Type 0 where
  pub status : ℕ
  pub address : ℕ
  pub size : ℕ
  pub depth : ℕ
  pub is_submap : Bool
  pub protection : ℕ

pub record Kernel (W : Type 0) : Type 0 where
  -- vm_read_overwrite(task, address, size, output): the status and the buffer after the call
  pub vm_read_overwrite : (task address size : ℕ) → List ℕ → W → ℕ × List ℕ × W
  pub vm_write : (task address : ℕ) → List ℕ → W → ℕ × W
  pub vm_protect : (task address size : ℕ) → (set_maximum : Bool) → (prot : ℕ) → W → ℕ × W
  -- address, size and depth are passed by reference: the values before the call, and after it
  pub vm_region_recurse : (task address size depth : ℕ) → W → RegionReply × W
  pub task_suspend : (task : ℕ) → W → ℕ × W
  pub task_resume : (task : ℕ) → W → ℕ × W
  -- the status and the threads; where the call fails, what the caller's two variables, which it has
  -- not initialised, lead to
  pub task_threads : (task : ℕ) → W → ℕ × List ℕ × W
  pub task_for_pid : (pid : ℕ) → W → ℕ × W
  pub pid_for_task : (task : ℕ) → W → ℕ × ℕ × W
  pub mach_task_self : W → ℕ × W
  pub mach_thread_self : W → ℕ × W
  -- pthread_mach_thread_np(pthread_self())
  pub pthread_mach_thread : W → ℕ × W
  pub thread_suspend : (thread : ℕ) → W → W
  pub thread_resume : (thread : ℕ) → W → W
  -- the words of the structure, or none where the call fails and leaves the structure as it was
  pub thread_get_state : Flavor → (thread : ℕ) → W → Option (List ℕ) × W
  -- the number of words of each structure
  pub state_count : Flavor → ℕ
  pub thread_set_state : Flavor → (thread : ℕ) → List ℕ → W → W
  -- proc_listpids with no buffer, and with one: the buffer after the call
  pub proc_listpids_size : W → ℕ × W
  pub proc_listpids : (size : ℕ) → W → List ℕ × W
  pub proc_name : (pid : ℕ) → W → List ℕ × W
  pub kill : (pid signal : ℕ) → W → ℕ × W
  pub getpid : W → ℕ × W
  -- *_NSGetProgname()
  pub progname : W → List ℕ × W
  -- sysctl KERN_PROC_PID: none for an error, and else whether P_LP64 is set
  pub sysctl_p_lp64 : (pid : ℕ) → W → Option Bool × W
  -- the bytes, or words, that an uninitialised object of that size happens to hold
  pub indeterminate : (size : ℕ) → W → List ℕ
  -- whether the implementation makes a read of an uninitialised object give what it holds; the
  -- standard leaves the behaviour undefined
  pub reads_indeterminate : Bool
