-- ===== src/ThreadState/Persistence.antt =====
-- A register that is written, saved to the thread, and loaded into another object.
use master_lib.Base.{
  ℕ, ◌-◌, ◌%◌, ◌≡◌, true, false, Bool, ◌&&◌, List, Option, none, some, ◌==◌, if◌then◌else◌,
}
use master_lib.Mach.{
  Kernel, Flavor, x86_thread_state64, x86_debug_state64, x86_thread_state32, x86_debug_state32,
  arm_thread_state, arm_vfp_state, arm_neon_state, arm_exception_state, arm_debug_state,
  arm_thread_state64, arm_neon_state64, arm_exception_state64, arm_debug_state64,
}
use master_lib.ThreadState.{Arch, x64, x86, armv7, aarch64, ThreadState, codes}
use master_lib.ThreadState.X64
use master_lib.ThreadState.X86
use master_lib.ThreadState.Armv7
use master_lib.ThreadState.Aarch64

abbrev flavor_number : Flavor → ℕ
flavor_number x86_thread_state64 = 0
flavor_number x86_debug_state64 = 1
flavor_number x86_thread_state32 = 2
flavor_number x86_debug_state32 = 3
flavor_number arm_thread_state = 4
flavor_number arm_vfp_state = 5
flavor_number arm_neon_state = 6
flavor_number arm_exception_state = 7
flavor_number arm_debug_state = 8
flavor_number arm_thread_state64 = 9
flavor_number arm_neon_state64 = 10
flavor_number arm_exception_state64 = 11
flavor_number arm_debug_state64 = 12

abbrev pub same_flavor : Flavor → Flavor → Bool
same_flavor f g = flavor_number f == flavor_number g

-- Documented behaviour of thread_get_state and thread_set_state on a live thread: `stored` is the
-- structures of each thread.
pub record StateLaws {W : Type 0} (k : Kernel W) (stored : W → Flavor → ℕ → List ℕ) : Type 0 where
  pub get : (f : Flavor) (t : ℕ) (w : W) → (k.thread_get_state f t w).0 ≡ some (stored w f t)
  pub get_keeps :
      (f : Flavor) (t : ℕ) (w : W) (g : Flavor) (u : ℕ)
      → stored (k.thread_get_state f t w).1 g u ≡ stored w g u
  pub set :
      (f : Flavor) (t : ℕ) (words : List ℕ) (w : W) (g : Flavor) (u : ℕ)
      → stored (k.thread_set_state f t words w) g u
        ≡ (if same_flavor f g && t == u then words else stored w g u)

-- The word that CurrentAddress reads.
abbrev pub pc_word : Arch → ℕ
pc_word x64 = 16
pc_word x86 = 10
pc_word armv7 = 15
pc_word aarch64 = 32

-- The name of the class's register for the program counter.
abbrev pub pc_name : Arch → List ℕ
pc_name x64 = codes "RIP"
pc_name x86 = codes "EIP"
pc_name armv7 = codes "PC"
pc_name aarch64 = codes "PC"

-- AArch64ThreadState adds its register PC at another place.
abbrev pub has_pc : Arch → Bool
has_pc aarch64 = false
has_pc _ = true

-- On ARM the lowest bit of the program counter is cleared.
abbrev pub instruction : Arch → ℕ → ℕ
instruction armv7 v = v - v % 2
instruction _ v = v

-- The access stays within the structure, and what holds then.
abbrev pub Succeeds : (ThreadState → Type 0) → Option ThreadState → Type 0
Succeeds P none = ⊥
Succeeds P (some s) = P s

module _ {W : Type 0} (k : Kernel W) (stored : W → Flavor → ℕ → List ℕ)
    (laws : StateLaws k stored) where
  abbrev main : Arch → Flavor
  main x64 = x86_thread_state64
  main x86 = x86_thread_state32
  main armv7 = arm_thread_state
  main aarch64 = arm_thread_state64
