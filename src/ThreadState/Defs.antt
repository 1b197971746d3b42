-- ===== src/ThreadState/Defs.antt =====
-- The data of src/thread_state.h, and the members of the derived classes.
use Prim.Native.String.{String}
use Prim.Native.Char.{code}
use master_lib.Base.{ℕ, List, [], ◌∷◌, none, some}
use master_lib.Mach.{Kernel, Flavor}

-- The derived classes.
pub data Arch : Type 0 where
  x64 x86 armv7 aarch64 : Arch

-- Where a register's pointer leads: `thread_state_` seen as an array of the machine's words, or one
-- of the two 32-bit members at the end of arm_thread_state64_t.
pub data Location : Type 0 where
  word : ℕ → Location
  cpsr pad : Location

pub record Register : Type 0 where
  pub name : List ℕ
  pub location : Location

-- The characters of a name.
abbrev pub codes : String → List ℕ
codes String.[] = []
codes (String.◌∷◌ c s) = code c ∷ codes s

abbrev pub register : String → Location → Register
register s l = record { name = codes s; location = l }

-- An object of a derived class: each structure as the list of its words. A class has only some of
-- the structures; the others stay empty.
pub record ThreadState : Type 0 where
  pub arch : Arch
  pub thread : ℕ
  pub thread_state : List ℕ
  pub debug_state : List ℕ
  pub vfp_state : List ℕ
  pub neon_state : List ℕ
  pub exception_state : List ℕ
  pub registers : List Register

module _ {W : Type 0} (k : Kernel W) where
  -- thread_get_state into the structure `old`. The callers ignore its status.
  unfoldable pub fetch : Flavor → ℕ → List ℕ → W → List ℕ × W
  fetch flavor thread old w =
      let (reply, w') = k.thread_get_state flavor thread w in
      elim reply [ none ↦ (old, w') | some words ↦ (words, w') ]
