-- ===== src/ThreadState/Lookup.antt =====
-- Lookups by ThreadState::operator[] before and after Load.
use master_lib.Base.{
  ℕ, ◌≡◌, refl, inl, inr, Bool-cases, List, [], ◌∷◌, ◌++◌, map, Option, none, some, arith, get_or,
}
use master_lib.Mach.{Kernel}
use master_lib.ThreadState.{
  Arch, x64, x86, armv7, aarch64, Location, word, Register, ThreadState, codes, table, load,
  load_arch, current_address, address_of,
}
use master_lib.ThreadState.Registers.{to_upper, same, find_register, index}
use master_lib.ThreadState.X64
use master_lib.ThreadState.X86
use master_lib.ThreadState.Armv7
use master_lib.ThreadState.Aarch64

to_upper-to_upper : (key : List ℕ) → map to_upper (map to_upper key) ≡ map to_upper key
unfolding to_upper
to_upper-to_upper [] = refl
to_upper-to_upper (c ∷ key) = rw (to_upper-to_upper key) (ground arith)

-- The lookup of a register does not depend on the case of the letters of its name.
index-to_upper : (s : ThreadState) (key : List ℕ) → index s (map to_upper key) ≡ index s key
unfolding index
index-to_upper s key = rw (to_upper-to_upper key) refl

or_else : Option Location → Option Location → Option Location
or_else none b = b
or_else (some a) b = some a

find_register-append :
    (key : List ℕ) (rs ts : List Register)
    → find_register key (rs ++ ts) ≡ or_else (find_register key rs) (find_register key ts)
unfolding find_register or_else
find_register-append key [] ts = refl
find_register-append key (r ∷ rs) ts = elim (Bool-cases (same r.name key)) [
  | inl e ↦ rw e refl
  | inr e ↦ rw e (find_register-append key rs ts)
]

or_else_lem : (a b : Option Location) → or_else (or_else a b) b ≡ or_else a b
unfolding or_else
or_else_lem none none = refl
or_else_lem none (some b) = refl
or_else_lem (some a) b = refl

module _ {W : Type 0} (k : Kernel W) where
  load_arch-registers :
      (a : Arch) (s : ThreadState) (w : W)
      → ((load_arch k a s w).1.registers ≡ s.registers ++ table a)
        × ((load_arch k a s w).1.arch ≡ s.arch)
  unfolding load_arch X64.load X86.load Armv7.load Aarch64.load table
  load_arch-registers x64 s w = (refl, refl)
  load_arch-registers x86 s w = (refl, refl)
  load_arch-registers armv7 s w = (refl, refl)
  load_arch-registers aarch64 s w = (refl, refl)

  pub load-registers :
      (s : ThreadState) (w : W)
      → ((load k s w).1.registers ≡ s.registers ++ table s.arch) × ((load k s w).1.arch ≡ s.arch)
  unfolding load
  load-registers s w = load_arch-registers s.arch s w

  -- `Load` appends the registers again at every call; a lookup after another `Load` still finds what
  -- it found before, in every class.
  index-load :
      (s : ThreadState) (w w' : W) (key : List ℕ)
      → index (load k (load k s w).1 w').1 key ≡ index (load k s w).1 key
  unfolding index
  index-load s w w' key =
      rw
        (
          (load-registers (load k s w).1 w').0,
          (load-registers s w).0,
          (load-registers s w).1,
          find_register-append,
          find_register-append,
        )
        (or_else_lem _ _)

  -- After `Load` of a new AArch64ThreadState the register LR is the 64-bit word 32 of the structure,
  -- which is the word that `CurrentAddress` reads, and the register PC is the word 34.
  aarch64_lr :
      (thread : ℕ) (w w' : W)
      → (index (load k (Aarch64.create k thread w) w').1 (codes "LR") ≡ some (word 32))
        × (index (load k (Aarch64.create k thread w) w').1 (codes "PC") ≡ some (word 34))
        × (current_address (load k (Aarch64.create k thread w) w').1
            ≡ get_or (load k (Aarch64.create k thread w) w').1.thread_state 32 0)
  unfolding index find_register to_upper load load_arch Aarch64.load Aarch64.create current_address
      address_of Aarch64.current_address
  aarch64_lr thread w w' = (refl, refl, refl)
