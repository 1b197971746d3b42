-- ===== src/ThreadState/Names.antt =====
-- Which register ThreadState::operator[] finds after Load.
use master_lib.Base.{
  ℕ, ◌≡◌, ◌⊎◌, Bool, true, false, not, ◌&&◌, ◌||◌, List, [], ◌∷◌, Option, none, some,
}
use master_lib.ThreadState.{Location, Register, ThreadState}
use master_lib.ThreadState.Registers.{same}

abbrev pub IsIn : Register → List Register → Type 0
IsIn r [] = ⊥
IsIn r (q ∷ qs) = (r ≡ q) ⊎ IsIn r qs

abbrev pub has_name : List ℕ → List Register → Bool
has_name name [] = false
has_name name (r ∷ rs) = same r.name name || has_name name rs

-- No two registers have the same name.
abbrev pub names_differ : List Register → Bool
names_differ [] = true
names_differ (r ∷ rs) = not (has_name r.name rs) && names_differ rs

-- A register of that name stands at the place; where there is none, none has the name.
abbrev pub Finds : List Register → List ℕ → Option Location → Type 0
Finds rs name none = has_name name rs ≡ false
Finds rs name (some l) = (r : Register) × IsIn r rs × (r.name ≡ name) × (r.location ≡ l)
