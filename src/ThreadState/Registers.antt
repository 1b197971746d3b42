-- ===== src/ThreadState/Registers.antt =====
-- src/thread_state.h: ThreadState::operator[].
use master_lib.Base.{
  ℕ, ◌-◌, Bool, true, false, ◌&&◌, List, [], ◌∷◌, map, Option, none, some, leb, ◌==◌, if◌then◌else◌,
}
use master_lib.ThreadState.Defs.{Register, Location, ThreadState}

-- toupper, in the C locale
unfoldable pub to_upper : ℕ → ℕ
to_upper c = if leb b'a' c && leb c b'z' then c - 32 else c

abbrev pub same : List ℕ → List ℕ → Bool
same [] [] = true
same (x ∷ xs) (y ∷ ys) = x == y && same xs ys
same _ _ = false

-- the first register of that name; none stands for the std::runtime_error
unfoldable pub find_register : List ℕ → List Register → Option Location
find_register key [] = none
find_register key (r ∷ rs) = if same r.name key then some r.location else find_register key rs

unfoldable pub index : ThreadState → List ℕ → Option Location
unfolding to_upper find_register
index s key = find_register (map to_upper key) s.registers
