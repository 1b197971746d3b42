-- ===== src/Process/Named.antt =====
-- PIDForName and Process::GetProcess(const char *), where the names of the processes hold still.
use master_lib.Base.{
  ℕ, zero, suc, ◌≡◌, refl, inl, inr, false, List, [], ◌∷◌, Option, none, some, arith, ◌==◌,
  if◌then◌else◌, Bool-cases,
}
use master_lib.Mach.{Kernel}
use master_lib.Process.{Process}
use master_lib.Process.Listing.{
  str_equal, c_string, list_pids, pid_loop, pid_for_name, attach_found, get_process_named, attach,
}

-- The first of `n` entries whose name is the wanted one.
abbrev pub first_named : (ℕ → List ℕ) → ℕ → List ℕ → List ℕ → Option ℕ
first_named names zero pids name = none
first_named names (suc n) [] name = none
first_named names (suc n) (p ∷ pids) name =
    if str_equal (names p) name then some p else first_named names n pids name

module _ {W : Type 0} (k : Kernel W) (names : ℕ → List ℕ)
    (named : (p : ℕ) (w : W) → (k.proc_name p w).0 ≡ names p) where
  pid_loop-first_named :
      (n : ℕ) (pids name : List ℕ) (w : W)
      → (pid_loop k n pids name w).0 ≡ first_named names n pids name
  unfolding pid_loop
  pid_loop-first_named zero pids name w = refl
  pid_loop-first_named (suc n) [] name w = refl
  pid_loop-first_named (suc n) (p ∷ pids) name w = elim (Bool-cases (str_equal (names p) name)) [
    | inl e ↦ rw (named, e) refl
    | inr e ↦ rw (named, e) (pid_loop-first_named n pids name (k.proc_name p w).1)
  ]

  -- What GetProcess(name) makes of that entry: none stands for the null pointer.
  abbrev pub IsProcessOf : Option ℕ → List ℕ → Option Process → Type 0
  IsProcessOf none name o = o ≡ none
  IsProcessOf (some pid) name none = pid ≡ 0
  IsProcessOf (some pid) name (some p) =
      (p.pid ≡ pid) × (p.name ≡ c_string name) × (p.paused ≡ false)

  attach_found-IsProcessOf :
      (name : List ℕ) (o : Option ℕ) (w : W) → IsProcessOf o name (attach_found k name (o, w)).0
  unfolding attach_found attach
  attach_found-IsProcessOf name none w = refl
  attach_found-IsProcessOf name (some pid) w = elim (Bool-cases (pid == 0)) [
    | inl e ↦ rw e (ground (arith, e))
    | inr e ↦ rw e (refl, refl, refl)
  ]

  -- Where the names of the processes hold still, `GetProcess(name)` is an object for the first listed
  -- process of that name, with its pid and that name, and not paused; it is null where the listing has
  -- none, or where that is the pid 0.
  pub get_process_named-IsProcessOf :
      (name : List ℕ) (w : W)
      → let (n, pids, w') = list_pids k w in
        IsProcessOf (first_named names n pids name) name (get_process_named k (some name) w).0
  unfolding get_process_named pid_for_name
  get_process_named-IsProcessOf name w =
      let (n, pids, w') = list_pids k w in
      rw (← pid_loop-first_named n pids name w')
        (attach_found-IsProcessOf name (pid_loop k n pids name w').0 (pid_loop k n pids name w').1)
