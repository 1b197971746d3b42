-- ===== src/Process/Lookup.antt =====
-- ProcessExists, NameForPID and GetProcess against the listing of the system.
use master_lib.Base.{
  ℕ, zero, suc, ◌≡◌, ◌↔◌, ==_iff, refl, ◌⊎◌, inl, inr, true, false, Bool-cases, List, [], ◌∷◌,
  Option, none, some, arith, ◌==◌, if◌then◌else◌,
}
use master_lib.Base.Run.{Run, ok, fault, and_then}
use master_lib.Mach.{Kernel, kern_success}
use master_lib.Process.{Process}
use master_lib.Host.{Target}
use master_lib.ThreadState.{ThreadState}
use master_lib.Process.Threads.{process_thread_state, task_thread_state}
use master_lib.Process.Listing.{
  exists_loop, list_pids, name_loop, name_for_pid, process_exists, attach, attach_named,
  get_process,
}

-- The pid stands among the first `n` entries.
abbrev pub Listed : ℕ → ℕ → List ℕ → Type 0
Listed pid zero pids = ⊥
Listed pid (suc n) [] = ⊥
Listed pid (suc n) (p ∷ pids) = (p ≡ pid) ⊎ Listed pid n pids

exists_loop-Listed :
    (n : ℕ) (pids : List ℕ) (pid : ℕ) → (exists_loop n pids pid ≡ true) ↔ Listed pid n pids
unfolding exists_loop
exists_loop-Listed zero pids pid = (λ h. absurd (ground arith), λ h. absurd h)
exists_loop-Listed (suc n) [] pid = (λ h. absurd (ground arith), λ h. absurd h)
exists_loop-Listed (suc n) (p ∷ pids) pid = elim (Bool-cases (p == pid)) [
  | inl e ↦ (λ _. inl ((==_iff p pid).0 e), λ _. rw e refl)
  | inr e ↦ rw e (
    λ h. inr ((exists_loop-Listed n pids pid).0 h),
    λ h. elim h [
      | inl same ↦ absurd (ground arith)
      | inr later ↦ (exists_loop-Listed n pids pid).1 later
    ],
  )
]

-- A run that returns, if it returns, a null pointer.
abbrev pub Null : {W A : Type 0} → Run W (Option A) → Type 0
Null (ok o w) = o ≡ none
Null fault = Unit {0}

module _ {W : Type 0} (k : Kernel W) where
  -- `ProcessExists` is true exactly if the pid stands among the entries that the listing has filled.
  process_exists-Listed :
      (pid : ℕ) (w : W)
      → ((process_exists k pid w).0 ≡ true) ↔ Listed pid (list_pids k w).0 (list_pids k w).1
  unfolding process_exists
  process_exists-Listed pid w = exists_loop-Listed (list_pids k w).0 (list_pids k w).1 pid

  name_loop_lem :
      (n : ℕ) (pids : List ℕ) (pid : ℕ) (w : W)
      → name_loop k n pids pid w ≡ (
          if exists_loop n pids pid
          then (some (k.proc_name pid w).0, (k.proc_name pid w).1)
          else (none, w))
  unfolding name_loop exists_loop
  name_loop_lem zero pids pid w = refl
  name_loop_lem (suc n) [] pid w = refl
  name_loop_lem (suc n) (p ∷ pids) pid w = elim (Bool-cases (p == pid)) [
    | inl e ↦ rw (e, (==_iff p pid).0 e) refl
    | inr e ↦ rw e (name_loop_lem n pids pid w)
  ]

  -- `GetProcess(pid)` of a process that both of its listings hold is an object with that pid, which
  -- is not paused, and with the task that `task_for_pid` gives last.
  get_process-found :
      (pid : ℕ) (w : W)
      → (process_exists k pid w).0 ≡ true
      → (process_exists k pid (process_exists k pid w).1).0 ≡ true
      → let (name, w') = k.proc_name pid (list_pids k (process_exists k pid w).1).2 in
        get_process k pid w ≡ ok (attach k pid name w').0 (attach k pid name w').1
  unfolding get_process name_for_pid attach_named process_exists
  get_process-found pid w first second = rw (first, name_loop_lem, second) refl

  -- `GetProcess(pid)` builds a std::string from a null pointer, which is undefined behaviour, if the
  -- process stands in its first listing and has left the second.
  pub get_process-vanished :
      (pid : ℕ) (w : W)
      → (process_exists k pid w).0 ≡ true
      → (process_exists k pid (process_exists k pid w).1).0 ≡ false
      → get_process k pid w ≡ fault
  unfolding get_process name_for_pid attach_named process_exists
  get_process-vanished pid w first second = rw (first, name_loop_lem, second) refl

  -- Where no process leaves between two listings, GetProcess(pid) returns.
  pub get_process-Returns :
      (pid : ℕ) (w : W)
      → ((process_exists k pid w).0 ≡ true
          → (process_exists k pid (process_exists k pid w).1).0 ≡ true)
      → (o : Option Process) × ((w' : W) × (get_process k pid w ≡ ok o w'))
  unfolding get_process process_exists
  get_process-Returns pid w stays = elim (Bool-cases (process_exists k pid w).0) [
    | inl there ↦ let found = get_process-found pid w there (stays there) in (_, (_, found))
    | inr absent ↦ (none, ((process_exists k pid w).1, rw (get_process, absent) refl))
  ]

  -- `Process::ThreadState(task, thread)` never returns an object: what it returns is a null pointer.
  task_thread_state-Null :
      (t : Target) (task thread : ℕ) (w : W) → Null (task_thread_state k t task thread w)
  unfolding task_thread_state
  task_thread_state-Null t task thread w =
      let (status, pid, w') = k.pid_for_task task w in
      elim (Bool-cases ((k.pid_for_task task w).0 == kern_success)) [
        | inl found ↦ rw found (after (get_process k pid w'))
        | inr lost ↦ rw lost refl
      ]
    where
      after :
          (r : Run W (Option Process))
          → Null (
              and_then {B = Option ThreadState} r
                λ proc w''. let (_, w3) = process_thread_state k t proc thread w'' in ok none w3)
      after (ok p w'') = refl
      after fault = tt
