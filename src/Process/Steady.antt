-- ===== src/Process/Steady.antt =====
-- The functions of process.cc change nothing that the system's calls leave alone.
use master_lib.Base.{
  ℕ, zero, suc, ◌*◌, ◌≡◌, refl, ◌∙◌, Bool, true, false, inl, inr, List, [], ◌∷◌, Option, none, some,
  arith, Bool-cases, length,
}
use master_lib.Base.Run.{Run, ok, fault}
use master_lib.Host.{Target}
use master_lib.Mach.{Kernel, prot_all_copy, prot_read_execute}
use master_lib.Mach.Steady.{Looks, Steady}
use master_lib.Process.{Process}
use master_lib.Process.Memory.{write_memory}
use master_lib.Process.Listing.{
  list_pids, name_loop, name_for_pid, process_exists, attach_named, get_process,
}
use master_lib.Process.Threads.{running_platform, threads}

-- A run that keeps the quantity, if it returns.
abbrev pub Keeps : {W A : Type 0} → (W → ℕ) → W → Run W A → Type 0
Keeps obs w (ok a w') = obs w' ≡ obs w
Keeps obs w fault = Unit {0}

module _ {W : Type 0} (k : Kernel W) (obs : W → ℕ) (laws : Steady k obs) where
  pub write_memory-Steady :
      (p : Process) (a : ℕ) (bs : List ℕ) (force : Bool) (w : W)
      → obs (write_memory k p a bs force w).1 ≡ obs w
  unfolding write_memory
  write_memory-Steady p a bs false w = ground (arith, laws.vm_write p.task a bs w)
  write_memory-Steady p a bs true w =
      let w1 = (k.vm_protect p.task a (length bs) false prot_all_copy w).1 in
      let w2 = (k.vm_write p.task a bs w1).1 in
      ground (
        arith,
        laws.looks.vm_protect p.task a (length bs) false prot_all_copy w,
        laws.vm_write p.task a bs w1,
        laws.looks.vm_protect p.task a (length bs) false prot_read_execute w2,
      )

module _ {W : Type 0} (k : Kernel W) (obs : W → ℕ) (laws : Looks k obs) where
  list_pids-Steady : (w : W) → obs (list_pids k w).2 ≡ obs w
  unfolding list_pids
  list_pids-Steady w =
      let (n, w1) = k.proc_listpids_size w in
      ground (arith, laws.proc_listpids_size w, laws.proc_listpids (n * 4) w1)

  name_loop-Steady :
      (n : ℕ) (pids : List ℕ) (pid : ℕ) (w : W) → obs (name_loop k n pids pid w).1 ≡ obs w
  unfolding name_loop
  name_loop-Steady zero pids pid w = refl
  name_loop-Steady (suc n) [] pid w = refl
  name_loop-Steady (suc n) (p ∷ pids) pid w =
      ground (arith, laws.proc_name p w, name_loop-Steady n pids pid w)

  name_for_pid-Steady : (pid : ℕ) (w : W) → obs (name_for_pid k pid w).1 ≡ obs w
  unfolding name_for_pid
  name_for_pid-Steady pid w =
      let (n, pids, w') = list_pids k w in name_loop-Steady n pids pid w' ∙ list_pids-Steady w

  process_exists-Steady : (pid : ℕ) (w : W) → obs (process_exists k pid w).1 ≡ obs w
  unfolding process_exists
  process_exists-Steady pid w = list_pids-Steady w

  attach_named-Keeps :
      (pid : ℕ) (r : Option (List ℕ) × W) (w : W)
      → obs r.1 ≡ obs w
      → Keeps obs w (attach_named k pid r)
  unfolding attach_named
  attach_named-Keeps pid (none, w') w same = tt
  attach_named-Keeps pid (some name, w') w same = laws.task_for_pid pid w' ∙ same

  pub get_process-Keeps : (pid : ℕ) (w : W) → Keeps obs w (get_process k pid w)
  unfolding get_process
  get_process-Keeps pid w =
      let w' = (process_exists k pid w).1 in
      elim (Bool-cases (process_exists k pid w).0) [
        | inl found ↦ rw found (
            attach_named-Keeps pid (name_for_pid k pid w') w
              (name_for_pid-Steady pid w' ∙ process_exists-Steady pid w))
        | inr gone ↦ rw gone (process_exists-Steady pid w)
      ]

  pub running_platform-Steady :
      (t : Target) (p : Process) (w : W) → obs (running_platform k t p w).1 ≡ obs w
  unfolding running_platform
  running_platform-Steady t p w = laws.sysctl_p_lp64 p.pid w

  pub threads-Steady :
      (t : Target) (p : Process) (ignore : ℕ) (w : W) → obs (threads k t p ignore w).1 ≡ obs w
  unfolding threads
  threads-Steady t p ignore w =
      let (plt, w1) = running_platform k t p w in
      laws.task_threads p.task w1 ∙ running_platform-Steady t p w
