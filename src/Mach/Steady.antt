-- ===== src/Mach/Steady.antt =====
-- Quantities of the system that most of its calls leave alone, such as the suspend count of a thread.
use master_lib.Base.{ℕ, ◌+◌, ◌-◌, ◌≡◌, Bool, List, ◌==◌, if◌then◌else◌}
use master_lib.Mach.{Kernel, Flavor}

-- No call changes the quantity but vm_write, thread_suspend and thread_resume.
pub record Looks {W : Type 0} (k : Kernel W) (obs : W → ℕ) : Type 0 where
  pub vm_read_overwrite :
      (t a n : ℕ) (out : List ℕ) (w : W) → obs (k.vm_read_overwrite t a n out w).2 ≡ obs w
  pub vm_protect : (t a n : ℕ) (m : Bool) (p : ℕ) (w : W) → obs (k.vm_protect t a n m p w).1 ≡ obs w
  pub task_threads : (t : ℕ) (w : W) → obs (k.task_threads t w).2 ≡ obs w
  pub task_for_pid : (p : ℕ) (w : W) → obs (k.task_for_pid p w).1 ≡ obs w
  pub pid_for_task : (t : ℕ) (w : W) → obs (k.pid_for_task t w).2 ≡ obs w
  pub mach_thread_self : (w : W) → obs (k.mach_thread_self w).1 ≡ obs w
  pub pthread_mach_thread : (w : W) → obs (k.pthread_mach_thread w).1 ≡ obs w
  pub thread_get_state : (f : Flavor) (t : ℕ) (w : W) → obs (k.thread_get_state f t w).1 ≡ obs w
  pub thread_set_state :
      (f : Flavor) (t : ℕ) (words : List ℕ) (w : W) → obs (k.thread_set_state f t words w) ≡ obs w
  pub proc_listpids_size : (w : W) → obs (k.proc_listpids_size w).1 ≡ obs w
  pub proc_listpids : (n : ℕ) (w : W) → obs (k.proc_listpids n w).1 ≡ obs w
  pub proc_name : (p : ℕ) (w : W) → obs (k.proc_name p w).1 ≡ obs w
  pub sysctl_p_lp64 : (p : ℕ) (w : W) → obs (k.sysctl_p_lp64 p w).1 ≡ obs w

-- No call changes the quantity but thread_suspend and thread_resume.
pub record Steady {W : Type 0} (k : Kernel W) (obs : W → ℕ) : Type 0 where
  pub looks : Looks k obs
  pub vm_write : (t a : ℕ) (bs : List ℕ) (w : W) → obs (k.vm_write t a bs w).1 ≡ obs w

-- Documented behaviour of the suspend counts of threads.
pub record SuspendLaws {W : Type 0} (k : Kernel W) (count : W → ℕ → ℕ) : Type 0 where
  pub steady : (u : ℕ) → Steady k (λ w. count w u)
  pub suspend :
      (t : ℕ) (w : W) (u : ℕ)
      → count (k.thread_suspend t w) u ≡ (if u == t then count w u + 1 else count w u)
  pub resume :
      (t : ℕ) (w : W) (u : ℕ)
      → count (k.thread_resume t w) u ≡ (if u == t then count w u - 1 else count w u)
