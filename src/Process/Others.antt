-- ===== src/Process/Others.antt =====
-- Process::Threads against the threads that the system lists.
use master_lib.Base.{
  ℕ, ◌≡◌, refl, inl, inr, Bool, true, false, List, [], ◌∷◌, ◌++◌, ◌==◌, if◌then◌else◌, Bool-cases,
}
use master_lib.Host.{Target, i386, x86_64, arm, arm64, Platform}
use master_lib.Mach.{Kernel, kern_success}
use master_lib.ThreadState.{ThreadState}
use master_lib.ThreadState.X64
use master_lib.ThreadState.Armv7
use master_lib.ThreadState.Aarch64
use master_lib.Process.{Process}
use master_lib.Process.Threads.{new_state, threads_loop, threads, running_platform}

-- Whether the switch has a case for the platform in a build for the target.
abbrev pub has_case : Target → Platform → Bool
has_case t Platform.x64 = true
has_case arm Platform.armv7 = true
has_case arm Platform.aarch64 = true
has_case t _ = false

abbrev pub without : ℕ → List ℕ → List ℕ
without ignore [] = []
without ignore (p ∷ ps) = if p == ignore then without ignore ps else p ∷ without ignore ps

abbrev pub thread_of : List ThreadState → List ℕ
thread_of [] = []
thread_of (s ∷ ss) = s.thread ∷ thread_of ss

module _ {W : Type 0} (k : Kernel W) where
  thread_of-new_state :
      (t : Target) (plt : Platform) (thread : ℕ) (w : W) (ss : List ThreadState)
      → thread_of (new_state k t plt thread w ++ ss)
        ≡ (if has_case t plt then thread ∷ thread_of ss else thread_of ss)
  unfolding new_state X64.create Armv7.create Aarch64.create
  thread_of-new_state t Platform.x64 thread w ss = refl
  thread_of-new_state arm Platform.armv7 thread w ss = refl
  thread_of-new_state arm Platform.aarch64 thread w ss = refl
  thread_of-new_state i386 Platform.armv7 thread w ss = refl
  thread_of-new_state i386 Platform.aarch64 thread w ss = refl
  thread_of-new_state x86_64 Platform.armv7 thread w ss = refl
  thread_of-new_state x86_64 Platform.aarch64 thread w ss = refl
  thread_of-new_state arm64 Platform.armv7 thread w ss = refl
  thread_of-new_state arm64 Platform.aarch64 thread w ss = refl
  thread_of-new_state t Platform.x86 thread w ss = refl
  thread_of-new_state t Platform.unknown_platform thread w ss = refl

  thread_of-threads_loop :
      (t : Target) (plt : Platform) (ignore : ℕ) (ports : List ℕ) (w : W)
      → thread_of (threads_loop k t plt ignore ports w)
        ≡ (if has_case t plt then without ignore ports else [])
  unfolding threads_loop
  thread_of-threads_loop t plt ignore [] w = elim (Bool-cases (has_case t plt)) [
    | inl e ↦ rw e refl
    | inr e ↦ rw e refl
  ]
  thread_of-threads_loop t plt ignore (p ∷ ports) w = elim (Bool-cases (p == ignore)) [
    | inl same ↦ rw same (thread_of-threads_loop t plt ignore ports w)
    | inr other ↦
        rw
          (
            other,
            thread_of-new_state t plt p w (threads_loop k t plt ignore ports w),
            thread_of-threads_loop t plt ignore ports w,
          )
          (elim (Bool-cases (has_case t plt)) [ inl e ↦ rw e refl | inr e ↦ rw e refl ])
  ]

  -- Where task_threads succeeds, `Threads` returns one object for each thread of the task but the
  -- ignored one, in their order, and none at all where the build has no case for the platform: none on
  -- i386 and arm64 for an ARM process, and none for a 32-bit x86 process.
  pub thread_of-threads :
      (t : Target) (p : Process) (ignore : ℕ) (ports : List ℕ) (w : W)
      → (k.task_threads p.task (running_platform k t p w).1).0 ≡ kern_success
      → (k.task_threads p.task (running_platform k t p w).1).1 ≡ ports
      → thread_of (threads k t p ignore w).0
        ≡ (if has_case t (running_platform k t p w).0 then without ignore ports else [])
  unfolding threads
  thread_of-threads t p ignore ports w done listed =
      let (plt, w1) = running_platform k t p w in
      rw (← listed) (
        thread_of-threads_loop t plt ignore (k.task_threads p.task w1).1
          (k.task_threads p.task w1).2)
