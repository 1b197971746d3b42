-- ===== src/Process/Threads.antt =====
-- src/process.cc: RunningPlatform, Threads and the constructors of Process::ThreadState.
use master_lib.Base.{ℕ, Bool, List, [], ◌∷◌, ◌++◌, Option, none, some, ◌==◌, if◌then◌else◌}
use master_lib.Base.Run.{ok, Cmd, and_then}
use master_lib.Host.{Target, arm, arm64, Platform, unknown_platform}
use master_lib.Mach.{Kernel, kern_success}
use master_lib.ThreadState.{ThreadState}
use master_lib.ThreadState.X64
use master_lib.ThreadState.Armv7
use master_lib.ThreadState.Aarch64
use master_lib.Process.{Process}
use master_lib.Process.Listing.{get_process}

-- `p_lp64` is none where sysctl fails.
unfoldable pub platform : Target → Option Bool → Platform
platform t none = unknown_platform
platform arm (some lp64) = if lp64 then Platform.aarch64 else Platform.armv7
platform arm64 (some lp64) = if lp64 then Platform.aarch64 else Platform.armv7
platform _ (some lp64) = if lp64 then Platform.x64 else Platform.x86

module _ {W : Type 0} (k : Kernel W) where
  unfoldable pub running_platform : Target → Process → W → Platform × W
  unfolding platform
  running_platform t p w = let (p_lp64, w') = k.sysctl_p_lp64 p.pid w in (platform t p_lp64, w')

  -- The body of the switch in `Threads`: the cases of the ARM classes are compiled on __arm__ only.
  unfoldable pub new_state : Target → Platform → ℕ → W → List ThreadState
  new_state t Platform.x64 thread w = X64.create k thread w ∷ []
  new_state arm Platform.armv7 thread w = Armv7.create k thread w ∷ []
  new_state arm Platform.aarch64 thread w = Aarch64.create k thread w ∷ []
  new_state t _ thread w = []

  unfoldable pub threads_loop : Target → Platform → ℕ → List ℕ → W → List ThreadState
  unfolding new_state
  threads_loop t plt ignore [] w = []
  threads_loop t plt ignore (thread ∷ rest) w =
      if thread == ignore
      then threads_loop t plt ignore rest w
      else new_state t plt thread w ++ threads_loop t plt ignore rest w

  unfoldable pub threads : Target → Process → ℕ → W → List ThreadState × W
  unfolding running_platform threads_loop
  threads t p ignore w =
      let (plt, w1) = running_platform t p w in
      let (_, ports, w2) = k.task_threads p.task w1 in (threads_loop t plt ignore ports w2, w2)

  -- Process::ThreadState(Process *, mach_port_t): the case of x86_64 is commented out.
  unfoldable pub state_for_platform : Target → Platform → ℕ → W → Option ThreadState
  state_for_platform arm Platform.armv7 thread w = some (Armv7.create k thread w)
  state_for_platform arm Platform.aarch64 thread w = some (Aarch64.create k thread w)
  state_for_platform t _ thread w = none

  unfoldable pub process_thread_state : Target → Option Process → ℕ → W → Option ThreadState × W
  unfolding running_platform state_for_platform
  process_thread_state t none thread w = (none, w)
  process_thread_state t (some p) thread w =
      let (plt, w') = running_platform t p w in (state_for_platform t plt thread w', w')

  -- Process::ThreadState(mach_port_t, mach_port_t): its last statement makes a temporary object and
  -- drops it, so `state` stays null.
  unfoldable pub task_thread_state : Target → ℕ → ℕ → Cmd W (Option ThreadState)
  unfolding process_thread_state
  task_thread_state t task thread w =
      let (status, pid, w') = k.pid_for_task task w in
      if status == kern_success
      then (and_then (get_process k pid w')
          λ proc w''. let (_, w3) = process_thread_state t proc thread w'' in ok none w3)
      else ok none w'
