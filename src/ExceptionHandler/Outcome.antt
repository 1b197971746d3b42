-- ===== src/ExceptionHandler/Outcome.antt =====
-- What ExceptionCallback answers and records.
use master_lib.Base.{
  ℕ, ◌≡◌, refl, inl, inr, Bool, true, false, [], ◌∷◌, ◌++◌, Option, none, some, ◌==◌, Bool-cases,
}
use master_lib.Base.Run.{Run, ok, fault, Cmd, and_then}
use master_lib.Host.{Target, i386, x86_64, arm, arm64, Platform}
use master_lib.Mach.{Kernel, kern_success, kern_failure, exc_breakpoint}
use master_lib.ThreadState.{ThreadState}
use master_lib.Process.{Process}
use master_lib.Process.Listing.{get_process}
use master_lib.Process.Threads.{state_for_platform, process_thread_state, running_platform}
use master_lib.ExceptionHandler.{
  Exception, Session, state_of_process, exception_thread_state, handle_exception,
  exception_callback, handle_state, on_world,
}

abbrev pub is_x86 : Target → Bool
is_x86 i386 = true
is_x86 x86_64 = true
is_x86 arm = false
is_x86 arm64 = false

-- Where the run returns, its result is null.
abbrev NoState : {W : Type 0} → Run W (Option ThreadState) → Type 0
NoState (ok o w) = o ≡ none
NoState fault = Unit {0}

-- Where the run returns, the answer is KERN_FAILURE, the exception stands at the end of the history,
-- and the breakpoints and the vector are those of `s`.
abbrev pub Refused : {W : Type 0} → Exception → Session W → Run (Session W) ℕ → Type 0
Refused e s (ok answer s') =
    (answer ≡ kern_failure)
    × (s'.history ≡ s.history ++ e ∷ [])
    × (s'.handler.objects ≡ s.handler.objects)
    × (s'.handler.breakpoints ≡ s.handler.breakpoints)
Refused e s fault = Unit {0}

module _ {W : Type 0} (k : Kernel W) where
  state_for_platform-x86 :
      (t : Target) (plt : Platform) (thread : ℕ) (w : W)
      → is_x86 t ≡ true
      → state_for_platform k t plt thread w ≡ none
  unfolding state_for_platform
  state_for_platform-x86 i386 plt thread w h = refl
  state_for_platform-x86 x86_64 plt thread w h = refl
  state_for_platform-x86 arm plt thread w h = cc
  state_for_platform-x86 arm64 plt thread w h = cc

  module _ (t : Target) (x86 : is_x86 t ≡ true) where
    state_of_process-x86 :
        (thread : ℕ) (r : Run W (Option Process))
        → NoState (and_then r (state_of_process k t thread))
    unfolding state_of_process process_thread_state
    state_of_process-x86 thread fault = tt
    state_of_process-x86 thread (ok none w) = refl
    state_of_process-x86 thread (ok (some p) w) =
        let (plt, w') = running_platform k t p w in state_for_platform-x86 t plt thread w' x86

    exception_thread_state-x86 : (e : Exception) (w : W) → NoState (exception_thread_state k t e w)
    unfolding exception_thread_state
    exception_thread_state-x86 e w =
        let (status, pid, w') = k.pid_for_task e.task w in
        elim (Bool-cases ((k.pid_for_task e.task w).0 == kern_success)) [
          | inl found ↦ rw found (state_of_process-x86 e.thread (get_process k pid w'))
          | inr lost ↦ rw lost refl
        ]

  module _ (t : Target) (invoke : ℕ → ThreadState → Cmd (Session W) ThreadState)
      (e : Exception) where
    NoState-Refused :
        (s s1 : Session W) (r : Run W (Option ThreadState))
        → NoState r
        → s1.history ≡ s.history ++ e ∷ []
        → s1.handler.objects ≡ s.handler.objects
        → s1.handler.breakpoints ≡ s.handler.breakpoints
        → Refused e s (and_then (on_world (λ _. r) s1) (handle_state k t invoke e))
    unfolding handle_state
    NoState-Refused s s1 fault h history objects vector = tt
    NoState-Refused s s1 (ok none w) h history objects vector = (refl, history, objects, vector)
    NoState-Refused s s1 (ok (some state) w) h history objects vector = cc

    -- An exception that is no breakpoint is recorded and answered by KERN_FAILURE, and its thread
    -- is suspended and not resumed.
    pub exception_callback-other :
        (s : Session W)
        → (e.kind == exc_breakpoint) ≡ false
        → exception_callback k t invoke e s
          ≡ ok kern_failure (record {
            handler = record s.handler { world = k.thread_suspend e.thread s.handler.world };
            history = s.history ++ e ∷ [];
          })
    unfolding exception_callback
    exception_callback-other s other = rw (other, handle_exception)

    -- On x86 `ExceptionCallback` handles no breakpoint: whatever is installed, where it returns it
    -- answers KERN_FAILURE, and has recorded the exception and touched no breakpoint.
    pub exception_callback-x86 :
        is_x86 t ≡ true → (s : Session W) → Refused e s (exception_callback k t invoke e s)
    unfolding exception_callback
    exception_callback-x86 x86 s = elim (Bool-cases (e.kind == exc_breakpoint)) [
      | inr other ↦ rw (other, handle_exception) (refl, refl, refl, refl)
      | inl breakpoint ↦
          let w' = k.thread_suspend e.thread s.handler.world in
          let s1 : Session W = record {
            handler = record s.handler { world = w' };
            history = s.history ++ e ∷ [];
          } in
          rw (breakpoint, handle_exception)
            (NoState-Refused s s1 (exception_thread_state k t e w')
              (exception_thread_state-x86 t x86 e w') refl refl refl)
    ]
