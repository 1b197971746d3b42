-- ===== src/ExceptionHandler/Debugger.antt =====
-- The debugger as a whole, in any order of what happens to it: the client calls the breakpoint
-- handler (each call as a whole; BreakpointHandler/Race has calls that overlap), an exception arrives, and the system goes on by itself.
use master_lib.Base.{ℕ, ◌≡◌, true, Bool, List, [], ◌∷◌, ◌++◌}
use master_lib.Base.Run.{Run, ok, Cmd, Safe}
use master_lib.Host.{Target}
use master_lib.Mach.{Kernel}
use master_lib.ThreadState.{ThreadState}
use master_lib.Process.Listing.{process_exists}
use master_lib.BreakpointHandler.{Handler}
use master_lib.BreakpointHandler.Commands.{Command, IsAllowed, perform}
use master_lib.ExceptionHandler.{Exception, Session, exception_callback}
use master_lib.ExceptionHandler.History.{KeepsHistory, IsAnswer}
use master_lib.ExceptionHandler.Safety.{IsReady, KeepsObjects}

module _ {W : Type 0} (k : Kernel W) (t : Target)
    (invoke : ℕ → ThreadState → Cmd (Session W) ThreadState) where
  -- One step, with the exceptions that arrive in it.
  pub data Step (s : Session W) : List Exception → Session W → Type 0 where
    called :
        {es : List Exception} {s' : Session W} (c : Command) (done : Bool) (h : Handler W)
        → IsAllowed s.handler.objects c
        → perform k t c s.handler ≡ ok done h
        → es ≡ []
        → s' ≡ record s { handler = h }
        → Step s es s'
    arrived :
        {es : List Exception} {s' : Session W} (e : Exception) (answer : ℕ)
        → exception_callback k t invoke e s ≡ ok answer s'
        → es ≡ e ∷ []
        → Step s es s'
    -- The threads of the processes run.
    went_on :
        {es : List Exception} {s' : Session W} (w : W)
        → es ≡ []
        → s' ≡ record s { handler = record s.handler { world = w } }
        → Step s es s'

  pub data Reach (s : Session W) : List Exception → Session W → Type 0 where
    here : {es : List Exception} → es ≡ [] → Reach s es s
    next :
        {es fs gs : List Exception} {s' s'' : Session W}
        → Reach s es s'
        → Step s' fs s''
        → gs ≡ es ++ fs
        → Reach s gs s''

module _ {W : Type 0} (k : Kernel W) (t : Target)
    (stable : (pid : ℕ) (w : W)
      → (process_exists k pid w).0 ≡ true
      → (process_exists k pid (process_exists k pid w).1).0 ≡ true)
    (reads : k.reads_indeterminate ≡ true) (invoke : ℕ → ThreadState → Cmd (Session W) ThreadState)
    (client : KeepsObjects invoke) (keeps : KeepsHistory invoke) where
  -- What an exception finds: the pointers are live, and the history is `es`.
  abbrev pub IsSound : List Exception → Session W → Type 0
  IsSound es s = IsReady s × (s.history ≡ es)

  -- What an arriving exception leads to.
  abbrev pub Arrival : List Exception → Run (Session W) ℕ → Type 0
  Arrival es r = Safe (λ a s. IsAnswer a × IsSound es s) r
