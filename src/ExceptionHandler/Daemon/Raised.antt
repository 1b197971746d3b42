-- ===== src/ExceptionHandler/Daemon/Raised.antt =====
-- An exception that arrives by a client's call of mach_exception_raise, through the stubs of both
-- sides, at the functions of src/exception_handler.cc.
use master_lib.Base.{ℕ, ◌≤◌, ◌≡◌, refl, ap, ◌∙◌, true, List, Option, none}
use master_lib.Base.Run.{Run, ok, fault, Cmd, Safe}
use master_lib.Host.{Target}
use master_lib.Mach.{Kernel}
use master_lib.ThreadState.{ThreadState}
use master_lib.Process.Listing.{process_exists}
use master_lib.MachExc.Message.{take_words}
use master_lib.MachExc.Client.{Transport, mach_exception_raise}
use master_lib.MachExc.Words.{Fits64}
use master_lib.MachExc.Rpc.{Connected}
use master_lib.MachExc.Rpc.Raise.{mach_exception_raise-catch}
use master_lib.ExceptionHandler.{
  Exception, Session, exception_thread_state, exception_callback, catch_mach_exception_raise,
}
use master_lib.ExceptionHandler.Safety.{IsReady, KeepsObjects}
use master_lib.ExceptionHandler.Verdict.{verdict, exception_callback-verdict}
use master_lib.ExceptionHandler.Daemon.{Life, alive, run_on, session_callbacks}

run_on-Safe :
    {W : Type 0} (m : Cmd (Session W) ℕ) (s : Session W) (P : ℕ → Session W → Type 0)
    → Safe P (m s)
    → (a : ℕ) × (s' : Session W) × (run_on m (alive s) ≡ (a, alive s')) × P a s'
run_on-Safe {W = W} m s P h = returned (m s) h
  where
    returned :
        (r : Run (Session W) ℕ)
        → Safe P r
        → (a : ℕ) × (s' : Session W) × (run_on (λ _. r) (alive s) ≡ (a, alive s')) × P a s'
    returned (ok a s') h = (a, s', refl, h)
    returned fault h = absurd h

-- The exception as the debugger sees it, with its own names of the ports.
abbrev pub raised : (ℕ → ℕ) → (port thread task kind : ℕ) → List ℕ → ℕ → Exception
raised translate port thread task kind code code_count = record {
  exception_port = translate port;
  thread = translate thread;
  task = translate task;
  kind = kind;
  code = take_words code_count code;
  code_count = code_count;
}

module _ {W : Type 0} (k : Kernel W) (t : Target)
    (invoke : ℕ → ThreadState → Cmd (Session W) ThreadState) (net : Transport (Life W))
    (translate : ℕ → ℕ) (connected : Connected net (session_callbacks k t invoke) translate) where
  -- The call of the client is the call of ExceptionCallback.
  mach_exception_raise-run_on :
      (port thread task kind : ℕ) (code : List ℕ) (code_count : ℕ) (s : Session W)
      → code_count ≤ 2
      → Fits64 code
      → (net.mig_get_reply_port (alive s)).1 ≡ alive s
      → mach_exception_raise net port thread task kind code code_count (alive s)
        ≡ run_on
            (exception_callback k t invoke (raised translate port thread task kind code code_count))
            (alive s)
  unfolding session_callbacks catch_mach_exception_raise
  mach_exception_raise-run_on port thread task kind code code_count s few fits kept =
      mach_exception_raise-catch net (session_callbacks k t invoke) translate connected port thread
        task kind code code_count (alive s) few fits
      ∙ ap
          (run_on (
            exception_callback k t invoke (raised translate port thread task kind code code_count)))
          kept

  -- What holds of every run of ExceptionCallback for the exception holds of the client's call.
  pub mach_exception_raise-Safe :
      (port thread task kind : ℕ) (code : List ℕ) (code_count : ℕ) (s : Session W)
      (P : ℕ → Session W → Type 0)
      → code_count ≤ 2
      → Fits64 code
      → (net.mig_get_reply_port (alive s)).1 ≡ alive s
      → Safe P
          (exception_callback k t invoke (raised translate port thread task kind code code_count) s)
      → (a : ℕ) × (s' : Session W) × (mach_exception_raise net port thread task kind code code_count
            (alive s)
          ≡ (a, alive s'))
        × P a s'
  mach_exception_raise-Safe port thread task kind code code_count s P few fits kept safe =
      let e = raised translate port thread task kind code code_count in
      let (a, s', run, holds) = run_on-Safe (exception_callback k t invoke e) s P safe in
      (
        a,
        s',
        mach_exception_raise-run_on port thread task kind code code_count s few fits kept ∙ run,
        holds,
      )

module _ {W : Type 0} (k : Kernel W) (t : Target)
    (stable : (pid : ℕ) (w : W)
      → (process_exists k pid w).0 ≡ true
      → (process_exists k pid (process_exists k pid w).1).0 ≡ true)
    (reads : k.reads_indeterminate ≡ true) (invoke : ℕ → ThreadState → Cmd (Session W) ThreadState)
    (client : KeepsObjects invoke) (net : Transport (Life W)) (translate : ℕ → ℕ)
    (connected : Connected net (session_callbacks k t invoke) translate) where
  -- Where a client's messages reach the debugger, whose handlers are alive and stay so while the
  -- client takes its reply port, whose pointers are live, whose null pointer leads to no object, and
  -- whose callbacks return and destroy no breakpoint, no process leaves the system's list between two
  -- listings, and a read of an uninitialised object gives what it holds: a call of
  -- `mach_exception_raise` with at most two 64-bit codes returns, with the debugger alive. Its status is
  -- KERN_SUCCESS for a breakpoint exception for which `ExceptionThreadState` makes an object (on x86 and
  -- arm64 it makes none), if the first installed breakpoint at the address that this object gives is
  -- enabled; the object is not loaded, so that this is the address that it happens to hold. The status
  -- is KERN_FAILURE for any other exception.
  pub mach_exception_raise-verdict :
      (port thread task kind : ℕ) (code : List ℕ) (code_count : ℕ) (s : Session W)
      → code_count ≤ 2
      → Fits64 code
      → (net.mig_get_reply_port (alive s)).1 ≡ alive s
      → IsReady s
      → s.handler.objects 0 ≡ none
      → let e = raised translate port thread task kind code code_count in
        (o : Option ThreadState) × (w : W) × (exception_thread_state k t e
            (k.thread_suspend e.thread s.handler.world)
          ≡ ok o w)
        × (s' : Session W) × (mach_exception_raise net port thread task kind code code_count
              (alive s)
            ≡ (verdict e o s.handler.objects s.handler.breakpoints, alive s'))
  mach_exception_raise-verdict port thread task kind code code_count s few fits kept h null =
      let e = raised translate port thread task kind code code_count in
      let (o, w, made, safe) =
        exception_callback-verdict k t stable reads invoke client e s h null in
      let (a, s', run, answered) =
        mach_exception_raise-Safe k t invoke net translate connected port thread task kind code
          code_count s (λ a _. a ≡ verdict e o s.handler.objects s.handler.breakpoints) few fits
          kept safe in
      (o, w, made, s', run ∙ ap (λ n. (n, alive s')) answered)
