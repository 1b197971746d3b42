-- ===== src/ExceptionHandler.antt =====
-- src/exception_handler.h, src/exception_handler.cc: the classes Exception and ExceptionHandler and
-- the functions that the message server calls.
pub mod Balance
pub mod Outcome
pub mod Verdict
pub mod Debugger
pub mod Safety
pub mod Daemon
pub mod History
pub mod Setup
use master_lib.Base.{
  ℕ, Bool, true, false, not, ◌&&◌, List, [], ◌∷◌, ◌++◌, Option, none, some, ◌==◌, if◌then◌else◌,
}
use master_lib.Base.Run.{Run, ok, fault, Cmd, pure, and_then, ◌>>=◌, ◌>>◌}
use master_lib.Host.{Target}
use master_lib.Mach.{Kernel, kern_success, kern_failure, exc_breakpoint}
use master_lib.ThreadState
use master_lib.ThreadState.{ThreadState}
use master_lib.Process.{Process}
use master_lib.Process.Listing.{get_process}
use master_lib.Process.Threads.{process_thread_state}
use master_lib.Breakpoint.{Breakpoint}
use master_lib.BreakpointHandler.{Handler, deref, breakpoint_at_address, disable_breakpoint}

pub record Exception : Type 0 where
  pub exception_port : ℕ
  pub thread : ℕ
  pub task : ℕ
  pub kind : ℕ
  pub code : List ℕ
  pub code_count : ℕ

-- The two shared handlers, of breakpoints and of exceptions: `history` is exception_history_.
pub record Session (W : Type 0) : Type 0 where
  pub handler : Handler W
  pub history : List Exception

module _ {W : Type 0} where
  -- A call of the system, and one of the breakpoint handler.
  abbrev pub on_world : {A : Type 0} → Cmd W A → Cmd (Session W) A
  on_world m s = elim (m s.handler.world) [
    | ok a w ↦ ok a (record s { handler = record s.handler { world = w } })
    | fault ↦ fault
  ]

  abbrev pub on_handler : {A : Type 0} → Cmd (Handler W) A → Cmd (Session W) A
  on_handler m s = elim (m s.handler) [ ok a h ↦ ok a (record s { handler = h }) | fault ↦ fault ]

  abbrev pub push_history : Exception → Cmd (Session W) (Unit {0})
  push_history e s = ok tt (record s { history = s.history ++ e ∷ [] })

module _ {W : Type 0} (k : Kernel W) (t : Target) where
  state_of_process : ℕ → Option Process → Cmd W (Option ThreadState)
  state_of_process thread none w = ok none w
  state_of_process thread (some p) w =
      let (state, w') = process_thread_state k t (some p) thread w in ok state w'

  -- Exception::ExceptionThreadState: none is the null pointer. The new state is not loaded.
  unfoldable pub exception_thread_state : Exception → Cmd W (Option ThreadState)
  unfolding state_of_process
  exception_thread_state e w =
      let (status, pid, w') = k.pid_for_task e.task w in
      if status == kern_success
      then and_then (get_process k pid w') (state_of_process e.thread)
      else ok none w'

  -- A callback of the client runs on the thread state, and may use the handlers.
  module _ (invoke : ℕ → ThreadState → Cmd (Session W) ThreadState) where
    run_callback : Option ℕ → ThreadState → Cmd (Session W) ThreadState
    run_callback none s = pure s
    run_callback (some cb) s = invoke cb s

    -- the inner branch, with the breakpoint found and active
    handle : Exception → ℕ → Breakpoint → ThreadState → Cmd (Session W) ℕ
    unfolding run_callback
    handle e p b s = do
      s' ← run_callback b.callback s
      on_world (λ w. ok tt (ThreadState.save k s' w).1)
      on_handler (disable_breakpoint k t p)
      on_world (λ w. ok tt (k.thread_resume e.thread w))
      pure kern_success

    -- the last two lines
    give_up : Exception → Cmd (Session W) ℕ
    give_up e = do on_world (λ w. ok tt (k.thread_resume e.thread w)); pure kern_failure

    -- `if (bkpt && bkpt->active())`
    handle_at : Exception → ℕ → ThreadState → Cmd (Session W) ℕ
    unfolding handle give_up
    handle_at e p s =
        if p == 0
        then give_up e
        else (do b ← on_handler (deref p); if b.active then handle e p b s else give_up e)

    -- `state->CurrentAddress()`, which reads the structure of the new state: nothing has loaded it.
    read_address : ThreadState → Cmd (Session W) ℕ
    read_address st s =
        if k.reads_indeterminate then ok (ThreadState.current_address st) s else fault

    -- `if (state)`
    handle_state : Exception → Option ThreadState → Cmd (Session W) ℕ
    unfolding read_address handle_at give_up
    handle_state e none = give_up e
    handle_state e (some st) = do
      address ← read_address st
      p ← on_handler (breakpoint_at_address address)
      handle_at e p st

    -- from the test of the type on
    handle_exception : Exception → Cmd (Session W) ℕ
    unfolding handle_state
    handle_exception e =
        if e.kind == exc_breakpoint
        then (on_world (exception_thread_state e) >>= handle_state e)
        else pure kern_failure

    unfoldable pub exception_callback : Exception → Cmd (Session W) ℕ
    unfolding handle_exception
    exception_callback e = do
      on_world (λ w. ok tt (k.thread_suspend e.thread w))
      push_history e
      handle_exception e

    -- The functions that mach_exc_server calls.
    unfoldable pub catch_mach_exception_raise :
        (exception_port thread task kind : ℕ) → List ℕ → ℕ → Cmd (Session W) ℕ
    unfolding exception_callback
    catch_mach_exception_raise exception_port thread task kind code code_count =
        exception_callback (record {
          exception_port = exception_port;
          thread = thread;
          task = task;
          kind = kind;
          code = code;
          code_count = code_count;
        })

    unfoldable pub catch_mach_exception_raise_state : Cmd (Session W) ℕ
    catch_mach_exception_raise_state = pure kern_failure

    unfoldable pub catch_mach_exception_raise_state_identity : Cmd (Session W) ℕ
    catch_mach_exception_raise_state_identity = pure kern_failure
