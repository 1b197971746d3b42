-- ===== src/ExceptionHandler/Balance.antt =====
-- The suspend counts of the threads after ExceptionCallback.
use master_lib.Base.{
  ℕ, ◌-◌, ◌≡◌, refl, ap, ◌∙◌, inl, inr, true, List, [], ◌∷◌, Option, none, some, arith, ◌==◌,
  if◌then◌else◌, Bool-cases, Option-cases,
}
use master_lib.Base.Run.{Run, ok, fault, Cmd, and_then}
use master_lib.Host.{Target}
use master_lib.Mach.{Kernel, kern_success, exc_breakpoint}
use master_lib.Mach.Steady.{Looks, Steady, SuspendLaws}
use master_lib.ThreadState
use master_lib.ThreadState.{ThreadState}
use master_lib.ThreadState.Steady.{save-Steady}
use master_lib.Process.{Process}
use master_lib.Process.Listing.{get_process}
use master_lib.Process.Threads.{process_thread_state}
use master_lib.Process.Steady.{Keeps, get_process-Keeps, running_platform-Steady}
use master_lib.Breakpoint.{Breakpoint}
use master_lib.Breakpoint.Steady.{reset-Steady}
use master_lib.BreakpointHandler.{
  Handler, call, deref, find_loop, breakpoint_at_address, disable_breakpoint,
}
use master_lib.ExceptionHandler.{
  Exception, Session, on_world, on_handler, state_of_process, exception_thread_state, run_callback,
  handle, give_up, handle_at, handle_state, read_address, handle_exception, exception_callback,
}

-- A run that ends, if it returns, in a state with the value `n` of the quantity.
abbrev pub At : {W A : Type 0} → (W → ℕ) → ℕ → Run (Session W) A → Type 0
At obs n (ok a s) = obs s.handler.world ≡ n
At obs n fault = Unit {0}

At-bind :
    {W A B : Type 0} (obs : W → ℕ) (n m : ℕ) (r : Run (Session W) A) (f : A → Cmd (Session W) B)
    → At obs n r
    → ((a : A) (s : Session W) → obs s.handler.world ≡ n → At obs m (f a s))
    → At obs m (and_then r f)
At-bind obs n m (ok a s) f h next = next a s h
At-bind obs n m fault f h next = tt

Keeps-trans :
    {W A : Type 0} (obs : W → ℕ) (w w' : W) (r : Run W A)
    → Keeps obs w' r
    → obs w' ≡ obs w
    → Keeps obs w r
Keeps-trans obs w w' (ok a w'') h e = h ∙ e
Keeps-trans obs w w' fault h e = tt

module _ {W : Type 0} (k : Kernel W) (t : Target) (obs : W → ℕ) (laws : Looks k obs) where
  state_of_process-Keeps :
      (thread : ℕ) (r : Run W (Option Process)) (w : W)
      → Keeps obs w r
      → Keeps obs w (and_then r (state_of_process k t thread))
  unfolding state_of_process process_thread_state
  state_of_process-Keeps thread fault w h = tt
  state_of_process-Keeps thread (ok none w') w h = h
  state_of_process-Keeps thread (ok (some p) w') w h = running_platform-Steady k obs laws t p w' ∙ h

  pub exception_thread_state-Keeps :
      (e : Exception) (w : W) → Keeps obs w (exception_thread_state k t e w)
  unfolding exception_thread_state
  exception_thread_state-Keeps e w =
      let (status, pid, w') = k.pid_for_task e.task w in
      elim (Bool-cases ((k.pid_for_task e.task w).0 == kern_success)) [
        | inl found ↦ rw found (
            state_of_process-Keeps e.thread (get_process k pid w') w (
              Keeps-trans obs w w' (get_process k pid w') (get_process-Keeps k obs laws pid w')
                (laws.pid_for_task e.task w)))
        | inr lost ↦ rw lost (laws.pid_for_task e.task w)
      ]

module _ {W : Type 0} (k : Kernel W) (t : Target) (obs : W → ℕ) (laws : Steady k obs) where
  -- A run of the breakpoint handler that keeps the quantity.
  abbrev HandlerKeeps : {A : Type 0} → Handler W → Run (Handler W) A → Type 0
  HandlerKeeps h (ok a h') = obs h'.world ≡ obs h.world
  HandlerKeeps h fault = Unit {0}

  find_loop-Keeps :
      (address : ℕ) (ps : List ℕ) (h : Handler W) → HandlerKeeps h (find_loop address ps h)
  unfolding find_loop
  find_loop-Keeps address [] h = refl
  find_loop-Keeps address (p ∷ ps) h = ground (arith, find_loop-Keeps address ps h)

  deref-Keeps : (p : ℕ) (h : Handler W) → HandlerKeeps h (deref p h)
  unfolding deref
  deref-Keeps p h = ground arith

  disable-Keeps : (p : ℕ) (h : Handler W) → HandlerKeeps h (disable_breakpoint k t p h)
  unfolding disable_breakpoint
  disable-Keeps p h = elim (Option-cases (h.objects p)) [
    | inl e ↦ rw (e, call) tt
    | inr (b, e) ↦ rw (e, call) (reset-Steady k obs laws t b h.world)
  ]

  on_world-At :
      {A : Type 0} (m : Cmd W A) (n : ℕ) (s : Session W)
      → Keeps obs s.handler.world (m s.handler.world)
      → obs s.handler.world ≡ n
      → At obs n (on_world m s)
  on_world-At {A = A} m n s keeps e = lifted (m s.handler.world) keeps
    where
      lifted : (r : Run W A) → Keeps obs s.handler.world r → At obs n (on_world (λ _. r) s)
      lifted (ok a w') h = h ∙ e
      lifted fault h = tt

  on_handler-At :
      {A : Type 0} (m : Cmd (Handler W) A) (n : ℕ) (s : Session W)
      → HandlerKeeps s.handler (m s.handler)
      → obs s.handler.world ≡ n
      → At obs n (on_handler m s)
  on_handler-At {A = A} m n s keeps e = lifted (m s.handler) keeps
    where
      lifted : (r : Run (Handler W) A) → HandlerKeeps s.handler r → At obs n (on_handler (λ _. r) s)
      lifted (ok a h') h = h ∙ e
      lifted fault h = tt

  module _ (e : Exception) (invoke : ℕ → ThreadState → Cmd (Session W) ThreadState)
      (client : (cb : ℕ) (st : ThreadState) (s : Session W)
        → At obs (obs s.handler.world) (invoke cb st s))
      (after : ℕ → ℕ) (resumed : (w : W) → obs (k.thread_resume e.thread w) ≡ after (obs w)) where
    give_up-At :
        (n : ℕ) (s : Session W)
        → obs s.handler.world ≡ n
        → At obs (after n) (give_up k t invoke e s)
    unfolding give_up
    give_up-At n s h = resumed s.handler.world ∙ ap after h

    run_callback-At :
        (n : ℕ) (cb : Option ℕ) (st : ThreadState) (s : Session W)
        → obs s.handler.world ≡ n
        → At obs n (run_callback k t invoke cb st s)
    unfolding run_callback
    run_callback-At n none st s h = h
    run_callback-At n (some cb) st s h = rw (← h) (client cb st s)

    handle-At :
        (n p : ℕ) (b : Breakpoint) (st : ThreadState) (s : Session W)
        → obs s.handler.world ≡ n
        → At obs (after n) (handle k t invoke e p b st s)
    unfolding handle
    handle-At n p b st s h =
        At-bind obs n (after n) (run_callback k t invoke b.callback st s) _
          (run_callback-At n b.callback st s h)
          λ st' s1 h1.
            At-bind obs n (after n) (on_handler (disable_breakpoint k t p) _) _
              (on_handler-At (disable_breakpoint k t p) n
                (record s1 {
                  handler = record s1.handler {
                    world = (ThreadState.save k st' s1.handler.world).1;
                  };
                })
                (disable-Keeps p _) (save-Steady k obs laws.looks st' s1.handler.world ∙ h1))
              λ _ s2 h2. resumed s2.handler.world ∙ ap after h2

    handle_at-At :
        (n p : ℕ) (st : ThreadState) (s : Session W)
        → obs s.handler.world ≡ n
        → At obs (after n) (handle_at k t invoke e p st s)
    unfolding handle_at
    handle_at-At n p st s h = elim (Bool-cases (p == 0)) [
      | inl null ↦ rw null (give_up-At n s h)
      | inr found ↦ rw found (
          At-bind obs n (after n) (on_handler (deref p) s) _
            (on_handler-At (deref p) n s (deref-Keeps p s.handler) h)
            λ b s1 h1. elim (Bool-cases b.active) [
              | inl on ↦ rw on (handle-At n p b st s1 h1)
              | inr off ↦ rw off (give_up-At n s1 h1)
            ])
    ]

    read_address-At :
        (n : ℕ) (st : ThreadState) (s : Session W)
        → obs s.handler.world ≡ n
        → At obs n (read_address k t invoke st s)
    unfolding read_address
    read_address-At n st s h = elim (Bool-cases k.reads_indeterminate) [
      | inl reads ↦ rw reads h
      | inr undefined ↦ rw undefined tt
    ]

    handle_state-At :
        (n : ℕ) (o : Option ThreadState) (s : Session W)
        → obs s.handler.world ≡ n
        → At obs (after n) (handle_state k t invoke e o s)
    unfolding handle_state
    handle_state-At n none s h = give_up-At n s h
    handle_state-At n (some st) s h =
        At-bind obs n (after n) (read_address k t invoke st s) _ (read_address-At n st s h)
          λ a s1 h1.
            At-bind obs n (after n) (on_handler (breakpoint_at_address a) s1) _
              (on_handler-At (breakpoint_at_address a) n s1
                (unfold breakpoint_at_address in
                  find_loop-Keeps a s1.handler.breakpoints s1.handler)
                h1)
              λ p s2 h2. handle_at-At n p st s2 h2

    handle_exception-At :
        (n : ℕ) (s : Session W)
        → (e.kind == exc_breakpoint) ≡ true
        → obs s.handler.world ≡ n
        → At obs (after n) (handle_exception k t invoke e s)
    unfolding handle_exception
    handle_exception-At n s breakpoint h = rw breakpoint (
        At-bind obs n (after n) (on_world (exception_thread_state k t e) s) _
          (on_world-At (exception_thread_state k t e) n s
            (exception_thread_state-Keeps k t obs laws.looks e s.handler.world) h)
          λ o s1 h1. handle_state-At n o s1 h1)

module _ {W : Type 0} (k : Kernel W) (t : Target) (count : W → ℕ → ℕ) (laws : SuspendLaws k count)
    (e : Exception) (invoke : ℕ → ThreadState → Cmd (Session W) ThreadState)
    (client : (cb : ℕ) (st : ThreadState) (s : Session W) (u : ℕ)
      → At (λ w. count w u) (count s.handler.world u) (invoke cb st s)) where
  -- After `ExceptionCallback` of a breakpoint exception every thread has the suspend count that it
  -- had before, on every path on which the call returns, whether the breakpoint was handled or not,
  -- if the client's callback keeps the counts.
  pub exception_callback-At :
      (s : Session W) (u : ℕ)
      → (e.kind == exc_breakpoint) ≡ true
      → At (λ w. count w u) (count s.handler.world u) (exception_callback k t invoke e s)
  unfolding exception_callback
  exception_callback-At s u breakpoint = rw (← back) (
      handle_exception-At k t (λ w. count w u) (laws.steady u) e invoke
        (λ cb st s'. client cb st s' u) (λ n. if u == e.thread then n - 1 else n)
        (λ w. laws.resume e.thread w u) _ _ breakpoint refl)
    where
      back :
          (if u == e.thread
            then count (k.thread_suspend e.thread s.handler.world) u - 1
            else count (k.thread_suspend e.thread s.handler.world) u)
          ≡ count s.handler.world u
      back = ground (arith, laws.suspend e.thread s.handler.world u)
