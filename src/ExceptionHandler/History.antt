-- ===== src/ExceptionHandler/History.antt =====
-- What ExceptionCallback answers on every path, and what it adds to exception_history_.
use master_lib.Base.{
  ℕ, ◌≡◌, refl, ◌⊎◌, inl, inr, List, [], ◌∷◌, ◌++◌, Option, none, some, ◌==◌, Bool-cases,
}
use master_lib.Base.Run.{Run, ok, fault, Cmd, Ends, Ends-bind}
use master_lib.Host.{Target}
use master_lib.Mach.{Kernel, kern_success, kern_failure, exc_breakpoint}
use master_lib.ThreadState
use master_lib.ThreadState.{ThreadState}
use master_lib.Breakpoint.{Breakpoint}
use master_lib.BreakpointHandler.{Handler, deref, breakpoint_at_address, disable_breakpoint}
use master_lib.ExceptionHandler.{
  Exception, Session, on_world, on_handler, exception_thread_state, run_callback, handle, give_up,
  handle_at, handle_state, read_address, handle_exception, exception_callback,
}

abbrev pub IsAnswer : ℕ → Type 0
IsAnswer a = (a ≡ kern_success) ⊎ (a ≡ kern_failure)

-- The history is `es`; and the answer is one of the two besides.
abbrev Kept : {W A : Type 0} → List Exception → A → Session W → Type 0
Kept es a s = s.history ≡ es

abbrev Answered : {W : Type 0} → List Exception → ℕ → Session W → Type 0
Answered es a s = IsAnswer a × (s.history ≡ es)

module _ {W : Type 0} (es : List Exception) where
  on_world-Kept :
      {A : Type 0} (m : Cmd W A) (s : Session W) → s.history ≡ es → Ends (Kept es) (on_world m s)
  on_world-Kept {A = A} m s h = lifted (m s.handler.world)
    where
      lifted : (r : Run W A) → Ends (Kept es) (on_world (λ _. r) s)
      lifted (ok a w) = h
      lifted fault = tt

  on_handler-Kept :
      {A : Type 0} (m : Cmd (Handler W) A) (s : Session W)
      → s.history ≡ es
      → Ends (Kept es) (on_handler m s)
  on_handler-Kept {A = A} m s h = lifted (m s.handler)
    where
      lifted : (r : Run (Handler W) A) → Ends (Kept es) (on_handler (λ _. r) s)
      lifted (ok a w) = h
      lifted fault = tt

module _ {W : Type 0} (k : Kernel W) (t : Target)
    (invoke : ℕ → ThreadState → Cmd (Session W) ThreadState)
    (client : (cb : ℕ) (st : ThreadState) (s : Session W) → Ends (Kept s.history) (invoke cb st s))
    (e : Exception) (es : List Exception) where
  run_callback-Kept :
      (cb : Option ℕ) (st : ThreadState) (s : Session W)
      → s.history ≡ es
      → Ends (Kept es) (run_callback k t invoke cb st s)
  unfolding run_callback
  run_callback-Kept none st s h = h
  run_callback-Kept (some cb) st s h = rw (← h) (client cb st s)

  handle-Answered :
      (p : ℕ) (b : Breakpoint) (st : ThreadState) (s : Session W)
      → s.history ≡ es
      → Ends (Answered es) (handle k t invoke e p b st s)
  unfolding handle
  handle-Answered p b st s h =
      Ends-bind (Kept es) (Answered es) (run_callback k t invoke b.callback st s) _
        (run_callback-Kept b.callback st s h)
        λ st' s1 h1.
          Ends-bind (Kept es) (Answered es) (on_handler (disable_breakpoint k t p) _) _
            (on_handler-Kept es (disable_breakpoint k t p)
              (record s1 {
                handler = record s1.handler { world = (ThreadState.save k st' s1.handler.world).1 };
              })
              h1)
            λ _ s2 h2. (inl refl, h2)

  handle_at-Answered :
      (p : ℕ) (st : ThreadState) (s : Session W)
      → s.history ≡ es
      → Ends (Answered es) (handle_at k t invoke e p st s)
  unfolding handle_at give_up
  handle_at-Answered p st s h = elim (Bool-cases (p == 0)) [
    | inl null ↦ rw null (inr refl, h)
    | inr found ↦ rw found (
        Ends-bind (Kept es) (Answered es) (on_handler (deref p) s) _
          (on_handler-Kept es (deref p) s h)
          λ b s1 h1. elim (Bool-cases b.active) [
            | inl on ↦ rw on (handle-Answered p b st s1 h1)
            | inr off ↦ rw off (inr refl, h1)
          ])
  ]

  read_address-Kept :
      (st : ThreadState) (s : Session W)
      → s.history ≡ es
      → Ends (Kept es) (read_address k t invoke st s)
  unfolding read_address
  read_address-Kept st s h = elim (Bool-cases k.reads_indeterminate) [
    | inl reads ↦ rw reads h
    | inr undefined ↦ rw undefined tt
  ]

  handle_state-Answered :
      (o : Option ThreadState) (s : Session W)
      → s.history ≡ es
      → Ends (Answered es) (handle_state k t invoke e o s)
  unfolding handle_state give_up
  handle_state-Answered none s h = (inr refl, h)
  handle_state-Answered (some st) s h =
      Ends-bind (Kept es) (Answered es) (read_address k t invoke st s) _ (read_address-Kept st s h)
        λ a s1 h1.
          Ends-bind (Kept es) (Answered es) (on_handler (breakpoint_at_address a) s1) _
            (on_handler-Kept es (breakpoint_at_address a) s1 h1)
            λ p s2 h2. handle_at-Answered p st s2 h2

  handle_exception-Answered :
      (s : Session W) → s.history ≡ es → Ends (Answered es) (handle_exception k t invoke e s)
  unfolding handle_exception
  handle_exception-Answered s h = elim (Bool-cases (e.kind == exc_breakpoint)) [
    | inr other ↦ rw other (inr refl, h)
    | inl breakpoint ↦ rw breakpoint (
        Ends-bind (Kept es) (Answered es) (on_world (exception_thread_state k t e) s) _
          (on_world-Kept es (exception_thread_state k t e) s h)
          λ o s1 h1. handle_state-Answered o s1 h1)
  ]

-- The client's callbacks keep the history.
abbrev pub KeepsHistory : {W : Type 0} → (ℕ → ThreadState → Cmd (Session W) ThreadState) → Type 0
KeepsHistory {W = W} invoke =
    (cb : ℕ) (st : ThreadState) (s : Session W)
    → Ends (λ _ s'. s'.history ≡ s.history) (invoke cb st s)

module _ {W : Type 0} (k : Kernel W) (t : Target)
    (invoke : ℕ → ThreadState → Cmd (Session W) ThreadState) (client : KeepsHistory invoke) where
  -- On every path on which it returns, `ExceptionCallback` answers KERN_SUCCESS or KERN_FAILURE, and
  -- has added the exception, and nothing else, to the end of the history, if the client's callbacks
  -- keep the history.
  pub exception_callback-IsAnswer :
      (e : Exception) (s : Session W)
      → Ends
          (λ a s'. IsAnswer a × (s'.history ≡ s.history ++ e ∷ []))
          (exception_callback k t invoke e s)
  unfolding exception_callback
  exception_callback-IsAnswer e s =
      handle_exception-Answered k t invoke client e (s.history ++ e ∷ []) _ refl
