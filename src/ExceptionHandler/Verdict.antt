-- ===== src/ExceptionHandler/Verdict.antt =====
-- Which breakpoint exceptions ExceptionCallback handles.
use mathlib.Core.Path.{subst}
use master_lib.Base.{
  ◌⊎◌, ℕ, ◌≡◌, refl, sym, inl, inr, true, false, List, [], ◌∷◌, ◌++◌, Option, none, some, ◌==◌,
  if◌then◌else◌, Bool-cases, ==_iff,
}
use master_lib.Base.Run.{
  ok, fault, Cmd, and_then, Ends, Ends-any, Ends-bind, Safe, Safe-Ends, Safe-Returns,
}
use master_lib.Host.{Target}
use master_lib.Mach.{Kernel, kern_success, kern_failure, exc_breakpoint}
use master_lib.ThreadState
use master_lib.ThreadState.{ThreadState}
use master_lib.Breakpoint.{Breakpoint}
use master_lib.BreakpointHandler.{deref, breakpoint_at_address, disable_breakpoint}
use master_lib.BreakpointHandler.Lookup.{FirstAt, breakpoint_at_address-FirstAt}
use master_lib.ExceptionHandler.{
  Exception, Session, on_world, on_handler, exception_thread_state, run_callback, handle, give_up,
  handle_at, handle_state, read_address, handle_exception, exception_callback,
}
use master_lib.ExceptionHandler.Safety.{
  IsReady, KeepsObjects, exception_thread_state-Safe, exception_callback-Safe,
}
use master_lib.Process.Listing.{process_exists}

-- The answer for an object that has been found.
abbrev answer_for : Option Breakpoint → ℕ
answer_for none = kern_failure
answer_for (some b) = if b.active then kern_success else kern_failure

-- KERN_SUCCESS exactly where the first of the breakpoints at the address is enabled.
abbrev pub answer_at : (ℕ → Option Breakpoint) → ℕ → List ℕ → ℕ
answer_at objects address [] = kern_failure
answer_at objects address (p ∷ ps) = elim (objects p) [
  | none ↦ kern_failure
  | some b ↦ if b.address == address then answer_for (some b) else answer_at objects address ps
]

-- The answer to an exception, by its kind and the state of its thread that has been made.
abbrev pub verdict : Exception → Option ThreadState → (ℕ → Option Breakpoint) → List ℕ → ℕ
verdict e none objects ps = kern_failure
verdict e (some st) objects ps =
    if e.kind == exc_breakpoint
    then answer_at objects (ThreadState.current_address st) ps
    else kern_failure

verdict-other :
    (e : Exception) (o : Option ThreadState) (objects : ℕ → Option Breakpoint) (ps : List ℕ)
    → (e.kind == exc_breakpoint) ≡ false
    → verdict e o objects ps ≡ kern_failure
verdict-other e none objects ps other = refl
verdict-other e (some st) objects ps other = rw other refl

FirstAt-answer_at :
    (objects : ℕ → Option Breakpoint) (address : ℕ) (ps : List ℕ) (p : ℕ)
    → objects 0 ≡ none
    → FirstAt objects address ps p
    → answer_at objects address ps ≡ answer_for (objects p)
FirstAt-answer_at objects address [] p null h = rw (h, null) refl
FirstAt-answer_at objects address (q ∷ qs) p null (b, e, h) = elim h [
  | inl (hit, same) ↦
      let found : (b.address == address) ≡ true = (==_iff b.address address).1 hit in
      rw (answer_at, same, e, found) refl
  | inr (miss, later) ↦ elim (Bool-cases (b.address == address)) [
    | inl hit ↦ absurd (miss ((==_iff b.address address).0 hit))
    | inr other ↦ rw (answer_at, e, other) (FirstAt-answer_at objects address qs p null later)
  ]
]

module _ {W : Type 0} (k : Kernel W) (t : Target)
    (invoke : ℕ → ThreadState → Cmd (Session W) ThreadState) (e : Exception) where
  handle-success :
      (p : ℕ) (b : Breakpoint) (st : ThreadState) (s : Session W)
      → Ends (λ a _. a ≡ kern_success) (handle k t invoke e p b st s)
  unfolding handle
  handle-success p b st s =
      Ends-bind (λ _ _. Unit {0}) (λ a _. a ≡ kern_success)
        (run_callback k t invoke b.callback st s) _ (Ends-any _)
        λ st' s1 _.
          Ends-bind (λ _ _. Unit {0}) (λ a _. a ≡ kern_success)
            (on_handler (disable_breakpoint k t p) _) _ (Ends-any _) λ _ s2 _. refl

  handle_at-answer_for :
      (p : ℕ) (st : ThreadState) (s : Session W)
      → s.handler.objects 0 ≡ none
      → Ends (λ a _. a ≡ answer_for (s.handler.objects p)) (handle_at k t invoke e p st s)
  unfolding handle_at give_up deref
  handle_at-answer_for p st s null = elim (Bool-cases (p == 0)) [
    | inl zero ↦ rw (zero, (==_iff p 0).0 zero, null) refl
    | inr there ↦ rw there (found (s.handler.objects p))
  ]
    where
      found :
          (o : Option Breakpoint)
          → Ends
              (λ a _. a ≡ answer_for o)
              (and_then
                (on_handler (λ h. elim o [ none ↦ fault | some b ↦ ok b h ]) s)
                λ b. if b.active then handle k t invoke e p b st else give_up k t invoke e)
      found none = tt
      found (some b) = elim (Bool-cases b.active) [
        | inl on ↦ rw on (handle-success p b st s)
        | inr off ↦ rw off refl
      ]

  read_address-cases :
      (st : ThreadState) (s : Session W)
      → (read_address k t invoke st s ≡ ok (ThreadState.current_address st) s)
        ⊎ (read_address k t invoke st s ≡ fault)
  unfolding read_address
  read_address-cases st s = elim (Bool-cases k.reads_indeterminate) [
    | inl reads ↦ inl (rw reads refl)
    | inr undefined ↦ inr (rw undefined refl)
  ]

  handle_state-verdict :
      (o : Option ThreadState) (s : Session W)
      → IsReady s
      → s.handler.objects 0 ≡ none
      → (e.kind == exc_breakpoint) ≡ true
      → Ends
          (λ a _. a ≡ verdict e o s.handler.objects s.handler.breakpoints)
          (handle_state k t invoke e o s)
  unfolding handle_state give_up
  handle_state-verdict none s h null kind = refl
  handle_state-verdict (some st) s h null kind =
      let address = ThreadState.current_address st in
      let (p, run, first) = breakpoint_at_address-FirstAt address s.handler h in
      rw (kind, FirstAt-answer_at s.handler.objects address s.handler.breakpoints p null first)
        (elim (read_address-cases st s) [
          | inl reads ↦ rw reads (at_found p address run)
          | inr undefined ↦ rw undefined tt
        ])
    where
      at_found :
          (p address : ℕ)
          → breakpoint_at_address address s.handler ≡ ok p s.handler
          → Ends
              (λ a _. a ≡ answer_for (s.handler.objects p))
              (and_then
                (on_handler (breakpoint_at_address address) s)
                λ p'. handle_at k t invoke e p' st)
      at_found p address run =
          subst
            (λ r.
              Ends (λ a _. a ≡ answer_for (s.handler.objects p))
                (and_then (on_handler (λ _. r) s) (λ p'. handle_at k t invoke e p' st)))
            (sym run) (handle_at-answer_for p st s null)

  exception_callback-Ends :
      (s : Session W) (o : Option ThreadState) (w : W)
      → IsReady s
      → s.handler.objects 0 ≡ none
      → exception_thread_state k t e (k.thread_suspend e.thread s.handler.world) ≡ ok o w
      → Ends
          (λ a _. a ≡ verdict e o s.handler.objects s.handler.breakpoints)
          (exception_callback k t invoke e s)
  unfolding exception_callback handle_exception
  exception_callback-Ends s o w h null made = elim (Bool-cases (e.kind == exc_breakpoint)) [
    | inl trap ↦ rw trap (
        subst
          (λ r.
            Ends (λ a _. a ≡ verdict e o s.handler.objects s.handler.breakpoints)
              (and_then
                (on_world (λ _. r)
                  (record {
                    handler = record s.handler {
                      world = k.thread_suspend e.thread s.handler.world;
                    };
                    history = s.history ++ e ∷ [];
                  }))
                (handle_state k t invoke e)))
          (sym made)
          (handle_state-verdict o
            (record { handler = record s.handler { world = w }; history = s.history ++ e ∷ [] }) h
            null trap))
    | inr other ↦ rw other (sym (verdict-other e o s.handler.objects s.handler.breakpoints other))
  ]

module _ {W : Type 0} (k : Kernel W) (t : Target)
    (stable : (pid : ℕ) (w : W)
      → (process_exists k pid w).0 ≡ true
      → (process_exists k pid (process_exists k pid w).1).0 ≡ true)
    (reads : k.reads_indeterminate ≡ true) (invoke : ℕ → ThreadState → Cmd (Session W) ThreadState)
    (client : KeepsObjects invoke) (e : Exception) where
  -- Where the handler's pointers are live, the null pointer leads to no object, no process leaves the
  -- system's list between two listings, a read of an uninitialised object gives what it holds, and the
  -- client's callbacks return and destroy no breakpoint, `ExceptionCallback` returns, after `ExceptionThreadState` has returned a state or null: it answers
  -- KERN_SUCCESS for a breakpoint exception with a state at whose (never loaded) address the first of the installed
  -- breakpoints is enabled, and KERN_FAILURE for any other.
  pub exception_callback-verdict :
      (s : Session W)
      → IsReady s
      → s.handler.objects 0 ≡ none
      → (o : Option ThreadState) × (w : W) × (exception_thread_state k t e
            (k.thread_suspend e.thread s.handler.world)
          ≡ ok o w)
        × Safe
            (λ a _. a ≡ verdict e o s.handler.objects s.handler.breakpoints)
            (exception_callback k t invoke e s)
  exception_callback-verdict s h null =
      let w0 = k.thread_suspend e.thread s.handler.world in
      let (o, w, made) =
        Safe-Returns (λ _ _. Unit {0}) (exception_thread_state k t e w0)
          (exception_thread_state-Safe k t stable reads invoke client e w0) in
      (
        o,
        w,
        made,
        Safe-Ends (λ _ s'. IsReady s')
            (λ a _. a ≡ verdict e o s.handler.objects s.handler.breakpoints)
            (exception_callback k t invoke e s)
            (exception_callback-Safe k t stable reads invoke client e s h)
            (exception_callback-Ends k t invoke e s o w h null made),
      )
