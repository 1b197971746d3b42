-- ===== src/ExceptionHandler/Safety.antt =====
-- When ExceptionCallback returns.
use master_lib.Base.{
  ℕ, ◌≡◌, refl, sym, ◌⊎◌, inl, inr, true, List, [], ◌∷◌, ◌++◌, Option, none, some, ◌==◌, Bool-cases,
  arith,
}
use master_lib.Base.Run.{Run, ok, fault, Cmd, Safe, Safe-bind}
use mathlib.Core.Path.{subst}
use master_lib.Host.{Target}
use master_lib.Mach.{Kernel, kern_success, exc_breakpoint}
use master_lib.ThreadState
use master_lib.ThreadState.{ThreadState}
use master_lib.Process.{Process}
use master_lib.Process.Listing.{process_exists}
use master_lib.Process.Lookup.{get_process-Returns}
use master_lib.Breakpoint
use master_lib.Breakpoint.{Breakpoint}
use master_lib.BreakpointHandler.{
  Handler, call, deref, breakpoint_at_address, disable_breakpoint, store,
}
use master_lib.BreakpointHandler.Live.{Live, Live-store}
use master_lib.BreakpointHandler.Lookup.{FirstAt, breakpoint_at_address-FirstAt}
use master_lib.ExceptionHandler.{
  Exception, Session, on_world, on_handler, state_of_process, exception_thread_state, run_callback,
  handle, give_up, handle_at, handle_state, read_address, handle_exception, exception_callback,
}

-- The pointer leads to an object.
abbrev pub Present : {W : Type 0} → ℕ → Session W → Type 0
Present p s = (b : Breakpoint) × (s.handler.objects p ≡ some b)

abbrev pub IsReady : {W : Type 0} → Session W → Type 0
IsReady s = Live s.handler.objects s.handler.breakpoints

-- The client's callbacks return, install nothing but objects, and destroy none.
abbrev pub KeepsObjects : {W : Type 0} → (ℕ → ThreadState → Cmd (Session W) ThreadState) → Type 0
KeepsObjects {W = W} invoke =
    (cb : ℕ) (st : ThreadState) (s : Session W) (p : ℕ)
    → IsReady s
    → Present p s
    → Safe (λ _ s'. IsReady s' × Present p s') (invoke cb st s)

FirstAt-Present :
    (objects : ℕ → Option Breakpoint) (address : ℕ) (ps : List ℕ) (p : ℕ)
    → FirstAt objects address ps p
    → (p ≡ 0) ⊎ ((b : Breakpoint) × (objects p ≡ some b))
FirstAt-Present objects address [] p h = inl h
FirstAt-Present objects address (q ∷ qs) p (b, e, h) = elim h [
  | inl (hit, same) ↦ inr (b, rw same e)
  | inr (miss, later) ↦ FirstAt-Present objects address qs p later
]

pub on_handler-Safe :
    {W A : Type 0} (P : A → Session W → Type 0) (m : Cmd (Handler W) A) (s : Session W) (a : A)
    (h : Handler W)
    → m s.handler ≡ ok a h
    → P a (record s { handler = h })
    → Safe P (on_handler m s)
on_handler-Safe {W = W} {A = A} P m s a h run holds = subst lifted (sym run) holds
  where
    lifted : Run (Handler W) A → Type 0
    lifted r = Safe P (on_handler (λ _. r) s)

pub deref-ok :
    {W : Type 0} (p : ℕ) (h : Handler W) (b : Breakpoint)
    → h.objects p ≡ some b
    → deref p h ≡ ok b h
unfolding deref
deref-ok p h b found = rw (deref, found) refl

module _ {W : Type 0} (k : Kernel W) (t : Target)
    (stable : (pid : ℕ) (w : W)
      → (process_exists k pid w).0 ≡ true
      → (process_exists k pid (process_exists k pid w).1).0 ≡ true)
    (reads : k.reads_indeterminate ≡ true) (invoke : ℕ → ThreadState → Cmd (Session W) ThreadState)
    (client : KeepsObjects invoke) (e : Exception) where
  Ready : {A : Type 0} → A → Session W → Type 0
  Ready a s = IsReady s

  give_up-Safe : (s : Session W) → IsReady s → Safe Ready (give_up k t invoke e s)
  unfolding give_up Ready
  give_up-Safe s h = h

  disable-Safe :
      (p : ℕ) (s : Session W)
      → IsReady s
      → Present p s
      → Safe Ready (on_handler (disable_breakpoint k t p) s)
  unfolding disable_breakpoint call Ready
  disable-Safe p s h (b, found) =
      let (done, b', w) = Breakpoint.reset k t b s.handler.world in
      on_handler-Safe Ready (disable_breakpoint k t p) s done
        (record s.handler { world = w; objects = store s.handler.objects p b' })
        (rw (call, found) refl) (Live-store s.handler.objects s.handler.breakpoints p b' h)

  run_callback-Safe :
      (cb : Option ℕ) (st : ThreadState) (s : Session W) (p : ℕ)
      → IsReady s
      → Present p s
      → Safe (λ _ s'. IsReady s' × Present p s') (run_callback k t invoke cb st s)
  unfolding run_callback
  run_callback-Safe none st s p h found = (h, found)
  run_callback-Safe (some cb) st s p h found = client cb st s p h found

  handle-Safe :
      (p : ℕ) (b : Breakpoint) (st : ThreadState) (s : Session W)
      → IsReady s
      → Present p s
      → Safe Ready (handle k t invoke e p b st s)
  unfolding handle Ready
  handle-Safe p b st s h found =
      Safe-bind (λ _ s'. IsReady s' × Present p s') Ready (run_callback k t invoke b.callback st s)
        _ (run_callback-Safe b.callback st s p h found)
        λ st' s1 h1.
          Safe-bind Ready Ready (on_handler (disable_breakpoint k t p) _) _
            (disable-Safe p
              (record s1 {
                handler = record s1.handler { world = (ThreadState.save k st' s1.handler.world).1 };
              })
              h1.0 h1.1)
            λ _ s2 h2. h2

  handle_at-Safe :
      (p : ℕ) (st : ThreadState) (s : Session W)
      → IsReady s
      → (p ≡ 0) ⊎ Present p s
      → Safe Ready (handle_at k t invoke e p st s)
  unfolding handle_at
  handle_at-Safe p st s h found = elim (Bool-cases (p == 0)) [
    | inl null ↦ rw null (give_up-Safe s h)
    | inr there ↦ elim found [
      | inl null ↦ absurd (ground (arith, null, there))
      | inr (b, found) ↦ rw there (
          Safe-bind (λ _ s'. IsReady s' × Present p s') Ready (on_handler (deref p) s) _
            (on_handler-Safe (λ _ s'. IsReady s' × Present p s') (deref p) s b s.handler
              (deref-ok p s.handler b found) (h, (b, found)))
            λ b' s1 h1. elim (Bool-cases b'.active) [
              | inl on ↦ rw on (handle-Safe p b' st s1 h1.0 h1.1)
              | inr off ↦ rw off (give_up-Safe s1 h1.0)
            ])
    ]
  ]

  read_address-Safe :
      (st : ThreadState) (s : Session W) → IsReady s → Safe Ready (read_address k t invoke st s)
  unfolding read_address Ready
  read_address-Safe st s h = rw reads h

  handle_state-Safe :
      (o : Option ThreadState) (s : Session W)
      → IsReady s
      → Safe Ready (handle_state k t invoke e o s)
  unfolding handle_state Ready
  handle_state-Safe none s h = give_up-Safe s h
  handle_state-Safe (some st) s h =
      Safe-bind Ready Ready (read_address k t invoke st s) _ (read_address-Safe st s h) λ a s1 h1.
        let (p, run, first) = breakpoint_at_address-FirstAt a s1.handler h1 in
        Safe-bind (λ p' s'. IsReady s' × ((p' ≡ 0) ⊎ Present p' s')) Ready
          (on_handler (breakpoint_at_address a) s1) _
          (on_handler-Safe (λ p' s'. IsReady s' × ((p' ≡ 0) ⊎ Present p' s'))
            (breakpoint_at_address a) s1 p s1.handler run
            (h1, FirstAt-Present s1.handler.objects a s1.handler.breakpoints p first))
          λ p' s2 h2. handle_at-Safe p' st s2 h2.0 h2.1

  state_of_process-Safe :
      (o : Option Process) (w : W) → Safe (λ _ _. Unit {0}) (state_of_process k t e.thread o w)
  unfolding state_of_process
  state_of_process-Safe none w = tt
  state_of_process-Safe (some p) w = tt

  pub exception_thread_state-Safe :
      (w : W) → Safe (λ _ _. Unit {0}) (exception_thread_state k t e w)
  unfolding exception_thread_state
  exception_thread_state-Safe w =
      let (status, pid, w1) = k.pid_for_task e.task w in
      elim (Bool-cases ((k.pid_for_task e.task w).0 == kern_success)) [
        | inr lost ↦ rw lost tt
        | inl found ↦
            let (o, (w2, run)) = get_process-Returns k pid w1 (stable pid w1) in
            rw (found, run) (state_of_process-Safe o w2)
      ]

  on_world-Safe :
      {A : Type 0} (m : Cmd W A) (s : Session W)
      → Safe (λ _ _. Unit {0}) (m s.handler.world)
      → IsReady s
      → Safe Ready (on_world m s)
  unfolding Ready
  on_world-Safe {A = A} m s returns h = lifted (m s.handler.world) returns
    where
      lifted :
          (r : Run W A) → Safe (λ _ _. Unit {0}) r → Safe (λ _ s'. IsReady s') (on_world (λ _. r) s)
      lifted (ok a w) u = h
      lifted fault u = absurd u

  -- Where the handler's pointers are live, no process leaves the system's list between two listings,
  -- and the client's callbacks return and destroy no breakpoint, `ExceptionCallback` returns, without
  -- undefined behaviour, and leaves the handler's pointers live.
  pub exception_callback-Safe :
      (s : Session W) → IsReady s → Safe (λ _ s'. IsReady s') (exception_callback k t invoke e s)
  unfolding exception_callback handle_exception Ready
  exception_callback-Safe s h = elim (Bool-cases (e.kind == exc_breakpoint)) [
    | inr other ↦ rw other h
    | inl breakpoint ↦ rw breakpoint (
        Safe-bind Ready Ready (on_world (exception_thread_state k t e) _) _
          (on_world-Safe (exception_thread_state k t e)
            (record {
              handler = record s.handler { world = k.thread_suspend e.thread s.handler.world };
              history = s.history ++ e ∷ [];
            })
            (exception_thread_state-Safe (k.thread_suspend e.thread s.handler.world)) h)
          λ o s1 h1. handle_state-Safe o s1 h1)
  ]
