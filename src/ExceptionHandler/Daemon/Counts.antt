-- ===== src/ExceptionHandler/Daemon/Counts.antt =====
-- The suspend counts of the threads while server_thread runs.
use master_lib.Base.{
  ℕ, ◌+◌, ◌≡◌, ◌∙◌, ap, inl, inr, true, false, List, [], ◌∷◌, ◌++◌, arith, ◌==◌, if◌then◌else◌,
  Bool-cases,
}
use master_lib.Base.Run.{Run, ok, fault, Cmd, Ends}
use master_lib.Host.{Target}
use master_lib.Mach.{Kernel, exc_breakpoint}
use master_lib.Mach.Steady.{SuspendLaws}
use master_lib.ThreadState.{ThreadState}
use master_lib.ExceptionHandler.{Exception, Session, exception_callback}
use master_lib.ExceptionHandler.Balance.{At, exception_callback-At}
use master_lib.ExceptionHandler.Outcome.{exception_callback-other}
use master_lib.ExceptionHandler.History.{KeepsHistory, IsAnswer, exception_callback-IsAnswer}
use master_lib.ExceptionHandler.Daemon.Loop.{server_thread-Preserved}
use master_lib.ExceptionHandler.Daemon.{
  Life, alive, crashed, run_on, Receiver, Served, server_thread,
}

-- The entries of the history that are exceptions of the thread `u` other than breakpoints.
abbrev pub others : ℕ → List Exception → ℕ
others u [] = 0
others u (e ∷ es) =
    (if e.kind == exc_breakpoint then 0 else if u == e.thread then 1 else 0) + others u es

others-append : (u : ℕ) (es fs : List Exception) → others u (es ++ fs) ≡ others u es + others u fs
others-append u [] fs = omega arith
others-append u (e ∷ es) fs = omega (arith, others-append u es fs)

-- The client's callbacks keep the suspend counts.
abbrev pub KeepsCounts :
    {W : Type 0} → (W → ℕ → ℕ) → (ℕ → ThreadState → Cmd (Session W) ThreadState) → Type 0
KeepsCounts {W = W} count invoke =
    (cb : ℕ) (st : ThreadState) (s : Session W) (u : ℕ)
    → At (λ w. count w u) (count s.handler.world u) (invoke cb st s)

module _ {W : Type 0} (k : Kernel W) (t : Target) (count : W → ℕ → ℕ) (laws : SuspendLaws k count)
    (invoke : ℕ → ThreadState → Cmd (Session W) ThreadState) (history : KeepsHistory invoke)
    (counts : KeepsCounts count invoke) (base : ℕ → ℕ) where
  -- Every thread is suspended as often as it was at first and once more for each of its exceptions
  -- in the history that is no breakpoint.
  abbrev pub IsBalanced : Session W → Type 0
  IsBalanced s = (u : ℕ) → count s.handler.world u ≡ base u + others u s.history

  exception_callback-IsBalanced :
      (e : Exception) (s : Session W)
      → IsBalanced s
      → Ends (λ _ s'. IsBalanced s') (exception_callback k t invoke e s)
  exception_callback-IsBalanced e s h = elim (Bool-cases (e.kind == exc_breakpoint)) [
    | inr other ↦ rw (exception_callback-other k t invoke e s other) (suspended other)
    | inl breakpoint ↦
        combined (exception_callback k t invoke e s) breakpoint
          (λ u. exception_callback-At k t count laws e invoke counts s u breakpoint)
          (exception_callback-IsAnswer k t invoke history e s)
  ]
    where
      more : (u : ℕ) → others u (s.history ++ e ∷ []) ≡ others u s.history + others u (e ∷ [])
      more u = others-append u s.history (e ∷ [])

      suspended :
          (e.kind == exc_breakpoint) ≡ false
          → (u : ℕ)
          → count (k.thread_suspend e.thread s.handler.world) u
            ≡ base u + others u (s.history ++ e ∷ [])
      suspended other u = rw (laws.suspend, more, other) (ground (arith, h u))

      combined :
          (r : Run (Session W) ℕ)
          → (e.kind == exc_breakpoint) ≡ true
          → ((u : ℕ) → At (λ w. count w u) (count s.handler.world u) r)
          → Ends (λ a s'. IsAnswer a × (s'.history ≡ s.history ++ e ∷ [])) r
          → Ends (λ _ s'. IsBalanced s') r
      combined (ok a s') breakpoint same grown =
          λ u. same u ∙ h u ∙ ap (λ n. base u + n) (rw (grown.1, more, breakpoint) (omega arith))
      combined fault breakpoint same grown = tt

  abbrev pub LifeIsBalanced : Life W → Type 0
  LifeIsBalanced (alive s) = IsBalanced s
  LifeIsBalanced crashed = Unit {0}

  run_on-LifeIsBalanced :
      (e : Exception) (s : Session W)
      → IsBalanced s
      → LifeIsBalanced (run_on (exception_callback k t invoke e) (alive s)).1
  run_on-LifeIsBalanced e s h =
      lifted (exception_callback k t invoke e s) (exception_callback-IsBalanced e s h)
    where
      lifted :
          (r : Run (Session W) ℕ)
          → Ends (λ _ s'. IsBalanced s') r
          → LifeIsBalanced (run_on (λ _. r) (alive s)).1
      lifted (ok a s') h = h
      lifted fault h = tt

  module _ {S : Type 0} (ndr : ℕ × ℕ) (receiver : Receiver S (Life W)) (port : ℕ)
      (box : Served receiver port) where
    -- However many rounds `server_thread` has run, and whatever messages have come in: while the
    -- process is alive, every thread is suspended as often as at first, and once more for each of its
    -- exceptions in the history that is no breakpoint, if that held at first and the client's
    -- callbacks keep the counts and the history.
    pub server_thread-LifeIsBalanced :
        (rounds : ℕ) (s : S)
        → LifeIsBalanced (box.life s)
        → LifeIsBalanced (box.life (server_thread k t invoke ndr receiver port rounds s))
    server_thread-LifeIsBalanced rounds s b =
        server_thread-Preserved k t invoke LifeIsBalanced run_on-LifeIsBalanced ndr receiver port
          box rounds s b
