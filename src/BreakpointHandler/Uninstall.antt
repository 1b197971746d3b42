-- ===== src/BreakpointHandler/Uninstall.antt =====
-- What UninstallBreakpoint does to the handler.
use mathlib.Core.List.{append_assoc, append-nil}
use master_lib.Base.{
  ℕ, ◌≡◌, refl, sym, ap, ◌∙◌, inl, inr, Bool, true, false, List, [], ◌∷◌, ◌++◌, some, arith, ◌==◌,
  if◌then◌else◌, ==_refl, has, Bool-cases, Option-cases,
}
use master_lib.Base.Run.{Run, ok, fault}
use master_lib.Host.{Target}
use master_lib.Mach.{Kernel}
use master_lib.Breakpoint
use master_lib.Breakpoint.{Breakpoint}
use master_lib.BreakpointHandler.{Handler, store, call, uninstall_loop, uninstall_breakpoint}

module _ {W : Type 0} (k : Kernel W) (t : Target) (p : ℕ) where
  step_miss :
      (q : ℕ) (rest before : List ℕ) (h : Handler W)
      → (q == p) ≡ false
      → uninstall_loop k t p before (q ∷ rest) h ≡ uninstall_loop k t p (before ++ q ∷ []) rest h
  unfolding uninstall_loop
  step_miss q rest before h miss = rw (miss, uninstall_loop)

  -- The walk over elements that are not the breakpoint.
  walk :
      (qs before rest : List ℕ) (h : Handler W)
      → has p qs ≡ false
      → uninstall_loop k t p before (qs ++ rest) h ≡ uninstall_loop k t p (before ++ qs) rest h
  walk [] before rest h out = rw append-nil
  walk (q ∷ qs) before rest h out =
      step_miss q (qs ++ rest) before h (ground arith)
      ∙ walk qs (before ++ q ∷ []) rest h (ground arith)
      ∙ ap (λ v. uninstall_loop k t p v rest h) (append_assoc before (q ∷ []) qs)

  -- The state after a Reset of the breakpoint `q` that has failed.
  abbrev pub reset_to : ℕ → Breakpoint → Handler W → Handler W
  reset_to q b h =
      let (_, b', w) = Breakpoint.reset k t b h.world in
      record h { world = w; objects = store h.objects q b' }

  module _ (q : ℕ) (b : Breakpoint) (before rest : List ℕ) (h : Handler W) (same : (q == p) ≡ true)
      (e : h.objects q ≡ some b) where
    step_hit :
        (Breakpoint.reset k t b h.world).0 ≡ true → uninstall_loop k t p before (q ∷ rest) h ≡ fault
    unfolding uninstall_loop
    step_hit done = rw (same, uninstall_loop, e, call, done)

    step_fail :
        (Breakpoint.reset k t b h.world).0 ≡ false
        → uninstall_loop k t p before (q ∷ rest) h ≡ ok false (reset_to q b h)
    unfolding uninstall_loop
    step_fail failed = rw (same, uninstall_loop, e, call, failed)

  absent :
      (rest before : List ℕ) (h : Handler W)
      → has p rest ≡ false
      → uninstall_loop k t p before rest h ≡ ok false h
  absent rest before h out =
      ap (λ v. uninstall_loop k t p before v h) (sym (append-nil rest))
      ∙ walk rest before [] h out
      ∙ unfold uninstall_loop in refl

  -- A run that does not report true.
  abbrev pub NotTrue : Run (Handler W) Bool → Type 0
  NotTrue (ok b h) = b ≡ false
  NotTrue fault = Unit {0}

  uninstall_loop-NotTrue :
      (rest before : List ℕ) (h : Handler W) → NotTrue (uninstall_loop k t p before rest h)
  unfolding uninstall_loop
  uninstall_loop-NotTrue [] before h = refl
  uninstall_loop-NotTrue (q ∷ rest) before h = elim (Bool-cases (q == p)) [
    | inr miss ↦ rw (step_miss q rest before h miss) (uninstall_loop-NotTrue rest _ h)
    | inl hit ↦ elim (Option-cases (h.objects q)) [
      | inl dangling ↦ rw (hit, uninstall_loop, dangling, call) tt
      | inr (b, e) ↦ elim (Bool-cases (Breakpoint.reset k t b h.world).0) [
        | inr failed ↦ rw (step_fail q b before rest h hit e failed) refl
        | inl done ↦ rw (step_hit q b before rest h hit e done) tt
      ]
    ]
  ]

  -- `UninstallBreakpoint` never reports success.
  pub uninstall_breakpoint-NotTrue : (h : Handler W) → NotTrue (uninstall_breakpoint k t p h)
  unfolding uninstall_breakpoint
  uninstall_breakpoint-NotTrue h = uninstall_loop-NotTrue h.breakpoints [] h

  -- A pointer that is not installed: the answer is false, and nothing changes.
  pub uninstall_breakpoint-absent :
      (h : Handler W) → has p h.breakpoints ≡ false → uninstall_breakpoint k t p h ≡ ok false h
  unfolding uninstall_breakpoint
  uninstall_breakpoint-absent h out = absent h.breakpoints [] h out

  -- Where the breakpoint is live and installed, first at some place with any others before and behind
  -- it: if its `Reset` succeeds, `UninstallBreakpoint` increments an iterator that `erase` has made
  -- invalid, which is undefined behaviour; if its `Reset` fails, it answers false, and the vector
  -- stays.
  pub uninstall_breakpoint-erased :
      (b : Breakpoint) (before rest : List ℕ) (h : Handler W)
      → h.objects p ≡ some b
      → has p before ≡ false
      → h.breakpoints ≡ before ++ p ∷ rest
      → uninstall_breakpoint k t p h
        ≡ (if (Breakpoint.reset k t b h.world).0 then fault else ok false (reset_to p b h))
  unfolding uninstall_breakpoint
  uninstall_breakpoint-erased b before rest h e out vector =
      ap (λ v. uninstall_loop k t p [] v h) vector
      ∙ walk before [] (p ∷ rest) h out
      ∙ elim (Bool-cases (Breakpoint.reset k t b h.world).0) [
        | inl done ↦ step_hit p b before rest h (==_refl p) e done ∙ rw done refl
        | inr failed ↦ step_fail p b before rest h (==_refl p) e failed ∙ rw failed refl
      ]
