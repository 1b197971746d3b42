-- ===== src/BreakpointHandler.antt =====
-- src/breakpoint_handler.h, src/breakpoint_handler.cc: the class BreakpointHandler. A pointer is a
-- number, 0 the null pointer; the breakpoints that the pointers lead to stand in `objects`. To use
-- a pointer that leads to no object is undefined behaviour.
pub mod Live
pub mod Lookup
pub mod Install
pub mod Uninstall
pub mod Commands
pub mod Race
use master_lib.Base.{
  ℕ, zero, suc, ◌/◌, ◌%◌, ◌≡◌, Bool, true, false, not, ◌&&◌, List, [], ◌∷◌, ◌++◌, Option, none,
  some, ◌==◌, if◌then◌else◌,
}
use master_lib.Base.Run.{Run, ok, fault, Cmd, pure, and_then, ◌>>=◌, ◌>>◌}
use master_lib.Host.{Target}
use master_lib.Mach.{Kernel}
use master_lib.Breakpoint
use master_lib.Breakpoint.{Breakpoint}

-- `breakpoints` is breakpoints_.
pub record Handler (W : Type 0) : Type 0 where
  pub world : W
  pub objects : ℕ → Option Breakpoint
  pub breakpoints : List ℕ

abbrev pub store {ℓ} : {A : Type ℓ} → (ℕ → Option A) → ℕ → A → ℕ → Option A
store objects p b q = if q == p then some b else objects q

-- The flags of Breakpoints.
abbrev pub wants_enabled : ℕ → Bool
wants_enabled flags = flags % 2 == 1

abbrev pub wants_disabled : ℕ → Bool
wants_disabled flags = flags / 2 % 2 == 1

-- the two tests of one round of Breakpoints
abbrev pub listed : ℕ → ℕ → Breakpoint → List ℕ
listed flags p b =
    (if wants_enabled flags && b.active then p ∷ [] else [])
    ++ (if wants_disabled flags && not b.active then p ∷ [] else [])

module _ {W : Type 0} where
  -- `*bp`
  unfoldable pub deref : ℕ → Cmd (Handler W) Breakpoint
  deref p h = elim (h.objects p) [ none ↦ fault | some b ↦ ok b h ]

  -- a virtual call on `*bp`, which may change the object and the system
  unfoldable pub call : (Breakpoint → W → Bool × Breakpoint × W) → ℕ → Cmd (Handler W) Bool
  call method p h = elim (h.objects p) [
    | none ↦ fault
    | some b ↦
        let (done, b', w) = method b h.world in
        ok done (record h { world = w; objects = store h.objects p b' })
  ]

  unfoldable pub set_breakpoints : List ℕ → Cmd (Handler W) (Unit {0})
  set_breakpoints ps h = ok tt (record h { breakpoints = ps })

  -- `for (bp : breakpoints_) if (bp->address() == address) return bp`
  unfoldable pub find_loop : ℕ → List ℕ → Cmd (Handler W) ℕ
  unfolding deref
  find_loop address [] = pure 0
  find_loop address (p ∷ ps) = do
    b ← deref p
    if b.address == address then pure p else find_loop address ps

  unfoldable pub breakpoint_at_address : ℕ → Cmd (Handler W) ℕ
  unfolding find_loop
  breakpoint_at_address address h = find_loop address h.breakpoints h

  unfoldable pub list_loop : ℕ → List ℕ → Cmd (Handler W) (List ℕ)
  unfolding deref
  list_loop flags [] = pure []
  list_loop flags (p ∷ ps) = do
    b ← deref p
    rest ← list_loop flags ps
    pure (listed flags p b ++ rest)

  unfoldable pub breakpoints : ℕ → Cmd (Handler W) (List ℕ)
  unfolding list_loop
  breakpoints flags h = list_loop flags h.breakpoints h

module _ {W : Type 0} (k : Kernel W) (t : Target) where
  unfoldable pub enable_breakpoint : ℕ → Cmd (Handler W) Bool
  unfolding call
  enable_breakpoint p = call (Breakpoint.apply k t) p

  unfoldable pub disable_breakpoint : ℕ → Cmd (Handler W) Bool
  unfolding call
  disable_breakpoint p = call (Breakpoint.reset k t) p

  -- after the push_back, with `before` the vector from before it
  apply_or_pop : ℕ → List ℕ → Cmd (Handler W) Bool
  unfolding enable_breakpoint set_breakpoints
  apply_or_pop p before = do
    success ← enable_breakpoint p
    if success then pure true else set_breakpoints before >> pure false

  unfoldable pub install_breakpoint : ℕ → Bool → Cmd (Handler W) Bool
  unfolding apply_or_pop
  install_breakpoint p imm_active h =
      if p == 0
      then ok true h
      else (let h' = record h { breakpoints = h.breakpoints ++ p ∷ [] } in
          if imm_active then apply_or_pop p h.breakpoints h' else ok true h')

  -- The loop of UninstallBreakpoint: the vector is `before ++ rest`, and the iterator stands at the
  -- head of `rest`. `erase(it)` makes the iterator invalid, wherever it stands, and `++it` is then
  -- undefined behaviour.
  unfoldable pub uninstall_loop : ℕ → List ℕ → List ℕ → Cmd (Handler W) Bool
  unfolding disable_breakpoint set_breakpoints
  uninstall_loop p before [] = pure false
  uninstall_loop p before (q ∷ rest) =
      let next = uninstall_loop p (before ++ q ∷ []) rest in
      if q == p
      then (do
        success ← disable_breakpoint q
        if success then (set_breakpoints (before ++ rest) >> λ _. fault) else pure false)
      else next

  unfoldable pub uninstall_breakpoint : ℕ → Cmd (Handler W) Bool
  unfolding uninstall_loop
  uninstall_breakpoint p h = uninstall_loop p [] h.breakpoints h
