-- ===== src/Breakpoint/X64Hardware/Arming.antt =====
-- The debug registers of the threads after x86_64HardwareBreakpoint::Apply.
use master_lib.Base.{
  ℕ, ◌+◌, ◌≤◌, ◌≡◌, refl, ◌∙◌, inl, inr, Bool, true, false, List, [], ◌∷◌, some, arith, ◌==◌, ◌||◌,
  if◌then◌else◌, length, Bool-cases, ==_iff,
}
use master_lib.Mach.{Kernel, Flavor, x86_thread_state64, x86_debug_state64}
use master_lib.ThreadState.{ThreadState}
use master_lib.ThreadState.X64
use master_lib.Breakpoint.Defs.{Breakpoint, x64_hardware}
use master_lib.Breakpoint.X64Hardware.{apply_loop, save_debug}
use master_lib.Breakpoint.X64Hardware.Slots.{DebugState, of_words, to_words}
use master_lib.Breakpoint.X64Hardware.SlotLaws.{armed}
use master_lib.Breakpoint.X64Hardware.Count.{apply_loop-cons}

-- Documented behaviour of thread_get_state and thread_set_state on live threads, over an observer
-- of each thread's debug registers.
pub record DebugLaws {W : Type 0} (k : Kernel W) (debug : W → ℕ → List ℕ) : Type 0 where
  pub get_debug : (t : ℕ) (w : W) → (k.thread_get_state x86_debug_state64 t w).0 ≡ some (debug w t)
  pub get_keeps :
      (f : Flavor) (t : ℕ) (w : W) (u : ℕ) → debug (k.thread_get_state f t w).1 u ≡ debug w u
  pub set_debug :
      (t : ℕ) (words : List ℕ) (w : W) (u : ℕ)
      → debug (k.thread_set_state x86_debug_state64 t words w) u
        ≡ (if u == t then words else debug w u)
  pub set_thread :
      (t : ℕ) (words : List ℕ) (w : W) (u : ℕ)
      → debug (k.thread_set_state x86_thread_state64 t words w) u ≡ debug w u

module _ {W : Type 0} (k : Kernel W) (debug : W → ℕ → List ℕ) (laws : DebugLaws k debug) where
  pub load-debug : (s : ThreadState) (w : W) → (X64.load k s w).1.debug_state ≡ debug w s.thread
  unfolding X64.load
  load-debug s w =
      let w' = (k.thread_get_state x86_thread_state64 s.thread w).1 in
      ground
        (arith, laws.get_debug s.thread w', laws.get_keeps x86_thread_state64 s.thread w s.thread)

  pub load-keeps : (s : ThreadState) (w : W) (u : ℕ) → debug (X64.load k s w).2 u ≡ debug w u
  unfolding X64.load
  load-keeps s w u =
      let w' = (k.thread_get_state x86_thread_state64 s.thread w).1 in
      ground (
        arith,
        laws.get_keeps x86_debug_state64 s.thread w' u,
        laws.get_keeps x86_thread_state64 s.thread w u,
      )

  pub save_debug-debug :
      (s : ThreadState) (d : DebugState) (w : W) (u : ℕ)
      → debug (save_debug k s d w) u ≡ (if u == s.thread then to_words d else debug w u)
  unfolding save_debug X64.save
  save_debug-debug s d w u =
      let w' = k.thread_set_state x86_thread_state64 s.thread s.thread_state w in
      ground (
        arith,
        laws.set_debug s.thread (to_words d) w' u,
        laws.set_thread s.thread s.thread_state w u,
      )

  -- One round of the walk.
  round-debug :
      (s : ThreadState) (i address : ℕ) (w : W) (u : ℕ)
      → let (_, loaded, w') = X64.load k s w in
        debug (save_debug k loaded (armed i address (of_words loaded.debug_state)) w') u ≡ (
          if u == s.thread
          then to_words (armed i address (of_words (debug w s.thread)))
          else debug w u)
  unfolding X64.load
  round-debug s i address w u =
      let (_, loaded, w') = X64.load k s w in
      save_debug-debug loaded (armed i address (of_words loaded.debug_state)) w' u
      ∙ rw (load-debug s w) (ground (arith, load-keeps s w u))

  -- The threads of `ss` have registers from `i` on armed with the address, one each.
  abbrev pub ArmedFrom : ℕ → ℕ → List ThreadState → W → W → Type 0
  ArmedFrom address i [] w w' = Unit {0}
  ArmedFrom address i (s ∷ ss) w w' =
      (debug w' s.thread ≡ to_words (armed i address (of_words (debug w s.thread))))
      × ArmedFrom address (i + 1) ss w w'

  -- Whether a thread is one of `ss`.
  abbrev pub among : ℕ → List ThreadState → Bool
  among u [] = false
  among u (s ∷ ss) = u == s.thread || among u ss

  abbrev pub Distinct : List ThreadState → Type 0
  Distinct [] = Unit {0}
  Distinct (s ∷ ss) = (among s.thread ss ≡ false) × Distinct ss

  pub apart :
      (u v : ℕ) (ss : List ThreadState) → among u ss ≡ true → among v ss ≡ false → (u == v) ≡ false
  apart u v ss inside out = elim (Bool-cases (u == v)) [
    | inl same ↦ let e : among v ss ≡ true = rw (← (==_iff u v).0 same) inside in cc (e, out)
    | inr differ ↦ differ
  ]

  ArmedFrom-weaken :
      (address i : ℕ) (ss : List ThreadState) (w w1 w' : W)
      → ((u : ℕ) → among u ss ≡ true → debug w1 u ≡ debug w u)
      → ArmedFrom address i ss w1 w'
      → ArmedFrom address i ss w w'
  ArmedFrom-weaken address i [] w w1 w' same h = tt
  ArmedFrom-weaken address i (s ∷ ss) w w1 w' same h = (
    rw (← same s.thread (ground arith)) h.0,
    ArmedFrom-weaken address (i + 1) ss w w1 w' (λ u e. same u (ground arith)) h.1,
  )

  -- The registers of all other threads stay as they were.
  pub apply_loop-others :
      (ss : List ThreadState) (b : Breakpoint) (i : ℕ) (w : W) (u : ℕ)
      → i + length ss ≤ 4
      → among u ss ≡ false
      → debug (apply_loop k ss b i w).2 u ≡ debug w u
  apply_loop-others [] b i w u fits out = unfold apply_loop in refl
  apply_loop-others (s ∷ ss) b i w u fits out =
      let (_, loaded, w') = X64.load k s w in
      let w1 = save_debug k loaded (armed i b.address (of_words loaded.debug_state)) w' in
      let b' = record b { active = true; kind = x64_hardware (i + 1) } in
      rw (apply_loop-cons k s ss b i w (omega arith)) (
        apply_loop-others ss b' (i + 1) w1 u (omega arith) (ground arith)
        ∙ round-debug s i b.address w u
        ∙ ground arith)

  -- The walk over different threads, by the slots of the switch.
  pub apply_loop-ArmedFrom :
      (ss : List ThreadState) (b : Breakpoint) (i : ℕ) (w : W)
      → i + length ss ≤ 4
      → Distinct ss
      → ArmedFrom b.address i ss w (apply_loop k ss b i w).2
  apply_loop-ArmedFrom [] b i w fits distinct = tt
  apply_loop-ArmedFrom (s ∷ ss) b i w fits distinct =
      let (_, loaded, w') = X64.load k s w in
      let w1 = save_debug k loaded (armed i b.address (of_words loaded.debug_state)) w' in
      let b' = record b { active = true; kind = x64_hardware (i + 1) } in
      rw (apply_loop-cons k s ss b i w (omega arith)) (
        apply_loop-others ss b' (i + 1) w1 s.thread (omega arith) distinct.0
            ∙ round-debug s i b.address w s.thread
            ∙ ground arith,
        ArmedFrom-weaken b.address (i + 1) ss w w1 _
            (λ u e. round-debug s i b.address w u ∙ rw (apart u s.thread ss e distinct.0))
            (apply_loop-ArmedFrom ss b' (i + 1) w1 (omega arith) distinct.1),
      )
