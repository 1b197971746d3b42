-- ===== src/Breakpoint/X64Hardware/Disarming.antt =====
-- The debug registers of the threads after x86_64HardwareBreakpoint::Reset.
use master_lib.Base.{
  ℕ, ◌≡◌, refl, sym, ==_refl, ◌∙◌, if◌then◌else◌, inl, inr, true, false, List, [], ◌∷◌, none, some,
  arith, ◌==◌, Option-cases,
}
use master_lib.Mach.{Kernel}
use master_lib.ThreadState.{ThreadState}
use master_lib.ThreadState.X64
use master_lib.Breakpoint.Defs.{Breakpoint}
use master_lib.Breakpoint.X64Hardware.{reset_loop, save_debug}
use master_lib.Breakpoint.X64Hardware.Slots.{DebugState, of_words, to_words, find_slot, disarm_slot}
use master_lib.Breakpoint.X64Hardware.Arming.{
  DebugLaws, among, Distinct, apart, load-debug, load-keeps, save_debug-debug,
}

-- The registers of a thread with the last slot that holds the address disarmed, or as they are where
-- no slot does.
abbrev pub disarmed : ℕ → List ℕ → List ℕ
disarmed address words = elim (find_slot address (of_words words)) [
  | none ↦ words
  | some i ↦ to_words (disarm_slot i (of_words words))
]

disarmed-none :
    (address : ℕ) (words loaded : List ℕ)
    → loaded ≡ words
    → find_slot address (of_words loaded) ≡ none
    → disarmed address words ≡ words
disarmed-none address words loaded same e =
    let e' : find_slot address (of_words words) ≡ none = rw (← same) e in rw (e', disarmed) refl

pub disarmed-some :
    (address i : ℕ) (words loaded : List ℕ)
    → loaded ≡ words
    → find_slot address (of_words loaded) ≡ some i
    → disarmed address words ≡ to_words (disarm_slot i (of_words loaded))
disarmed-some address i words loaded same e =
    let e' : find_slot address (of_words words) ≡ some i = rw (← same) e in
    rw (e', disarmed, same) refl

module _ {W : Type 0} (k : Kernel W) (debug : W → ℕ → List ℕ) (laws : DebugLaws k debug) where
  abbrev pub AllDisarmed : ℕ → List ThreadState → W → W → Type 0
  AllDisarmed address [] w w' = Unit {0}
  AllDisarmed address (s ∷ ss) w w' =
      (debug w' s.thread ≡ disarmed address (debug w s.thread)) × AllDisarmed address ss w w'

  saved :
      (s : ThreadState) (d : DebugState) (w : W) (u : ℕ)
      → debug (save_debug k (X64.load k s w).1 d (X64.load k s w).2) u
        ≡ (if u == s.thread then to_words d else debug w u)
  unfolding X64.load
  saved s d w u =
      let (_, loaded, w') = X64.load k s w in
      save_debug-debug k debug laws loaded d w' u ∙ ground (arith, load-keeps k debug laws s w u)

  -- The registers of all other threads stay as they were.
  reset_loop-others :
      (ss : List ThreadState) (b : Breakpoint) (w : W) (u : ℕ)
      → among k debug laws u ss ≡ false
      → debug (reset_loop k ss b w).2 u ≡ debug w u
  unfolding reset_loop
  reset_loop-others [] b w u out = refl
  reset_loop-others (s ∷ ss) b w u out =
      let (_, loaded, w') = X64.load k s w in
      let d = of_words loaded.debug_state in
      elim (Option-cases (find_slot b.address d)) [
        | inl e ↦
            rw (e, reset_loop)
              (reset_loop-others ss b w' u (ground arith) ∙ load-keeps k debug laws s w u)
        | inr (i, e) ↦
            rw (e, reset_loop)
              (reset_loop-others ss _ (save_debug k loaded (disarm_slot i d) w') u (ground arith)
                ∙ saved s (disarm_slot i d) w u
                ∙ ground arith)
      ]

  AllDisarmed-weaken :
      (address : ℕ) (ss : List ThreadState) (w w1 w' : W)
      → ((u : ℕ) → among k debug laws u ss ≡ true → debug w1 u ≡ debug w u)
      → AllDisarmed address ss w1 w'
      → AllDisarmed address ss w w'
  AllDisarmed-weaken address [] w w1 w' same h = tt
  AllDisarmed-weaken address (s ∷ ss) w w1 w' same h = (
    rw (← same s.thread (ground arith)) h.0,
    AllDisarmed-weaken address ss w w1 w' (λ u e. same u (ground arith)) h.1,
  )

  -- Going through different threads, `Reset` disarms in each of them the last of the four debug
  -- registers that holds the address, and leaves the threads as they are where none does; it reports
  -- success.
  pub reset_loop-AllDisarmed :
      (ss : List ThreadState) (b : Breakpoint) (w : W)
      → Distinct k debug laws ss
      → ((reset_loop k ss b w).0 ≡ true) × AllDisarmed b.address ss w (reset_loop k ss b w).2
  unfolding reset_loop
  reset_loop-AllDisarmed [] b w distinct = (refl, tt)
  reset_loop-AllDisarmed (s ∷ ss) b w distinct =
      let (_, loaded, w') = X64.load k s w in
      let d = of_words loaded.debug_state in
      let same : loaded.debug_state ≡ debug w s.thread = load-debug k debug laws s w in
      elim (Option-cases (find_slot b.address d)) [
        | inl e ↦
            let (done, rest) = reset_loop-AllDisarmed ss b w' distinct.1 in
            rw (e, reset_loop)
              (
                done,
                (
                  reset_loop-others ss b w' s.thread distinct.0
                      ∙ load-keeps k debug laws s w s.thread
                      ∙ sym (disarmed-none b.address (debug w s.thread) loaded.debug_state same e),
                  AllDisarmed-weaken b.address ss w w' _ (λ u _. load-keeps k debug laws s w u)
                      rest,
                ),
              )
        | inr (i, e) ↦
            let w1 = save_debug k loaded (disarm_slot i d) w' in
            let b' = record b { active = false } in
            let (done, rest) = reset_loop-AllDisarmed ss b' w1 distinct.1 in
            rw (e, reset_loop)
              (
                done,
                (
                  reset_loop-others ss b' w1 s.thread distinct.0
                      ∙ saved s (disarm_slot i d) w s.thread
                      ∙ rw (==_refl s.thread) (
                          sym (
                            disarmed-some b.address i (debug w s.thread) loaded.debug_state same
                              e)),
                  AllDisarmed-weaken b.address ss w w1 _
                      (λ u inside.
                        saved s (disarm_slot i d) w u
                        ∙ rw (apart k debug laws u s.thread ss inside distinct.0))
                      rest,
                ),
              )
      ]
