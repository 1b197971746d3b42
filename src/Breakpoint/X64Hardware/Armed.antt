-- ===== src/Breakpoint/X64Hardware/Armed.antt =====
-- What x86_64HardwareBreakpoint::Apply leaves in the four slots of every thread.
use mathlib.Core.Path.{subst}
use master_lib.Base.{
  ℕ, ◌+◌, ◌*◌, ◌/◌, ◌≤◌, ◌<◌, ◌≡◌, refl, sym, ap, ◌∙◌, List, [], ◌∷◌, false, ◌==◌, if◌then◌else◌,
  length, arith,
}
use master_lib.Mach.{Kernel}
use master_lib.ThreadState.{ThreadState}
use master_lib.Breakpoint.Defs.{Breakpoint}
use master_lib.Breakpoint.X64Hardware.{apply_loop}
use master_lib.Breakpoint.X64Hardware.Slots.{
  DebugState, of_words, to_words, address_of, enable_bits,
}
use master_lib.Breakpoint.X64Hardware.SlotLaws.{armed_lem}
use master_lib.Breakpoint.X64Hardware.Arming.{
  DebugLaws, ArmedFrom, among, Distinct, apply_loop-ArmedFrom, apply_loop-others,
}

-- Slot `i` has the address and its local enable bit set; the other three slots are as they were, and
-- so is the global enable bit of slot `i`.
abbrev pub IsArmed : ℕ → ℕ → DebugState → DebugState → Type 0
IsArmed address i d d' =
    (j : ℕ)
    → j < 4
    → (address_of j d' ≡ (if j == i then address else address_of j d))
      × (enable_bits j d' ≡ (if j == i then enable_bits j d / 2 * 2 + 1 else enable_bits j d))

pub of_words-to_words : (d : DebugState) → of_words (to_words d) ≡ d
unfolding of_words to_words
of_words-to_words d = refl

module _ {W : Type 0} (k : Kernel W) (debug : W → ℕ → List ℕ) (laws : DebugLaws k debug) where
  -- The threads of `ss` have the slots from `i` on armed, one each.
  abbrev pub AllArmed : ℕ → ℕ → List ThreadState → W → W → Type 0
  AllArmed address i [] w w' = Unit {0}
  AllArmed address i (s ∷ ss) w w' =
      IsArmed address i (of_words (debug w s.thread)) (of_words (debug w' s.thread))
      × AllArmed address (i + 1) ss w w'

  ArmedFrom-AllArmed :
      (address i : ℕ) (ss : List ThreadState) (w w' : W)
      → i + length ss ≤ 4
      → ArmedFrom k debug laws address i ss w w'
      → AllArmed address i ss w w'
  ArmedFrom-AllArmed address i [] w w' fits h = tt
  ArmedFrom-AllArmed address i (s ∷ ss) w w' fits (one, rest) = (
    subst (λ d. IsArmed address i (of_words (debug w s.thread)) d)
        (sym (ap of_words one ∙ of_words-to_words _))
        λ j small. armed_lem i address (of_words (debug w s.thread)) j (omega arith) small,
    ArmedFrom-AllArmed address (i + 1) ss w w' (omega arith) rest,
  )

  -- Where in_use_ and the number of different threads come to four at most, the walk of `Apply` gives
  -- each thread one slot, that of the number in_use_ to the first, whatever it held, and the next to
  -- the next: it has then the address and its local enable bit set, while the other three slots stay.
  -- The debug registers of any other thread stay.
  pub apply_loop-AllArmed :
      (ss : List ThreadState) (b : Breakpoint) (i : ℕ) (w : W)
      → i + length ss ≤ 4
      → Distinct k debug laws ss
      → AllArmed b.address i ss w (apply_loop k ss b i w).2
        × ((u : ℕ)
            → among k debug laws u ss ≡ false
            → debug (apply_loop k ss b i w).2 u ≡ debug w u)
  apply_loop-AllArmed ss b i w fits distinct = (
    ArmedFrom-AllArmed b.address i ss w (apply_loop k ss b i w).2 fits
        (apply_loop-ArmedFrom k debug laws ss b i w fits distinct),
    λ u out. apply_loop-others k debug laws ss b i w u fits out,
  )
