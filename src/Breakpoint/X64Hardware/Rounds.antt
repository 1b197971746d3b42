-- ===== src/Breakpoint/X64Hardware/Rounds.antt =====
-- The debug registers of the threads after x86_64HardwareBreakpoint::Apply and then Reset.
use mathlib.Core.Path.{subst}
use master_lib.Base.{
  ℕ, ◌+◌, ◌≤◌, ◌<◌, ◌≡◌, ◌≢◌, refl, sym, ap, ◌∙◌, true, List, [], ◌∷◌, some, arith, ◌==◌,
  if◌then◌else◌, length,
}
use master_lib.Mach.{Kernel}
use master_lib.ThreadState.{ThreadState}
use master_lib.Breakpoint.Defs.{Breakpoint, x64_hardware}
use master_lib.Breakpoint.X64Hardware.{apply_loop, reset_loop}
use master_lib.Breakpoint.X64Hardware.Count.{apply_loop-cons}
use master_lib.Breakpoint.X64Hardware.Slots.{
  DebugState, of_words, to_words, find_slot, disarm_slot, address_of, enable_bits,
}
use master_lib.Breakpoint.X64Hardware.SlotLaws.{armed, armed_lem, disarm_slot_lem, find_slot_lem}
use master_lib.Breakpoint.X64Hardware.Arming.{DebugLaws, ArmedFrom, Distinct, apply_loop-ArmedFrom}
use master_lib.Breakpoint.X64Hardware.Armed.{of_words-to_words}
use master_lib.Breakpoint.X64Hardware.Disarming.{
  disarmed, disarmed-some, AllDisarmed, reset_loop-AllDisarmed,
}

-- No slot of the four holds the address.
abbrev pub Unheld : ℕ → DebugState → Type 0
Unheld address d = (j : ℕ) → j < 4 → address_of j d ≢ address

-- Slot `i` is off and holds the address; the other three are as they were.
abbrev pub Rounded : ℕ → ℕ → DebugState → DebugState → Type 0
Rounded address i d d' =
    (j : ℕ)
    → j < 4
    → (address_of j d' ≡ (if j == i then address else address_of j d))
      × (enable_bits j d' ≡ (if j == i then 0 else enable_bits j d))

find-armed :
    (address i : ℕ) (d : DebugState)
    → i < 4
    → Unheld address d
    → find_slot address (armed i address d) ≡ some i
find-armed address i d small unheld =
    find_slot_lem address (armed i address d) i small
      (ground (arith, armed_lem i address d i small small))
      λ j after fits held.
        unheld j fits (ground (arith, (armed_lem i address d j small fits).0, held))

disarm-armed-Rounded :
    (address i : ℕ) (d : DebugState)
    → i < 4
    → Rounded address i d (disarm_slot i (armed i address d))
disarm-armed-Rounded address i d small j fits =
    let (kept, off) = disarm_slot_lem i (armed i address d) j small fits in
    let (here, on) = armed_lem i address d j small fits in (kept ∙ here, ground (arith, off, on))

disarmed-armed-Rounded :
    (address i : ℕ) (words : List ℕ)
    → i < 4
    → Unheld address (of_words words)
    → Rounded address i
        (of_words words)
        (of_words (disarmed address (to_words (armed i address (of_words words)))))
disarmed-armed-Rounded address i words small unheld =
    let d = armed i address (of_words words) in
    let found : find_slot address (of_words (to_words d)) ≡ some i =
      ap (find_slot address) (of_words-to_words d)
      ∙ find-armed address i (of_words words) small unheld in
    subst (Rounded address i (of_words words))
      (sym (
        ap of_words (disarmed-some address i (to_words d) (to_words d) refl found)
        ∙ of_words-to_words (disarm_slot i (of_words (to_words d)))
        ∙ ap (disarm_slot i) (of_words-to_words d)))
      (disarm-armed-Rounded address i (of_words words) small)

module _ {W : Type 0} (k : Kernel W) (debug : W → ℕ → List ℕ) (laws : DebugLaws k debug) where
  -- The threads of `ss` have the slots from `i` on rounded, one each.
  abbrev pub RoundedFrom : ℕ → ℕ → List ThreadState → W → W → Type 0
  RoundedFrom address i [] w w' = Unit {0}
  RoundedFrom address i (s ∷ ss) w w' =
      Rounded address i (of_words (debug w s.thread)) (of_words (debug w' s.thread))
      × RoundedFrom address (i + 1) ss w w'

  abbrev pub AllUnheld : ℕ → List ThreadState → W → Type 0
  AllUnheld address [] w = Unit {0}
  AllUnheld address (s ∷ ss) w =
      Unheld address (of_words (debug w s.thread)) × AllUnheld address ss w

  both_ways :
      (address i : ℕ) (ss : List ThreadState) (w w1 w2 : W)
      → i + length ss ≤ 4
      → AllUnheld address ss w
      → ArmedFrom k debug laws address i ss w w1
      → AllDisarmed k debug laws address ss w1 w2
      → RoundedFrom address i ss w w2
  both_ways address i [] w w1 w2 fits unheld up down = tt
  both_ways address i (s ∷ ss) w w1 w2 fits (unheld, rest) (up, ups) (down, downs) = (
    subst (λ words. Rounded address i (of_words (debug w s.thread)) (of_words words))
        (sym (down ∙ ap (disarmed address) up))
        (disarmed-armed-Rounded address i (debug w s.thread) (omega arith) unheld),
    both_ways address (i + 1) ss w w1 w2 (omega arith) rest ups downs,
  )

  apply_loop-address :
      (ss : List ThreadState) (b : Breakpoint) (i : ℕ) (w : W)
      → i + length ss ≤ 4
      → (apply_loop k ss b i w).1.address ≡ b.address
  apply_loop-address [] b i w fits = unfold apply_loop in refl
  apply_loop-address (s ∷ ss) b i w fits = rw (apply_loop-cons k s ss b i w (omega arith)) (
      apply_loop-address ss (record b { active = true; kind = x64_hardware (i + 1) }) (i + 1) _
        (omega arith))

  -- Where in_use_ and the number of different threads come to four at most, and none of their slots
  -- holds the address, `Apply` and then `Reset` over the same threads leave in each of them one slot
  -- off, with the address still in it, that of the number in_use_ in the first thread and the next one
  -- in the next; the other three slots are as they were, and `Reset` reports success.
  pub reset_loop-apply_loop :
      (ss : List ThreadState) (b : Breakpoint) (i : ℕ) (w : W)
      → i + length ss ≤ 4
      → Distinct k debug laws ss
      → AllUnheld b.address ss w
      → let (_, b1, w1) = apply_loop k ss b i w in
        ((reset_loop k ss b1 w1).0 ≡ true) × RoundedFrom b.address i ss w (reset_loop k ss b1 w1).2
  reset_loop-apply_loop ss b i w fits distinct unheld =
      let (_, b1, w1) = apply_loop k ss b i w in
      let (done, down) = reset_loop-AllDisarmed k debug laws ss b1 w1 distinct in
      let same = apply_loop-address ss b i w fits in
      (
        done,
        both_ways b.address i ss w w1 _ fits unheld
            (apply_loop-ArmedFrom k debug laws ss b i w fits distinct)
            (subst (λ a. AllDisarmed k debug laws a ss w1 (reset_loop k ss b1 w1).2) same down),
      )
