-- ===== src/Breakpoint/Nested.antt =====
-- Several software breakpoints in one process, also at places that overlap.
use master_lib.Base.{ℕ, ◌≡◌, refl, ap, ◌∙◌, true, List, [], ◌∷◌, arith, length, ==_refl, ◌≤◌}
use master_lib.Host.{Target}
use master_lib.Mach.{Kernel}
use master_lib.Mach.Memory.{
  MemoryLaws, bytes_at, length-bytes_at, overwrite, written-bytes_at, bytes_at-cong,
  bytes_at-overwrite, written, written-cong,
}
use master_lib.Breakpoint.{Breakpoint, apply, reset}
use master_lib.Breakpoint.Software.{
  IsFresh, IsFresh-IsSoftware, IsApplied, opcode_of, apply-Saved, apply-peek, reset-Saved,
  two_writes, reset_between,
}

-- An opcode written twice at a place, then the bytes from before the first writing, and then those
-- from before the second: the opcode stays.
crossed_writes :
    (f m1 m2 m3 : ℕ → ℕ → ℕ) (task a n : ℕ) (op : List ℕ) (u x : ℕ)
    → n ≡ length op
    → ((v y : ℕ) → m1 v y ≡ written f task a op v y)
    → ((v y : ℕ) → m2 v y ≡ written m1 task a op v y)
    → ((v y : ℕ) → m3 v y ≡ written m2 task a (bytes_at (f task) a n) v y)
    → written m3 task a (bytes_at (m1 task) a n) u x ≡ written f task a op u x
crossed_writes f m1 m2 m3 task a n op u x size first second third =
    let bytes = bytes_at (f task) a n in
    let long : length op ≤ length bytes = omega (arith, size, length-bytes_at (f task) a n) in
    let back : (v y : ℕ) → m3 v y ≡ f v y = λ v y.
      third v y
      ∙ two_writes m1 m2 m2 task a op bytes v y long second (λ _ _. refl)
      ∙ two_writes f m1 m1 task a op bytes v y long first (λ _ _. refl)
      ∙ written-bytes_at f task a n v y in
    let there : bytes_at (m1 task) a n ≡ op =
      bytes_at-cong (m1 task) (overwrite (f task) a op) a n
        (λ y. first task y ∙ rw (==_refl task) refl)
      ∙ rw size (bytes_at-overwrite (f task) a op) in
    rw there (written-cong m3 f task a op u x back)

-- The same place, under other names.
written-place :
    (f : ℕ → ℕ → ℕ) (t t' a a' : ℕ) (bs bs' : List ℕ) (u x : ℕ)
    → t ≡ t'
    → a ≡ a'
    → bs ≡ bs'
    → written f t a bs u x ≡ written f t' a' bs' u x
written-place f t t' a a' bs bs' u x p q r = rw (p, q, r) refl

bytes_at-place :
    (f : ℕ → ℕ → ℕ) (t t' a a' n n' : ℕ)
    → t ≡ t'
    → a ≡ a'
    → n ≡ n'
    → bytes_at (f t) a n ≡ bytes_at (f t') a' n'
bytes_at-place f t t' a a' n n' p q r = rw (p, q, r) refl

module _ {W : Type 0} (k : Kernel W) (t : Target) where
  -- Every breakpoint is applied, in the order of the list, and then every one is reset, the last one
  -- first.
  unfoldable pub nest : List Breakpoint → W → W
  nest [] w = w
  nest (b ∷ bs) w = let (_, b1, w1) = apply k t b w in (reset k t b1 (nest bs w1)).2

  module _ (peek : W → ℕ → ℕ → ℕ) (laws : MemoryLaws k peek) where
    -- The breakpoints are fresh software breakpoints, and the calls succeed.
    abbrev pub Succeed : List Breakpoint → W → Type 0
    Succeed [] w = Unit {0}
    Succeed (b ∷ bs) w =
        let (_, b1, w1) = apply k t b w in
        IsFresh b.kind
        × IsApplied k peek laws t b w
        × ((reset k t b1 (nest bs w1)).0 ≡ true)
        × Succeed bs w1

    -- Fresh software breakpoints of any class and at any places, overlapping or not, that are applied
    -- one after the other and reset in the opposite order give every task its memory back, if all
    -- their calls succeed.
    pub nest-peek :
        (bs : List Breakpoint) (w : W)
        → Succeed bs w
        → (u x : ℕ) → peek (nest bs w) u x ≡ peek w u x
    unfolding nest
    nest-peek [] w h u x = refl
    nest-peek (b ∷ bs) w (fresh, applied, done, rest) u x =
        let w1 = (apply k t b w).2 in
        reset_between k peek laws t b w (nest bs w1) fresh applied (λ v y. nest-peek bs w1 rest v y)
          u x done

  -- Two breakpoints are applied, and then reset in the same order.
  unfoldable pub cross : Breakpoint → Breakpoint → W → W
  cross b c w =
      let (_, b1, w1) = apply k t b w in
      let (_, c1, w2) = apply k t c w1 in (reset k t c1 (reset k t b1 w2).2).2

  module _ (peek : W → ℕ → ℕ → ℕ) (laws : MemoryLaws k peek) where
    -- Both stand at the same place, and the calls succeed.
    pub record Crosses (b c : Breakpoint) (w : W) : Type 0 where
      pub task : c.proc.task ≡ b.proc.task
      pub address : c.address ≡ b.address
      pub opcode : opcode_of c.kind ≡ opcode_of b.kind
      pub fresh : IsFresh b.kind × IsFresh c.kind
      pub applied : IsApplied k peek laws t b w
      pub applied_too : IsApplied k peek laws t c (apply k t b w).2
      pub was_reset : (reset k t (apply k t b w).1 (apply k t c (apply k t b w).2).2).0 ≡ true
      pub was_reset_too :
          (reset k t
            (apply k t c (apply k t b w).2).1
            (reset k t (apply k t b w).1 (apply k t c (apply k t b w).2).2).2).0
          ≡ true

    -- Two fresh software breakpoints with the same opcode at the same address, which are reset in the
    -- order in which they were applied: where all calls succeed, the opcode stays in the memory, and
    -- nothing else has changed.
    pub cross-peek :
        (b c : Breakpoint) (w : W)
        → Crosses b c w
        → (u x : ℕ)
        → peek (cross b c w) u x ≡ written (peek w) b.proc.task b.address (opcode_of b.kind) u x
    unfolding cross
    cross-peek b c w h u x =
        let (_, b1, w1) = apply k t b w in
        let (_, c1, w2) = apply k t c w1 in
        let w3 = (reset k t b1 w2).2 in
        let op = opcode_of b.kind in
        let soft = IsFresh-IsSoftware k peek laws t b.kind h.fresh.0 in
        let soft_too = IsFresh-IsSoftware k peek laws t c.kind h.fresh.1 in
        let saved = apply-Saved k peek laws t b b.kind w h.fresh.0 h.applied in
        let saved_too = apply-Saved k peek laws t c c.kind w1 h.fresh.1 h.applied_too in
        reset-Saved k peek laws t c c1 w1 w3 u x saved_too h.was_reset_too
        ∙ written-place (peek w3) c.proc.task b.proc.task c.address b.address _ _ u x h.task
            h.address
            (bytes_at-place (peek w1) c.proc.task b.proc.task c.address b.address
              (length (opcode_of c.kind)) (length op) h.task h.address (ap length h.opcode))
        ∙ crossed_writes (peek w) (peek w1) (peek w2) (peek w3) b.proc.task b.address (length op) op
            u x refl (λ v y. apply-peek k peek laws t b b.kind w v y soft h.applied.1)
            (λ v y.
              apply-peek k peek laws t c c.kind w1 v y soft_too h.applied_too.1
              ∙ written-place (peek w1) c.proc.task b.proc.task c.address b.address _ op v y h.task
                  h.address h.opcode)
            (λ v y. reset-Saved k peek laws t b b1 w w2 v y saved h.was_reset)
