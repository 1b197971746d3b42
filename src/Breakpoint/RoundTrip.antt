-- ===== src/Breakpoint/RoundTrip.antt =====
-- The memory of the task after the software breakpoints' Apply and Reset.
use master_lib.Base.{
  ℕ, ◌+◌, ◌≤◌, ◌≡◌, refl, ◌∙◌, true, false, List, [], ◌∷◌, ◌++◌, arith, length, length-append,
}
use master_lib.Host.{Target}
use master_lib.Mach.{Kernel, kern_success}
use master_lib.Mach.Memory.{MemoryLaws, written, written-cong, written-written}
use master_lib.Breakpoint.{x64_software, armv7_software, thumbv7_software, Breakpoint, apply, reset}
use master_lib.Breakpoint.Software.{reset_between}
use master_lib.Breakpoint.X64Software

module _ {W : Type 0} (k : Kernel W) (peek : W → ℕ → ℕ → ℕ) (laws : MemoryLaws k peek)
    (t : Target) where
  -- One `Apply` and then one `Reset`, with the calls that have to succeed: the reading of the `n`
  -- bytes, and both writes.
  pub record Succeeds (n : ℕ) (b : Breakpoint) (w : W) : Type 0 where
    pub read :
        (k.vm_read_overwrite b.proc.task b.address n (k.indeterminate n w) w).0 ≡ kern_success
    pub applied : (apply k t b w).0 ≡ true
    pub was_reset : (reset k t (apply k t b w).1 (apply k t b w).2).0 ≡ true

  -- The breakpoint and the state after it.
  abbrev pub after : Breakpoint → W → Breakpoint × W
  after b w = let (_, b1, w1) = apply k t b w in let (_, b2, w2) = reset k t b1 w1 in (b2, w2)

  -- Two writes of the same place, seen from the memory before them.
  both_writes :
      (task a : ℕ) (bs cs : List ℕ) (w w1 w2 : W)
      → length bs ≤ length cs
      → ((u x : ℕ) → peek w1 u x ≡ written (peek w) task a bs u x)
      → ((u x : ℕ) → peek w2 u x ≡ written (peek w1) task a cs u x)
      → (u x : ℕ) → peek w2 u x ≡ written (peek w) task a cs u x
  both_writes task a bs cs w w1 w2 le first second u x =
      second u x
      ∙ written-cong (peek w1) (written (peek w) task a bs) task a cs u x first
      ∙ written-written (peek w) task a bs cs u x le

  -- On x86 a round writes back all bytes that were saved so far, and the byte that it has read
  -- itself behind them.
  pub x64_round :
      (b : Breakpoint) (saved : List ℕ) (w : W) (u x : ℕ)
      → let b' = record b { kind = x64_software saved } in
        Succeeds 1 b' w
        → peek (after b' w).1 u x
          ≡ written (peek w) b.proc.task b.address (saved ++ peek w b.proc.task b.address ∷ []) u x
  unfolding apply reset
  x64_round b saved w u x r =
      let b' = record b { kind = x64_software saved } in
      let now = X64Software.apply-saved k peek laws b' saved w r.read in
      let done = rw now at r.was_reset in
      rw now (
        both_writes b.proc.task b.address X64Software.opcode
          (saved ++ peek w b.proc.task b.address ∷ []) w (X64Software.apply k b' saved w).2 _
          (omega (arith, length-append saved (peek w b.proc.task b.address ∷ [])))
          (λ v y. X64Software.apply-peek k peek laws b' saved w v y r.applied)
          (λ v y.
            X64Software.reset-peek k peek laws
              (record b' {
                active = true;
                kind = x64_software (saved ++ peek w b.proc.task b.address ∷ []);
              })
              (saved ++ peek w b.proc.task b.address ∷ []) _ v y done)
          u x)

  module _ (b : Breakpoint) (saved : List ℕ) (w : W) where
    -- One `Apply` and `Reset` of an ARM breakpoint, whose reading and both writings succeed, give
    -- every task its memory back, whatever the breakpoint had saved before.
    armv7_round :
        (u x : ℕ)
        → let b' = record b { kind = armv7_software saved } in
          Succeeds 4 b' w → peek (after b' w).1 u x ≡ peek w u x
    armv7_round u x r =
        reset_between k peek laws t (record b { kind = armv7_software saved }) w _ tt
          (r.read, r.applied) (λ _ _. refl) u x r.was_reset

    -- One `Apply` and `Reset` of a Thumb breakpoint, whose reading and both writings succeed, give
    -- every task its memory back, whatever the breakpoint had saved before.
    thumbv7_round :
        (u x : ℕ)
        → let b' = record b { kind = thumbv7_software saved } in
          Succeeds 2 b' w → peek (after b' w).1 u x ≡ peek w u x
    thumbv7_round u x r =
        reset_between k peek laws t (record b { kind = thumbv7_software saved }) w _ tt
          (r.read, r.applied) (λ _ _. refl) u x r.was_reset

  -- The first `Apply` and `Reset` of an x86 breakpoint, whose reading and both writings succeed, give
  -- every task its memory back.
  x64_first_round :
      (b : Breakpoint) (w : W) (u x : ℕ)
      → let b' = record b { kind = x64_software [] } in
        Succeeds 1 b' w → peek (after b' w).1 u x ≡ peek w u x
  x64_first_round b w u x r =
      reset_between k peek laws t (record b { kind = x64_software [] }) w _ refl (r.read, r.applied)
        (λ _ _. refl) u x r.was_reset

  x64_after-kind :
      (b : Breakpoint) (saved : List ℕ) (w : W)
      → let b' = record b { kind = x64_software saved } in
        Succeeds 1 b' w
        → (after b' w).0 ≡ record b {
          active = false;
          kind = x64_software (saved ++ peek w b.proc.task b.address ∷ []);
        }
  unfolding apply reset X64Software.reset
  x64_after-kind b saved w r =
      let b' = record b { kind = x64_software saved } in
      rw (X64Software.apply-saved k peek laws b' saved w r.read)

  -- Where all readings and writings succeed, the second `Apply` and `Reset` of the same x86
  -- breakpoint write two bytes, and so leave the byte
  -- that was saved first in the place of its neighbour, whatever stood there.
  pub x64_second_round :
      (b : Breakpoint) (w : W)
      → let b' = record b { kind = x64_software [] } in
        let (b1, w1) = after b' w in
        Succeeds 1 b' w
        → Succeeds 1 b1 w1
        → peek (after b1 w1).1 b.proc.task (b.address + 1) ≡ peek w b.proc.task b.address
  x64_second_round b w r1 r2 =
      let b' = record b { kind = x64_software [] } in
      let (b1, w1) = after b' w in
      let kind1 = x64_after-kind b [] w r1 in
      let r2' = rw kind1 at r2 in
      rw kind1 (
        x64_round (record b { active = false }) (peek w b.proc.task b.address ∷ []) w1 b.proc.task
          (b.address + 1) r2'
        ∙ ground (arith, x64_first_round b w b.proc.task b.address r1))
