-- ===== src/Breakpoint/X64Software.antt =====
-- src/x64/breakpoint_x64.cc: x86_64SoftwareBreakpoint.
use master_lib.Base.{ℕ, ◌≡◌, Bool, true, false, List, [], ◌∷◌, ◌++◌, arith, if◌then◌else◌, get_or}
use master_lib.Mach.{Kernel, kern_success}
use master_lib.Mach.Memory.{MemoryLaws, written, written-cong}
use master_lib.Process.{Process}
use master_lib.Process.Memory.{
  read_memory, write_memory, read_memory-false, read_memory-peek, write_memory-peek,
}
use master_lib.Breakpoint.Defs.{Breakpoint, x64_software}

-- int3
abbrev pub opcode : List ℕ
opcode = 0xCC ∷ []

module _ {W : Type 0} (k : Kernel W) where
  -- after the read: the saved bytes grow by the first byte of the buffer
  save_and_write : Breakpoint → List ℕ → List ℕ → W → Bool × Breakpoint × W
  save_and_write b saved original w =
      let b' = record b { kind = x64_software (saved ++ get_or original 0 0 ∷ []) } in
      let (done, w') = write_memory k b.proc b.address opcode true w in (done, b', w')

  -- `saved` is original_opcode_
  unfoldable pub apply : Breakpoint → List ℕ → W → Bool × Breakpoint × W
  unfolding save_and_write
  apply b saved w =
      let b' = record b { active = true } in
      let (failed, original, w') = read_memory k b.proc b.address (k.indeterminate 1 w) 1 w in
      if failed then (false, b', w') else save_and_write b' saved original w'

  unfoldable pub reset : Breakpoint → List ℕ → W → Bool × Breakpoint × W
  reset b saved w =
      let (done, w') = write_memory k b.proc b.address saved true w in
      (done, record b { active = false }, w')

  module _ (peek : W → ℕ → ℕ → ℕ) (laws : MemoryLaws k peek) where
    read_byte :
        (p : Process) (a : ℕ) (w : W)
        → (k.vm_read_overwrite p.task a 1 (k.indeterminate 1 w) w).0 ≡ kern_success
        → (read_memory k p a (k.indeterminate 1 w) 1 w).1 ≡ peek w p.task a ∷ []
    unfolding read_memory
    read_byte p a w ok = ground (arith, laws.read_ok p.task a 1 (k.indeterminate 1 w) w)

    -- An `Apply` that reports success leaves the task's memory as it was but for the opcode at the
    -- address, and the memory of the other tasks as it was.
    pub apply-peek :
        (b : Breakpoint) (saved : List ℕ) (w : W) (u x : ℕ)
        → (apply b saved w).0 ≡ true
        → peek (apply b saved w).2 u x ≡ written (peek w) b.proc.task b.address opcode u x
    unfolding apply
    apply-peek b saved w u x done =
        let w' = (read_memory k b.proc b.address (k.indeterminate 1 w) 1 w).2 in
        let same = read_memory-peek k peek laws b.proc b.address (k.indeterminate 1 w) 1 w in
        ground (
          arith,
          read_memory-false k b.proc b.address (k.indeterminate 1 w) 1 w,
          write_memory-peek k peek laws b.proc b.address opcode true w' u x,
          written-cong (peek w') (peek w) b.proc.task b.address opcode u x same,
        )

    -- What `Apply` saves, whether or not the write that follows succeeds.
    pub apply-saved :
        (b : Breakpoint) (saved : List ℕ) (w : W)
        → (k.vm_read_overwrite b.proc.task b.address 1 (k.indeterminate 1 w) w).0 ≡ kern_success
        → (apply b saved w).1 ≡ record b {
          active = true;
          kind = x64_software (saved ++ peek w b.proc.task b.address ∷ []);
        }
    unfolding apply
    apply-saved b saved w ok = rw (
      read_memory-false k b.proc b.address (k.indeterminate 1 w) 1 w,
      read_byte b.proc b.address w ok,
    )

    pub reset-peek :
        (b : Breakpoint) (saved : List ℕ) (w : W) (u x : ℕ)
        → (reset b saved w).0 ≡ true
        → peek (reset b saved w).2 u x ≡ written (peek w) b.proc.task b.address saved u x
    unfolding reset
    reset-peek b saved w u x done =
        write_memory-peek k peek laws b.proc b.address saved true w u x done
