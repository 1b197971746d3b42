-- ===== src/Breakpoint/Armv7Software.antt =====
-- src/armv7/breakpoint_armv7.cc: ARMv7SoftwareBreakpoint and THUMBv7SoftwareBreakpoint.
use master_lib.Base.{ℕ, ◌≡◌, Bool, true, false, List, [], ◌∷◌, arith, if◌then◌else◌, length}
use master_lib.Mach.{Kernel, kern_success}
use master_lib.Mach.Memory.{MemoryLaws, written, written-cong, bytes_at}
use master_lib.Process.Memory.{
  read_memory, write_memory, read_memory-false, read_memory-peek, write_memory-peek,
}
use master_lib.Breakpoint.Defs.{Kind, Breakpoint, armv7_software, thumbv7_software}

-- bkpt #0 of the ARM instruction set, as the array of the source has it
abbrev pub arm_opcode : List ℕ
arm_opcode = 0x70 ∷ 0x00 ∷ 0x20 ∷ 0xE1 ∷ []

-- bkpt #0 of the Thumb instruction set
abbrev pub thumb_opcode : List ℕ
thumb_opcode = 0x00 ∷ 0xBE ∷ []

module _ {W : Type 0} (k : Kernel W) where
  -- after the read: original_opcode_ is assigned the whole buffer
  assign_and_write : (List ℕ → Kind) → Breakpoint → List ℕ → List ℕ → W → Bool × Breakpoint × W
  assign_and_write saved_as b opcode original w =
      let (done, w') = write_memory k b.proc b.address opcode true w in
      (done, record b { kind = saved_as original }, w')

  -- The two `Apply` differ in the opcode, and in the size of the buffer that goes with it. Neither
  -- assigns active_.
  unfoldable pub apply_opcode : (List ℕ → Kind) → List ℕ → Breakpoint → W → Bool × Breakpoint × W
  unfolding assign_and_write
  apply_opcode saved_as opcode b w =
      let size = length opcode in
      let (failed, original, w') = read_memory k b.proc b.address (k.indeterminate size w) size w in
      if failed then (false, b, w') else assign_and_write saved_as b opcode original w'

  unfoldable pub apply : Breakpoint → W → Bool × Breakpoint × W
  unfolding apply_opcode
  apply = apply_opcode armv7_software arm_opcode

  unfoldable pub apply_thumb : Breakpoint → W → Bool × Breakpoint × W
  unfolding apply_opcode
  apply_thumb = apply_opcode thumbv7_software thumb_opcode

  -- `saved` is original_opcode_. THUMBv7SoftwareBreakpoint::Reset calls this one.
  unfoldable pub reset : Breakpoint → List ℕ → W → Bool × Breakpoint × W
  reset b saved w = let (done, w') = write_memory k b.proc b.address saved true w in (done, b, w')

  unfoldable pub reset_thumb : Breakpoint → List ℕ → W → Bool × Breakpoint × W
  unfolding reset
  reset_thumb b saved w = reset b saved w

  module _ (peek : W → ℕ → ℕ → ℕ) (laws : MemoryLaws k peek) (saved_as : List ℕ → Kind)
      (opcode : List ℕ) (b : Breakpoint) (w : W) where
    pub apply_opcode-peek :
        (u x : ℕ)
        → (apply_opcode saved_as opcode b w).0 ≡ true
        → peek (apply_opcode saved_as opcode b w).2 u x
          ≡ written (peek w) b.proc.task b.address opcode u x
    unfolding apply_opcode
    apply_opcode-peek u x done =
        let size = length opcode in
        let w' = (read_memory k b.proc b.address (k.indeterminate size w) size w).2 in
        let same = read_memory-peek k peek laws b.proc b.address (k.indeterminate size w) size w in
        ground (
          arith,
          read_memory-false k b.proc b.address (k.indeterminate size w) size w,
          write_memory-peek k peek laws b.proc b.address opcode true w' u x,
          written-cong (peek w') (peek w) b.proc.task b.address opcode u x same,
        )

    read_opcode :
        (n : ℕ)
        → (k.vm_read_overwrite b.proc.task b.address n (k.indeterminate n w) w).0 ≡ kern_success
        → (read_memory k b.proc b.address (k.indeterminate n w) n w).1
          ≡ bytes_at (peek w b.proc.task) b.address n
    unfolding read_memory
    read_opcode n ok = ground (arith, laws.read_ok b.proc.task b.address n (k.indeterminate n w) w)

    pub apply_opcode-saved :
        (n : ℕ)
        → n ≡ length opcode
        → (k.vm_read_overwrite b.proc.task b.address n (k.indeterminate n w) w).0 ≡ kern_success
        → (apply_opcode saved_as opcode b w).1
          ≡ record b { kind = saved_as (bytes_at (peek w b.proc.task) b.address n) }
    unfolding apply_opcode
    apply_opcode-saved n e ok =
        rw (← e, read_memory-false k b.proc b.address (k.indeterminate n w) n w, read_opcode n ok)
