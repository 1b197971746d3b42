-- ===== src/Breakpoint/Software.antt =====
-- What the three classes of software breakpoints share: Apply saves bytes and writes an opcode, Reset
-- writes the saved bytes.
use master_lib.Base.{ℕ, ◌≤◌, ◌≡◌, refl, ◌∙◌, true, List, [], arith, length}
use master_lib.Host.{Target}
use master_lib.Mach.{Kernel, kern_success}
use master_lib.Mach.Memory.{
  MemoryLaws, bytes_at, length-bytes_at, written, written-cong, written-written, written-bytes_at,
}
use master_lib.Process.Memory.{write_memory-peek}
use master_lib.Breakpoint.{
  Kind, x64_hardware, x64_software, armv7_hardware, armv7_software, thumbv7_software, Breakpoint,
  apply, reset,
}
use master_lib.Breakpoint.X64Software
use master_lib.Breakpoint.Armv7Software

-- A software breakpoint whose Reset will write what the next Apply saves: on x86, one that has not
-- been applied before.
abbrev pub IsFresh : Kind → Type 0
IsFresh (x64_hardware in_use) = ⊥
IsFresh (x64_software saved) = saved ≡ []
IsFresh armv7_hardware = ⊥
IsFresh (armv7_software saved) = Unit {0}
IsFresh (thumbv7_software saved) = Unit {0}

abbrev pub IsSoftware : Kind → Type 0
IsSoftware (x64_hardware in_use) = ⊥
IsSoftware (x64_software saved) = Unit {0}
IsSoftware armv7_hardware = ⊥
IsSoftware (armv7_software saved) = Unit {0}
IsSoftware (thumbv7_software saved) = Unit {0}

abbrev pub opcode_of : Kind → List ℕ
opcode_of (x64_hardware in_use) = []
opcode_of (x64_software saved) = X64Software.opcode
opcode_of armv7_hardware = []
opcode_of (armv7_software saved) = Armv7Software.arm_opcode
opcode_of (thumbv7_software saved) = Armv7Software.thumb_opcode

abbrev pub saved_bytes : Kind → List ℕ
saved_bytes (x64_hardware in_use) = []
saved_bytes (x64_software saved) = saved
saved_bytes armv7_hardware = []
saved_bytes (armv7_software saved) = saved
saved_bytes (thumbv7_software saved) = saved

-- The memory `f`, with `bs` written and then `cs` at the same place.
pub two_writes :
    (f m1 m2 : ℕ → ℕ → ℕ) (task a : ℕ) (bs cs : List ℕ) (u x : ℕ)
    → length bs ≤ length cs
    → ((v y : ℕ) → m1 v y ≡ written f task a bs v y)
    → ((v y : ℕ) → m2 v y ≡ m1 v y)
    → written m2 task a cs u x ≡ written f task a cs u x
two_writes f m1 m2 task a bs cs u x le first same =
    written-cong m2 (written f task a bs) task a cs u x (λ v y. same v y ∙ first v y)
    ∙ written-written f task a bs cs u x le

module _ {W : Type 0} (k : Kernel W) (peek : W → ℕ → ℕ → ℕ) (laws : MemoryLaws k peek)
    (t : Target) where
  -- The reading of the place of the breakpoint succeeds, and then the writing of the opcode.
  abbrev pub IsApplied : Breakpoint → W → Type 0
  IsApplied b w =
      let n = length (opcode_of b.kind) in
      ((k.vm_read_overwrite b.proc.task b.address n (k.indeterminate n w) w).0 ≡ kern_success)
      × ((apply k t b w).0 ≡ true)

  pub apply-peek :
      (b : Breakpoint) (kind : Kind) (w : W) (u x : ℕ)
      → let b' = record b { kind = kind } in
        IsSoftware kind
        → (apply k t b' w).0 ≡ true
        → peek (apply k t b' w).2 u x ≡ written (peek w) b.proc.task b.address (opcode_of kind) u x
  unfolding apply
  apply-peek b (x64_software saved) w u x soft done =
      X64Software.apply-peek k peek laws (record b { kind = x64_software saved }) saved w u x done
  apply-peek b (armv7_software saved) w u x soft done =
      unfold Armv7Software.apply in
      Armv7Software.apply_opcode-peek k peek laws armv7_software Armv7Software.arm_opcode
        (record b { kind = armv7_software saved }) w u x done
  apply-peek b (thumbv7_software saved) w u x soft done =
      unfold Armv7Software.apply_thumb in
      Armv7Software.apply_opcode-peek k peek laws thumbv7_software Armv7Software.thumb_opcode
        (record b { kind = thumbv7_software saved }) w u x done
  apply-peek b (x64_hardware in_use) w u x soft done = absurd soft
  apply-peek b armv7_hardware w u x soft done = absurd soft

  pub reset-peek :
      (b : Breakpoint) (kind : Kind) (w : W) (u x : ℕ)
      → let b' = record b { kind = kind } in
        IsSoftware kind
        → (reset k t b' w).0 ≡ true
        → peek (reset k t b' w).2 u x
          ≡ written (peek w) b.proc.task b.address (saved_bytes kind) u x
  unfolding reset
  reset-peek b (x64_software saved) w u x soft done =
      X64Software.reset-peek k peek laws (record b { kind = x64_software saved }) saved w u x done
  reset-peek b (armv7_software saved) w u x soft done =
      unfold Armv7Software.reset in
      write_memory-peek k peek laws b.proc b.address saved true w u x done
  reset-peek b (thumbv7_software saved) w u x soft done =
      unfold Armv7Software.reset_thumb in
      write_memory-peek k peek laws b.proc b.address saved true w u x done
  reset-peek b (x64_hardware in_use) w u x soft done = absurd soft
  reset-peek b armv7_hardware w u x soft done = absurd soft

  -- The breakpoint `b'` stands where `b` does, and has saved the bytes from there.
  pub record Saved (b b' : Breakpoint) (w : W) : Type 0 where
    pub task : b'.proc.task ≡ b.proc.task
    pub address : b'.address ≡ b.address
    pub software : IsSoftware b'.kind
    pub bytes :
        saved_bytes b'.kind ≡ bytes_at (peek w b.proc.task) b.address (length (opcode_of b.kind))

  pub apply-Saved :
      (b : Breakpoint) (kind : Kind) (w : W)
      → let b' = record b { kind = kind } in
        IsFresh kind → IsApplied b' w → Saved b' (apply k t b' w).1 w
  unfolding apply
  apply-Saved b (x64_software saved) w fresh (read, done) =
      let b' = record b { kind = x64_software saved } in
      rw (X64Software.apply-saved k peek laws b' saved w read, fresh)
        (record { task = refl; address = refl; software = tt; bytes = refl })
  apply-Saved b (armv7_software saved) w fresh (read, done) =
      unfold Armv7Software.apply in
      (rw
        (Armv7Software.apply_opcode-saved k peek laws armv7_software Armv7Software.arm_opcode
          (record b { kind = armv7_software saved }) w 4 refl read)
        (record { task = refl; address = refl; software = tt; bytes = refl }))
  apply-Saved b (thumbv7_software saved) w fresh (read, done) =
      unfold Armv7Software.apply_thumb in
      (rw
        (Armv7Software.apply_opcode-saved k peek laws thumbv7_software Armv7Software.thumb_opcode
          (record b { kind = thumbv7_software saved }) w 2 refl read)
        (record { task = refl; address = refl; software = tt; bytes = refl }))
  apply-Saved b (x64_hardware in_use) w fresh h = absurd fresh
  apply-Saved b armv7_hardware w fresh h = absurd fresh

  -- A Reset of what has been saved.
  pub reset-Saved :
      (b b' : Breakpoint) (w w2 : W) (u x : ℕ)
      → Saved b b' w
      → (reset k t b' w2).0 ≡ true
      → peek (reset k t b' w2).2 u x
        ≡ written
            (peek w2)
            b.proc.task
            b.address
            (bytes_at (peek w b.proc.task) b.address (length (opcode_of b.kind)))
            u
            x
  reset-Saved b b' w w2 u x s done =
      reset-peek b' b'.kind w2 u x s.software done ∙ rw (s.task, s.address, s.bytes) refl

  pub IsFresh-IsSoftware : (kind : Kind) → IsFresh kind → IsSoftware kind
  IsFresh-IsSoftware (x64_software saved) fresh = tt
  IsFresh-IsSoftware (armv7_software saved) fresh = tt
  IsFresh-IsSoftware (thumbv7_software saved) fresh = tt
  IsFresh-IsSoftware (x64_hardware in_use) fresh = absurd fresh
  IsFresh-IsSoftware armv7_hardware fresh = absurd fresh

  module _ (b : Breakpoint) (w w2 : W) (fresh : IsFresh b.kind) (applied : IsApplied b w)
      (same : (u x : ℕ) → peek w2 u x ≡ peek (apply k t b w).2 u x) where
    -- Where the process leaves its memory as `Apply` has left it, the `Reset` that follows gives it
    -- back.
    pub reset_between :
        (u x : ℕ)
        → (reset k t (apply k t b w).1 w2).0 ≡ true
        → peek (reset k t (apply k t b w).1 w2).2 u x ≡ peek w u x
    reset_between u x done =
        let n = length (opcode_of b.kind) in
        let bytes = bytes_at (peek w b.proc.task) b.address n in
        let w1 = (apply k t b w).2 in
        reset-Saved b (apply k t b w).1 w w2 u x (apply-Saved b b.kind w fresh applied) done
        ∙ two_writes (peek w) (peek w1) (peek w2) b.proc.task b.address (opcode_of b.kind) bytes u x
            (omega (arith, length-bytes_at (peek w b.proc.task) b.address n))
            (λ v y. apply-peek b b.kind w v y (IsFresh-IsSoftware b.kind fresh) applied.1) same
        ∙ written-bytes_at (peek w) b.proc.task b.address n u x
