-- ===== src/Process/Memory.antt =====
-- src/process.cc: Process::ReadMemory and Process::WriteMemory.
use master_lib.Base.{ℕ, ◌≡◌, Bool, true, false, List, arith, ◌==◌, if◌then◌else◌, length}
use master_lib.Mach.{Kernel, kern_success, to_bool, prot_all_copy, prot_read_execute}
use master_lib.Mach.Memory.{MemoryLaws, written, written-cong}
use master_lib.Process.{Process}

module _ {W : Type 0} (k : Kernel W) where
  -- `output` is the buffer before the call, and the second result the buffer after it. The macro
  -- krncall returns false when the status is not KERN_SUCCESS; the last line returns KERN_SUCCESS
  -- as a bool.
  unfoldable pub read_memory : Process → ℕ → List ℕ → ℕ → W → Bool × List ℕ × W
  read_memory p address output size w =
      let (status, output', w') = k.vm_read_overwrite p.task address size output w in
      if status == kern_success then (to_bool kern_success, output', w') else (false, output', w')

  write_plain : Process → ℕ → List ℕ → W → Bool × W
  write_plain p address input w =
      let (status, w') = k.vm_write p.task address input w in
      if status == kern_success then (true, w') else (false, w')

  -- the last call of the branch `force`
  protect_after : Process → ℕ → ℕ → W → Bool × W
  protect_after p address size w =
      let (status, w') = k.vm_protect p.task address size false prot_read_execute w in
      if status == kern_success then (true, w') else (false, w')

  -- the second and third call of the branch `force`
  write_protect : Process → ℕ → List ℕ → W → Bool × W
  unfolding protect_after
  write_protect p address input w =
      let (status, w') = k.vm_write p.task address input w in
      if status == kern_success then protect_after p address (length input) w' else (false, w')

  write_force : Process → ℕ → List ℕ → W → Bool × W
  unfolding write_protect
  write_force p address input w =
      let (status, w') = k.vm_protect p.task address (length input) false prot_all_copy w in
      if status == kern_success then write_protect p address input w' else (false, w')

  -- `size` is the length of `input` at every call in the library.
  unfoldable pub write_memory : Process → ℕ → List ℕ → Bool → W → Bool × W
  unfolding write_force write_plain
  write_memory p address input force w =
      if force then write_force p address input w else write_plain p address input w

  -- `ReadMemory` answers false whether the read succeeds or fails.
  pub read_memory-false :
      (p : Process) (address : ℕ) (output : List ℕ) (size : ℕ) (w : W)
      → (read_memory p address output size w).0 ≡ false
  unfolding read_memory
  read_memory-false p address output size w = ground arith

  module _ (peek : W → ℕ → ℕ → ℕ) (laws : MemoryLaws k peek) where
    pub read_memory-peek :
        (p : Process) (address : ℕ) (output : List ℕ) (size : ℕ) (w : W) (u x : ℕ)
        → peek (read_memory p address output size w).2 u x ≡ peek w u x
    unfolding read_memory
    read_memory-peek p address output size w u x =
        ground (arith, laws.read_peek p.task address size output w u x)

    write_plain-peek :
        (p : Process) (address : ℕ) (input : List ℕ) (w : W) (u x : ℕ)
        → (write_plain p address input w).0 ≡ true
        → peek (write_plain p address input w).1 u x ≡ written (peek w) p.task address input u x
    unfolding write_plain
    write_plain-peek p address input w u x done =
        let written = laws.write_ok p.task address input w in
        ground (arith, λ (e : (k.vm_write p.task address input w).0 ≡ kern_success). written e u x)

    write_protect-peek :
        (p : Process) (address : ℕ) (input : List ℕ) (w : W) (u x : ℕ)
        → (write_protect p address input w).0 ≡ true
        → peek (write_protect p address input w).1 u x ≡ written (peek w) p.task address input u x
    unfolding write_protect
    write_protect-peek p address input w u x done =
        let written = laws.write_ok p.task address input w in
        let w' = (k.vm_write p.task address input w).1 in
        ground (
          arith,
          λ (e : (k.vm_write p.task address input w).0 ≡ kern_success). written e u x,
          laws.protect_peek p.task address (length input) false prot_read_execute w' u x,
        )

    write_force-peek :
        (p : Process) (address : ℕ) (input : List ℕ) (w : W) (u x : ℕ)
        → (write_force p address input w).0 ≡ true
        → peek (write_force p address input w).1 u x ≡ written (peek w) p.task address input u x
    unfolding write_force
    write_force-peek p address input w u x done =
        let w' = (k.vm_protect p.task address (length input) false prot_all_copy w).1 in
        let same = laws.protect_peek p.task address (length input) false prot_all_copy w in
        ground (
          arith,
          write_protect-peek p address input w' u x,
          written-cong (peek w') (peek w) p.task address input u x same,
        )

    pub write_memory-peek :
        (p : Process) (address : ℕ) (input : List ℕ) (force : Bool) (w : W) (u x : ℕ)
        → (write_memory p address input force w).0 ≡ true
        → peek (write_memory p address input force w).1 u x
          ≡ written (peek w) p.task address input u x
    unfolding write_memory
    write_memory-peek p address input true w u x done = write_force-peek p address input w u x done
    write_memory-peek p address input false w u x done = write_plain-peek p address input w u x done
