-- ===== src/Process/Protection.antt =====
-- The protection of the pages that Process::WriteMemory has written.
use master_lib.Base.{
  ℕ, ◌+◌, ◌%◌, ◌≤◌, ◌<◌, ◌≡◌, Bool, true, false, ◌&&◌, List, arith, ◌==◌, if◌then◌else◌, length,
}
use master_lib.Mach.{Kernel, kern_success, prot_all_copy, prot_read_execute}
use master_lib.Process.{Process}
use master_lib.Process.Memory.{write_memory}

-- Documented behaviour of vm_protect, over an observer of the protection of each address: where it
-- succeeds, the range has the new protection, of which VM_PROT_COPY is no part; where it fails, and on
-- a write, protections stay.
pub record ProtectLaws {W : Type 0} (k : Kernel W) (prot : W → ℕ → ℕ → ℕ) : Type 0 where
  pub protected :
      (t a n p : ℕ) (w : W) (x : ℕ)
      → (k.vm_protect t a n false p w).0 ≡ kern_success
      → a ≤ x
      → x < a + n
      → prot (k.vm_protect t a n false p w).1 t x ≡ p % 8
  pub refused :
      (t a n p : ℕ) (w : W) (x : ℕ)
      → ((k.vm_protect t a n false p w).0 == kern_success) ≡ false
      → prot (k.vm_protect t a n false p w).1 t x ≡ prot w t x
  pub written :
      (t a : ℕ) (bs : List ℕ) (w : W) (x : ℕ) → prot (k.vm_write t a bs w).1 t x ≡ prot w t x

module _ {W : Type 0} (k : Kernel W) (prot : W → ℕ → ℕ → ℕ) (laws : ProtectLaws k prot)
    (p : Process) (a : ℕ) (bs : List ℕ) (w : W) where
  -- Whether the three calls of a forced write succeed, when they are made.
  abbrev pub unlocks : Bool
  unlocks = (k.vm_protect p.task a (length bs) false prot_all_copy w).0 == kern_success

  abbrev unlocked : W
  unlocked = (k.vm_protect p.task a (length bs) false prot_all_copy w).1

  abbrev pub writes : Bool
  writes = (k.vm_write p.task a bs unlocked).0 == kern_success

  abbrev pub locks : Bool
  locks =
      (k.vm_protect p.task a (length bs) false prot_read_execute
        (k.vm_write p.task a bs unlocked).1).0
      == kern_success

  -- A write with `force` is true exactly if its three calls succeed. An address in the range may then
  -- be read and executed, whatever was allowed before; if the write or the last call fails, all is
  -- allowed; if the first call fails, the protection stays.
  pub write_memory-prot :
      (x : ℕ)
      → a ≤ x
      → x < a + length bs
      → let (done, w') = write_memory k p a bs true w in
        (done ≡ (unlocks && writes && locks))
        × (prot w' p.task x
            ≡ (if unlocks then (if writes && locks then 5 else 7) else prot w p.task x))
  unfolding write_memory
  write_memory-prot x above below =
      let wrote = (k.vm_write p.task a bs unlocked).1 in
      let open_ = laws.protected p.task a (length bs) prot_all_copy w x in
      let shut = laws.refused p.task a (length bs) prot_all_copy w x in
      let kept = laws.written p.task a bs unlocked x in
      let closed = laws.protected p.task a (length bs) prot_read_execute wrote x in
      let left = laws.refused p.task a (length bs) prot_read_execute wrote x in
      (ground arith, ground (arith, open_, shut, kept, closed, left))
