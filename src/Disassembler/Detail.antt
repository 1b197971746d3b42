-- ===== src/Disassembler/Detail.antt =====
-- Instr::read_regs and Instr::write_regs on what Disassembler::Disassemble returns.
use master_lib.Base.{ℕ, ◌≡◌, refl, inl, inr, List, none, some, Option-cases}
use master_lib.Base.Run.{fault, and_then}
use master_lib.Disassembler.{
  Capstone, Insn, Disassembler, setup, disassemble, read_regs, write_regs, details_of, cs_arch,
  cs_mode,
}

-- Documented behaviour of capstone: a handle that cs_open has made gives no details, unless cs_option
-- turns CS_OPT_DETAIL on; the instructions that are disassembled then have a null pointer for them.
pub record CapstoneLaws {W : Type 0} (cs : Capstone W) (plain : W → ℕ → Type 0) : Type 0 where
  pub opened :
      (arch mode : ℕ) (w : W)
      → (cs.cs_open arch mode w).0 ≡ 0
      → plain (cs.cs_open arch mode w).2 (cs.cs_open arch mode w).1
  pub no_detail :
      (handle : ℕ) (code : List ℕ) (size address count : ℕ) (w : W) (i : Insn)
      → plain w handle
      → cs.insn_at
          (cs.cs_disasm handle code size address count w).1
          (cs.cs_disasm handle code size address count w).0
        ≡ some i
      → i.detail ≡ none

module _ {W : Type 0} (cs : Capstone W) (plain : W → ℕ → Type 0)
    (laws : CapstoneLaws cs plain) where
  -- After a `Setup` that succeeds, `read_regs` and `write_regs` of the instruction that `Disassemble`
  -- returns dereference a null pointer, whatever is disassembled.
  pub read_regs-fault :
      (d : Disassembler) (w : W)
      → (setup cs d w).0 ≡ 0
      → let (status, d', w') = setup cs d w in
        (and_then (disassemble cs d' w') (read_regs cs) ≡ fault)
        × (and_then (disassemble cs d' w') (write_regs cs) ≡ fault)
  unfolding setup disassemble read_regs write_regs
  read_regs-fault d w h =
      let (status, handle, w1) = cs.cs_open (cs_arch cs d.arch) (cs_mode cs d.mode) w in
      let (insn, w2) = cs.cs_disasm handle d.code d.size d.address 0 w1 in
      let none_there = no_details handle d w1 (laws.opened _ _ w h) in
      (rw (read_regs, none_there) refl, rw (write_regs, none_there) refl)
    where
      no_details :
          (handle : ℕ) (d : Disassembler) (w1 : W)
          → plain w1 handle
          → details_of cs
              (cs.cs_disasm handle d.code d.size d.address 0 w1).0
              (cs.cs_disasm handle d.code d.size d.address 0 w1).1
            ≡ fault
      no_details handle d w1 p =
          let (insn, w2) = cs.cs_disasm handle d.code d.size d.address 0 w1 in
          elim (Option-cases (cs.insn_at w2 insn)) [
            | inl e ↦ rw (details_of, e) refl
            | inr (i, e) ↦
                rw (details_of, e, laws.no_detail handle d.code d.size d.address 0 w1 i p e) refl
          ]
