-- ===== src/Tests/Capstone.antt =====
-- Runs of the disassembler, and of the sizes of messages.
use master_lib.Base.{ℕ, ◌+◌, ◌≡◌, refl, ap, sym, Option, [], ◌∷◌, none, some, arith}
use master_lib.Base.Run.{fault, and_then}
use master_lib.Disassembler.{
  Capstone, Insn, Details, Disassembler, x64, mode64, new_disassembler, setup, disassemble,
  read_regs, write_regs,
}
use master_lib.Disassembler.Detail.{CapstoneLaws, read_regs-fault}
use master_lib.MachExc.Server.{Callbacks, mach_exc_server}
use master_lib.MachExc.Layout.{catch_mach_exc_subsystem}
use master_lib.MachExc.Fits.{Bounded, FitsIn, mach_exc_server-FitsIn}
use master_lib.Tests.Messages.{counting, state_message}

-- The instruction `ret`, for any code; the state counts the handles.
abbrev return : Insn
return = record {
  address = 4096;
  size = 1;
  bytes = 0xc3 ∷ [];
  mnemonic = b'r' ∷ b'e' ∷ b't' ∷ [];
  op_str = [];
  detail = none;
}

abbrev one_instruction : Capstone ℕ
one_instruction = record {
  cs_arch_x86 = 3;
  cs_arch_arm = 0;
  cs_arch_arm64 = 1;
  cs_mode_32 = 4;
  cs_mode_64 = 8;
  cs_mode_arm = 0;
  cs_mode_thumb = 16;
  cs_open = λ arch mode w. (0, w + 1, w + 1);
  cs_close = λ handle w. w;
  cs_disasm = λ handle code size address count w. (1, w);
  cs_free = λ insn count w. w;
  insn_at = λ w insn. some return;
}

abbrev detail_of : Option Insn → Option Details
detail_of none = none
detail_of (some i) = i.detail

one_instruction-CapstoneLaws : CapstoneLaws one_instruction (λ w handle. Unit {0})
one_instruction-CapstoneLaws = record {
  opened = λ arch mode w h. tt;
  no_detail = λ handle code size address count w i p e. ap detail_of (sym e);
}

abbrev ret_code : Disassembler
ret_code = new_disassembler 4096 (0xc3 ∷ []) 1 x64 mode64

opened_well : (setup one_instruction ret_code 0).0 ≡ 0
unfolding setup
opened_well = refl

read_regs-fault_example :
    (and_then
        (disassemble one_instruction
          (setup one_instruction ret_code 0).1
          (setup one_instruction ret_code 0).2)
        (read_regs one_instruction)
      ≡ fault)
    × (and_then
          (disassemble one_instruction
            (setup one_instruction ret_code 0).1
            (setup one_instruction ret_code 0).2)
          (write_regs one_instruction)
        ≡ fault)
read_regs-fault_example =
    read_regs-fault one_instruction (λ w handle. Unit {0}) one_instruction-CapstoneLaws ret_code 0
      opened_well

-- Callbacks that fill the room that they are given.
abbrev filling : Callbacks ℕ
filling = record counting {
  catch_raise_state = λ port kind code n flavor old m room s.
      (record { status = 0; flavor = flavor; new_state = old; new_state_count = room }, s);
  catch_raise_state_identity = λ port thread task kind code n flavor old m room s.
      (record { status = 0; flavor = flavor; new_state = old; new_state_count = room }, s);
}

filling-Bounded : Bounded filling
filling-Bounded = record {
  raise_state = λ port kind code n flavor old m capacity s. omega arith;
  raise_identity = λ port thread task kind code n flavor old m capacity s. omega arith;
}

mach_exc_server-FitsIn_example :
    FitsIn catch_mach_exc_subsystem.maxsize (mach_exc_server (0, 1) filling state_message 0).1
mach_exc_server-FitsIn_example =
    mach_exc_server-FitsIn (0, 1) filling filling-Bounded state_message 0
