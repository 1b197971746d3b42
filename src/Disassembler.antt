-- ===== src/Disassembler.antt =====
-- src/disassembler.h, src/disassembler.cc, src/instr.h: the classes Disassembler and Instr. The
-- functions of capstone, a git submodule, are parameters.
pub mod Detail
use master_lib.Base.{ℕ, ◌==◌, Bool, List, [], ◌∷◌, Option, none, some, if◌then◌else◌}
use master_lib.Base.Run.{Run, ok, fault, Cmd}
use master_lib.Host.{Target, i386, x86_64, arm, arm64}

-- cs_detail, and cs_insn with its pointer to it: none is the null pointer.
pub record Details : Type 0 where
  pub regs_read : List ℕ
  pub regs_write : List ℕ

pub record Insn : Type 0 where
  pub address : ℕ
  pub size : ℕ
  pub bytes : List ℕ
  pub mnemonic : List ℕ
  pub op_str : List ℕ
  pub detail : Option Details

-- The values of the enumerations cs_arch and cs_mode that the source uses, and the functions.
pub record Capstone (W : Type 0) : Type 0 where
  pub cs_arch_x86 : ℕ
  pub cs_arch_arm : ℕ
  pub cs_arch_arm64 : ℕ
  pub cs_mode_32 : ℕ
  pub cs_mode_64 : ℕ
  pub cs_mode_arm : ℕ
  pub cs_mode_thumb : ℕ
  -- the status, and what the handle holds after the call
  pub cs_open : (arch mode : ℕ) → W → ℕ × ℕ × W
  pub cs_close : (handle : ℕ) → W → W
  -- the pointer that the call has put into `insn`; the number of instructions is dropped
  pub cs_disasm : (handle : ℕ) → (code : List ℕ) → (size address count : ℕ) → W → ℕ × W
  pub cs_free : (insn count : ℕ) → W → W
  -- what a pointer leads to
  pub insn_at : W → ℕ → Option Insn

pub data Arch : Type 0 where
  x86 x64 arm_v7 arm_v8 : Arch

pub data Mode : Type 0 where
  mode32 mode64 mode_arm mode_thumb : Mode

-- HOST_ARCH and HOST_MODE
abbrev pub host_arch : Target → Arch
host_arch i386 = x86
host_arch x86_64 = x64
host_arch arm = arm_v7
host_arch arm64 = arm_v8

abbrev pub host_mode : Target → Mode
host_mode i386 = mode32
host_mode x86_64 = mode64
host_mode arm = mode_thumb
host_mode arm64 = mode64

-- `handle` is none until Setup writes it.
pub record Disassembler : Type 0 where
  pub address : ℕ
  pub code : List ℕ
  pub size : ℕ
  pub arch : Arch
  pub mode : Mode
  pub handle : Option ℕ

-- The constructor leaves handle_ uninitialised.
abbrev pub new_disassembler :
    (address : ℕ) → (code : List ℕ) → (size : ℕ) → Arch → Mode → Disassembler
new_disassembler address code size arch mode = record {
  address = address;
  code = code;
  size = size;
  arch = arch;
  mode = mode;
  handle = none;
}

module _ {W : Type 0} (cs : Capstone W) where
  abbrev pub cs_arch : Arch → ℕ
  cs_arch x86 = cs.cs_arch_x86
  cs_arch x64 = cs.cs_arch_x86
  cs_arch arm_v7 = cs.cs_arch_arm
  cs_arch arm_v8 = cs.cs_arch_arm64

  abbrev pub cs_mode : Mode → ℕ
  cs_mode mode32 = cs.cs_mode_32
  cs_mode mode64 = cs.cs_mode_64
  cs_mode mode_arm = cs.cs_mode_arm
  cs_mode mode_thumb = cs.cs_mode_thumb

  unfoldable pub setup : Disassembler → W → ℕ × Disassembler × W
  setup d w =
      let (status, handle, w') = cs.cs_open (cs_arch d.arch) (cs_mode d.mode) w in
      (status, record d { handle = some handle }, w')

  -- ~Disassembler
  unfoldable pub close_disassembler : Disassembler → Cmd W (Unit {0})
  close_disassembler d w = elim (d.handle) [
    | none ↦ fault
    | some handle ↦ ok tt (cs.cs_close handle w)
  ]

  -- Disassemble: the pointer that the Instr holds. A count of 0 asks for all instructions.
  unfoldable pub disassemble : Disassembler → Cmd W ℕ
  disassemble d w = elim (d.handle) [
    | none ↦ fault
    | some handle ↦ let (insn, w') = cs.cs_disasm handle d.code d.size d.address 0 w in ok insn w'
  ]

  -- `insn_->`
  unfoldable pub insn_of : ℕ → Cmd W Insn
  insn_of insn w = elim (cs.insn_at w insn) [ none ↦ fault | some i ↦ ok i w ]

  -- `insn_->detail->`
  unfoldable pub details_of : ℕ → Cmd W Details
  details_of insn w = elim (cs.insn_at w insn) [
    | none ↦ fault
    | some i ↦ elim (i.detail) [ none ↦ fault | some d ↦ ok d w ]
  ]

  unfoldable pub read_regs : ℕ → Cmd W (List ℕ)
  unfolding details_of
  read_regs insn w = elim (details_of insn w) [ ok d w' ↦ ok d.regs_read w' | fault ↦ fault ]

  unfoldable pub write_regs : ℕ → Cmd W (List ℕ)
  unfolding details_of
  write_regs insn w = elim (details_of insn w) [ ok d w' ↦ ok d.regs_write w' | fault ↦ fault ]

  -- ~Instr
  unfoldable pub free_instr : ℕ → W → W
  free_instr insn w = cs.cs_free insn 1 w
