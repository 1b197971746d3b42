-- ===== src/Breakpoint/X64Hardware/Slots.antt =====
-- src/x64/breakpoint_x64.cc: the switch of Apply, and the search and the switch of Reset, on the
-- debug registers of one thread.
use master_lib.Base.{
  ℕ, zero, suc, ◌+◌, ◌*◌, ◌/◌, List, [], ◌∷◌, Option, none, some, ◌==◌, if◌then◌else◌, get_or,
}
use master_lib.Breakpoint.X64Hardware.Dr7.{of_register, to_register}

-- x86_debug_state64_t
pub record DebugState : Type 0 where
  pub dr0 : ℕ
  pub dr1 : ℕ
  pub dr2 : ℕ
  pub dr3 : ℕ
  pub dr4 : ℕ
  pub dr5 : ℕ
  pub dr6 : ℕ
  pub dr7 : ℕ

unfoldable pub of_words : List ℕ → DebugState
of_words ws = record {
  dr0 = get_or ws 0 0;
  dr1 = get_or ws 1 0;
  dr2 = get_or ws 2 0;
  dr3 = get_or ws 3 0;
  dr4 = get_or ws 4 0;
  dr5 = get_or ws 5 0;
  dr6 = get_or ws 6 0;
  dr7 = get_or ws 7 0;
}

unfoldable pub to_words : DebugState → List ℕ
to_words d = d.dr0 ∷ d.dr1 ∷ d.dr2 ∷ d.dr3 ∷ d.dr4 ∷ d.dr5 ∷ d.dr6 ∷ d.dr7 ∷ []

-- `flags |= 0x1`
abbrev pub set_local : ℕ → ℕ
set_local flags = flags / 2 * 2 + 1

-- The switch of Apply, `|= 0x0` left out; none is its default case.
unfoldable pub arm_slot : ℕ → ℕ → DebugState → Option DebugState
arm_slot zero address d =
    let c = of_register d.dr7 in
    some (record d {
      dr0 = address;
      dr7 = to_register (record c { flags_dr0 = set_local c.flags_dr0 });
    })
arm_slot (suc zero) address d =
    let c = of_register d.dr7 in
    some (record d {
      dr1 = address;
      dr7 = to_register (record c { flags_dr1 = set_local c.flags_dr1 });
    })
arm_slot (suc (suc zero)) address d =
    let c = of_register d.dr7 in
    some (record d {
      dr2 = address;
      dr7 = to_register (record c { flags_dr2 = set_local c.flags_dr2 });
    })
arm_slot (suc (suc (suc zero))) address d =
    let c = of_register d.dr7 in
    some (record d {
      dr3 = address;
      dr7 = to_register (record c { flags_dr3 = set_local c.flags_dr3 });
    })
arm_slot (suc (suc (suc (suc n)))) address d = none

-- Four assignments in a row: the last register that matches wins.
unfoldable pub find_slot : ℕ → DebugState → Option ℕ
find_slot address d =
    if d.dr3 == address
    then some 3
    else if d.dr2 == address
    then some 2
    else if d.dr1 == address
    then some 1
    else if d.dr0 == address
    then some 0
    else none

-- The switch of Reset, which has no default case.
unfoldable pub disarm_slot : ℕ → DebugState → DebugState
disarm_slot zero d = record d { dr7 = to_register (record (of_register d.dr7) { flags_dr0 = 0 }) }
disarm_slot (suc zero) d = record d {
  dr7 = to_register (record (of_register d.dr7) { flags_dr1 = 0 });
}
disarm_slot (suc (suc zero)) d = record d {
  dr7 = to_register (record (of_register d.dr7) { flags_dr2 = 0 });
}
disarm_slot (suc (suc (suc zero))) d = record d {
  dr7 = to_register (record (of_register d.dr7) { flags_dr3 = 0 });
}
disarm_slot (suc (suc (suc (suc n)))) d = record d { dr7 = to_register (of_register d.dr7) }

-- A slot of the four: its address register, and its two enable bits in dr7.
unfoldable pub address_of : ℕ → DebugState → ℕ
address_of i d = if i == 0 then d.dr0 else if i == 1 then d.dr1 else if i == 2 then d.dr2 else d.dr3

unfoldable pub enable_bits : ℕ → DebugState → ℕ
enable_bits i d =
    let c = of_register d.dr7 in
    if i == 0
    then c.flags_dr0
    else if i == 1
    then c.flags_dr1
    else if i == 2
    then c.flags_dr2
    else c.flags_dr3
