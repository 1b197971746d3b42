-- ===== src/Breakpoint/X64Hardware/SlotLaws.antt =====
-- What arming and disarming a slot do to the debug registers of a thread.
use master_lib.Base.{ℕ, zero, suc, ◌≤◌, ◌<◌, ◌≡◌, refl, ◌≢◌, none, some, arith, ◌==◌, if◌then◌else◌}
use master_lib.Breakpoint.X64Hardware.Dr7.{
  Dr7Ctx, of_register, to_register, Fits, of_register-Fits, of_register-to_register,
}
use master_lib.Breakpoint.X64Hardware.Slots.{
  DebugState, set_local, arm_slot, find_slot, disarm_slot, address_of, enable_bits,
}

-- `arm_slot` as a total function.
unfoldable pub armed : ℕ → ℕ → DebugState → DebugState
unfolding arm_slot
armed i address d = elim (arm_slot i address d) [ none ↦ d | some d' ↦ d' ]

-- The other slots of `d'` are those of `d`.
abbrev pub OthersKept : ℕ → DebugState → DebugState → Type 0
OthersKept i d d' =
    (j : ℕ)
    → j < 4
    → j ≢ i
    → (address_of j d' ≡ address_of j d) × (enable_bits j d' ≡ enable_bits j d)

pub arm_slot-armed :
    (i address : ℕ) (d : DebugState) → i < 4 → arm_slot i address d ≡ some (armed i address d)
unfolding armed
arm_slot-armed zero address d h = refl
arm_slot-armed (suc zero) address d h = refl
arm_slot-armed (suc (suc zero)) address d h = refl
arm_slot-armed (suc (suc (suc zero))) address d h = refl
arm_slot-armed (suc (suc (suc (suc i)))) address d h = absurd (omega arith)

pub arm_slot-none : (i address : ℕ) (d : DebugState) → 4 ≤ i → arm_slot i address d ≡ none
unfolding arm_slot
arm_slot-none zero address d h = absurd (omega arith)
arm_slot-none (suc zero) address d h = absurd (omega arith)
arm_slot-none (suc (suc zero)) address d h = absurd (omega arith)
arm_slot-none (suc (suc (suc zero))) address d h = absurd (omega arith)
arm_slot-none (suc (suc (suc (suc i)))) address d h = refl

-- The structure with the local bit of slot `i` set, and with both its bits cleared.
with_local : ℕ → Dr7Ctx → Dr7Ctx
with_local zero c = record c { flags_dr0 = set_local c.flags_dr0 }
with_local (suc zero) c = record c { flags_dr1 = set_local c.flags_dr1 }
with_local (suc (suc zero)) c = record c { flags_dr2 = set_local c.flags_dr2 }
with_local (suc (suc (suc i))) c = record c { flags_dr3 = set_local c.flags_dr3 }

without_flags : ℕ → Dr7Ctx → Dr7Ctx
without_flags zero c = record c { flags_dr0 = 0 }
without_flags (suc zero) c = record c { flags_dr1 = 0 }
without_flags (suc (suc zero)) c = record c { flags_dr2 = 0 }
without_flags (suc (suc (suc i))) c = record c { flags_dr3 = 0 }

with_local-Fits : (i : ℕ) (c : Dr7Ctx) → Fits c → Fits (with_local i c)
unfolding with_local
with_local-Fits zero c f = omega arith
with_local-Fits (suc zero) c f = omega arith
with_local-Fits (suc (suc zero)) c f = omega arith
with_local-Fits (suc (suc (suc i))) c f = omega arith

without_flags-Fits : (i : ℕ) (c : Dr7Ctx) → Fits c → Fits (without_flags i c)
unfolding without_flags
without_flags-Fits zero c f = omega arith
without_flags-Fits (suc zero) c f = omega arith
without_flags-Fits (suc (suc zero)) c f = omega arith
without_flags-Fits (suc (suc (suc i))) c f = omega arith

-- The structure that is read back after the write.
read_local :
    (i v : ℕ)
    → of_register (to_register (with_local i (of_register v))) ≡ with_local i (of_register v)
read_local i v =
    of_register-to_register (with_local i (of_register v))
      (with_local-Fits i (of_register v) (of_register-Fits v))

read_without :
    (i v : ℕ)
    → of_register (to_register (without_flags i (of_register v))) ≡ without_flags i (of_register v)
read_without i v =
    of_register-to_register (without_flags i (of_register v))
      (without_flags-Fits i (of_register v) (of_register-Fits v))

-- Arming slot `i` of the four puts the address in its register and sets its local enable bit, and
-- keeps the other slots.
pub armed_lem :
    (i address : ℕ) (d : DebugState) (j : ℕ)
    → i < 4
    → j < 4
    → (address_of j (armed i address d) ≡ (if j == i then address else address_of j d))
      × (enable_bits j (armed i address d)
          ≡ (if j == i then set_local (enable_bits j d) else enable_bits j d))
unfolding armed address_of enable_bits with_local
armed_lem zero address d j hi hj = ground (arith, read_local 0 d.dr7)
armed_lem (suc zero) address d j hi hj = ground (arith, read_local 1 d.dr7)
armed_lem (suc (suc zero)) address d j hi hj = ground (arith, read_local 2 d.dr7)
armed_lem (suc (suc (suc zero))) address d j hi hj = ground (arith, read_local 3 d.dr7)
armed_lem (suc (suc (suc (suc i)))) address d j hi hj = absurd (omega arith)

-- Disarming slot `i` of the four clears both its enable bits, and keeps all addresses and the bits of
-- the other slots.
pub disarm_slot_lem :
    (i : ℕ) (d : DebugState) (j : ℕ)
    → i < 4
    → j < 4
    → (address_of j (disarm_slot i d) ≡ address_of j d)
      × (enable_bits j (disarm_slot i d) ≡ (if j == i then 0 else enable_bits j d))
unfolding disarm_slot address_of enable_bits without_flags
disarm_slot_lem zero d j hi hj = ground (arith, read_without 0 d.dr7)
disarm_slot_lem (suc zero) d j hi hj = ground (arith, read_without 1 d.dr7)
disarm_slot_lem (suc (suc zero)) d j hi hj = ground (arith, read_without 2 d.dr7)
disarm_slot_lem (suc (suc (suc zero))) d j hi hj = ground (arith, read_without 3 d.dr7)
disarm_slot_lem (suc (suc (suc (suc i)))) d j hi hj = absurd (omega arith)

-- `Reset` finds the last slot that holds the address, and none where no slot does.
pub find_slot_lem :
    (address : ℕ) (d : DebugState) (i : ℕ)
    → i < 4
    → address_of i d ≡ address
    → ((j : ℕ) → i < j → j < 4 → address_of j d ≢ address)
    → find_slot address d ≡ some i
unfolding find_slot address_of
find_slot_lem address d i hi e later = ground (arith, later 1, later 2, later 3)
