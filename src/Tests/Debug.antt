-- ===== src/Tests/Debug.antt =====
-- Runs of hardware breakpoints and of the debug control register.
use master_lib.Base.{true, false, ◌%◌, ◌/◌, ◌^◌, ◌-◌, ◌==◌, ℕ, ◌≡◌, refl, List, [], ◌∷◌, arith}
use master_lib.ThreadState.{ThreadState}
use master_lib.ThreadState.X64
use master_lib.Breakpoint.{Breakpoint, x64_hardware}
use master_lib.Breakpoint.X64Hardware
use master_lib.Breakpoint.X64Hardware.Dr7.{of_register, to_register, to_register-of_register}
use master_lib.Breakpoint.X64Hardware.Arming.{among}
use master_lib.Breakpoint.X64Hardware.Armed.{AllArmed, apply_loop-AllArmed}
use master_lib.Breakpoint.X64Hardware.Slots.{of_words, address_of}
use master_lib.Breakpoint.X64Hardware.Rounds.{AllUnheld, RoundedFrom, reset_loop-apply_loop}
use master_lib.Tests.Machine.{Machine, machine, start, machine-DebugLaws}
use master_lib.Tests.Memory.{on_x64}

abbrev hardware : Breakpoint
hardware = record on_x64 { kind = x64_hardware 0 }

abbrev debug : Machine → ℕ → List ℕ
debug w = w.debug

-- The states of the threads 5 and 6.
abbrev states : List ThreadState
states = X64.create machine 5 start ∷ X64.create machine 6 start ∷ []

apply_loop-AllArmed_example :
    AllArmed machine debug machine-DebugLaws 20 0 states start
      (X64Hardware.apply_loop machine states hardware 0 start).2
    × ((u : ℕ)
        → among machine debug machine-DebugLaws u states ≡ false
        → debug (X64Hardware.apply_loop machine states hardware 0 start).2 u ≡ debug start u)
unfolding X64.create
apply_loop-AllArmed_example =
    apply_loop-AllArmed machine debug machine-DebugLaws states hardware 0 start (omega arith)
      (refl, (refl, tt))

to_register-of_register_example :
    let v' = to_register (of_register 0x80000001) in
    (v' % 2 ^ 32 ≡ 0x80000001) × (v' / 2 ^ 32 ≡ 2 ^ 32 - 1) × ((v' == 0x80000001) ≡ false)
to_register-of_register_example = to_register-of_register 0x80000001 (omega arith)

-- Every thread has other addresses in its registers.
abbrev watched : Machine
watched = record start { debug = λ t. 10 ∷ 11 ∷ 12 ∷ 13 ∷ 0 ∷ 0 ∷ 0 ∷ 0x54 ∷ [] }

watched-AllUnheld : AllUnheld machine debug machine-DebugLaws 20 states watched
unfolding X64.create of_words address_of
watched-AllUnheld =
    (λ j fits held. ground (arith, fits, held), (λ j fits held. ground (arith, fits, held), tt))

reset_loop-apply_loop_example :
    let (_, b1, w1) = X64Hardware.apply_loop machine states hardware 0 watched in
    ((X64Hardware.reset_loop machine states b1 w1).0 ≡ true)
    × RoundedFrom machine debug machine-DebugLaws 20 0 states watched
        (X64Hardware.reset_loop machine states b1 w1).2
unfolding X64.create
reset_loop-apply_loop_example =
    reset_loop-apply_loop machine debug machine-DebugLaws states hardware 0 watched (omega arith)
      (refl, (refl, tt)) watched-AllUnheld
