-- ===== src/Tests/Memory.antt =====
-- Runs of breakpoints and of the memory functions.
use master_lib.Base.{ℕ, ◌≡◌, refl, true, false, [], ◌∷◌, none, some, arith}
use master_lib.Host.{x86_64}
use master_lib.Process.{Process}
use master_lib.Process.Memory.{read_memory, write_memory}
use master_lib.Process.Protection.{write_memory-prot}
use master_lib.Process.Regions.Defs.{get_regions, vm_prot_any}
use master_lib.Process.Regions.Flat.{get_regions-matching, matching, listed}
use master_lib.Process.Regions.Termination.{get_regions-Ends, Ends}
use master_lib.Breakpoint.{Breakpoint, x64_software, armv7_software, apply, reset}
use master_lib.Breakpoint.X64Software
use master_lib.Breakpoint.RoundTrip.{after, Succeeds, x64_second_round}
use master_lib.Tests.Machine.{
  Machine, machine, guarded, guarded-ProtectLaws, start, regions, machine-MemoryLaws,
  machine-FlatMap, machine-RegionLaws,
}

abbrev pub shell : Process
shell = record { pid = 7; name = b'l' ∷ b's' ∷ []; task = 107; paused = false }

abbrev pub on_x64 : Breakpoint
on_x64 = record {
  active = false;
  address = 20;
  proc = shell;
  callback = none;
  kind = x64_software [];
}

abbrev pub on_arm : Breakpoint
on_arm = record on_x64 { kind = armv7_software (9 ∷ 9 ∷ 9 ∷ 9 ∷ []) }

abbrev pub peek : Machine → ℕ → ℕ → ℕ
peek w = w.memory

-- What a round of the x86 breakpoint leaves.
abbrev once : Breakpoint × Machine
once = after machine peek machine-MemoryLaws x86_64 on_x64 start

first-Succeeds : Succeeds machine peek machine-MemoryLaws x86_64 1 on_x64 start
unfolding apply reset X64Software.apply X64Software.reset read_memory write_memory
first-Succeeds = record { read = refl; applied = refl; was_reset = refl }

second-Succeeds : Succeeds machine peek machine-MemoryLaws x86_64 1 once.0 once.1
unfolding apply reset X64Software.apply X64Software.reset read_memory write_memory
second-Succeeds = record { read = refl; applied = refl; was_reset = refl }

x64_second_round_example :
    peek (after machine peek machine-MemoryLaws x86_64 once.0 once.1).1 107 21 ≡ 20
x64_second_round_example =
    x64_second_round machine peek machine-MemoryLaws x86_64 on_x64 start first-Succeeds
      second-Succeeds

write_memory-prot_example :
    let (done, w') = write_memory guarded shell 20 (1 ∷ 2 ∷ []) true start in
    (done ≡ true) × (w'.protections 107 21 ≡ 5)
unfolding write_memory
write_memory-prot_example =
    write_memory-prot guarded (λ w. w.protections) guarded-ProtectLaws shell 20 (1 ∷ 2 ∷ []) start
      21 (omega arith) (omega arith)

get_regions-matching_example :
    listed (get_regions machine 3 shell 3 start) ≡ some (matching 3 regions)
get_regions-matching_example =
    get_regions-matching machine shell 3 regions machine-FlatMap 3 start (omega arith) (omega arith)

get_regions-Ends_example : Ends vm_prot_any 0 (get_regions machine 200 shell vm_prot_any start)
get_regions-Ends_example =
    get_regions-Ends machine shell 96 1 machine-RegionLaws vm_prot_any 200 start (omega arith)
      (omega arith)
