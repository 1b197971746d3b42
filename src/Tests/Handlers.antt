-- ===== src/Tests/Handlers.antt =====
-- Runs of the breakpoint handler.
use master_lib.Base.{
  ℕ, ◌+◌, ◌≡◌, refl, Bool, true, false, List, [], ◌∷◌, Option, none, some, inl, inr, ◌==◌,
  if◌then◌else◌,
}
use master_lib.Base.Run.{ok, fault}
use master_lib.Host.{x86_64}
use master_lib.Breakpoint
use master_lib.Breakpoint.{Breakpoint, armv7_software}
use master_lib.BreakpointHandler.{Handler, breakpoint_at_address, breakpoints, uninstall_breakpoint}
use master_lib.BreakpointHandler.Live.{Live}
use master_lib.BreakpointHandler.Lookup.{
  FirstAt, asked, select, breakpoint_at_address-FirstAt, breakpoints-select,
}
use master_lib.BreakpointHandler.Commands.{
  Command, install, enable, after_commands, perform_all, Follows, perform_all-Follows,
}
use master_lib.BreakpointHandler.Uninstall.{reset_to, uninstall_breakpoint-erased}
use master_lib.BreakpointHandler.Race.{Vector, Threads, Reach, begun, push_back, pushed, invalid}
use master_lib.BreakpointHandler.Race.Overlap.{
  AnswersAlone, is_over, rounds, looking_up, full, Reach-overlap,
}
use master_lib.Tests.Machine.{Machine, machine, start}
use master_lib.Tests.Memory.{on_x64}

-- The objects 1, 2 and 3, at the addresses 20, 21 and 22; the third is enabled.
abbrev objects : ℕ → Option Breakpoint
objects p =
    if p == 1
    then some on_x64
    else if p == 2
    then some (record on_x64 { address = 21 })
    else if p == 3
    then some (record on_x64 { address = 22; active = true })
    else none

abbrev pub three : Handler Machine
three = record { world = start; objects = objects; breakpoints = 1 ∷ 2 ∷ 3 ∷ [] }

abbrev two : Handler Machine
two = record three { breakpoints = 1 ∷ 2 ∷ [] }

abbrev two-Live : Live objects (1 ∷ 2 ∷ [])
two-Live = ((on_x64, refl), ((record on_x64 { address = 21 }, refl), tt))

abbrev pub three-Live : Live objects (1 ∷ 2 ∷ 3 ∷ [])
three-Live = (
  (on_x64, refl),
  (
    (record on_x64 { address = 21 }, refl),
    ((record on_x64 { address = 22; active = true }, refl), tt),
  ),
)

breakpoint_at_address-FirstAt_example :
    (p : ℕ) × (breakpoint_at_address 21 three ≡ ok p three) × FirstAt objects 21 (1 ∷ 2 ∷ 3 ∷ []) p
breakpoint_at_address-FirstAt_example = breakpoint_at_address-FirstAt 21 three three-Live

breakpoints-select_example :
    breakpoints 1 three ≡ ok (select (λ p. asked 1 (objects p)) (1 ∷ 2 ∷ 3 ∷ [])) three
breakpoints-select_example = breakpoints-select 1 three three-Live

-- The third is installed, the first enabled, and null installed.
abbrev commands : List Command
commands = install 3 true ∷ enable 1 ∷ install 0 false ∷ []

perform_all-Follows_example :
    (results : List Bool) × (h' : Handler Machine) × (perform_all machine x86_64 commands two
      ≡ ok results h')
    × Follows machine x86_64 two (after_commands commands results two.breakpoints) h'
perform_all-Follows_example =
    perform_all-Follows machine x86_64 commands two two-Live
      (inr (_, refl), ((_, refl), (inl refl, tt)))

abbrev second : Breakpoint
second = record on_x64 { address = 21 }

uninstall_breakpoint-erased_example : uninstall_breakpoint machine x86_64 2 three ≡ (
    if (Breakpoint.reset machine x86_64 second start).0
    then fault
    else ok false (reset_to machine x86_64 2 2 second three))
uninstall_breakpoint-erased_example =
    uninstall_breakpoint-erased machine x86_64 2 second (1 ∷ []) (3 ∷ []) three refl refl refl

-- The vector of the handler, full.
abbrev crowded : Vector
crowded = record { elements = 1 ∷ 2 ∷ 3 ∷ []; capacity = 3; storage = 0 }

Reach-overlap_example :
    ((s : Threads)
      → Reach three.objects 20 (λ n. n + n) (looking_up 20 three 2 0) s
      → AnswersAlone 20 three 0 s.vector s.server
        × (is_over (rounds 20 three 4 s.vector s.server) ≡ true))
    × ((p q : ℕ) (qs : List ℕ)
        → Reach three.objects 20
            (λ n. n + n)
            (begun (full 20 three q qs 0))
            (record {
              vector = push_back (λ n. n + n) p (full 20 three q qs 0);
              client = pushed;
              server = invalid;
            }))
Reach-overlap_example = Reach-overlap 20 three (λ n. n + n) 2 0
