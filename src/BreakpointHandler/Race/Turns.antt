-- ===== src/BreakpointHandler/Race/Turns.antt =====
-- InstallBreakpoint as turns of the client's thread.
use master_lib.Base.{ℕ, Bool, ◌==◌, if◌then◌else◌}
use master_lib.Breakpoint.{Breakpoint}
use master_lib.BreakpointHandler.Live.{Live}
use master_lib.BreakpointHandler.Race.{Vector, all_but_last, push_back}

-- The vector after InstallBreakpoint with that argument and that result.
abbrev left_by : (ℕ → ℕ) → (p : ℕ) → (done : Bool) → Vector → Vector
left_by grow p done v =
    if p == 0
    then v
    else if done
    then push_back grow p v
    else record (push_back grow p v) { elements = all_but_last (push_back grow p v).elements }
