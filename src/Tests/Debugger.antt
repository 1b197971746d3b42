-- ===== src/Tests/Debugger.antt =====
-- A run of the debugger: the client installs null, an access to bad memory comes in, and the process
-- goes on; then a breakpoint is hit.
use master_lib.Base.{[], ◌∷◌}
use master_lib.ExceptionHandler.{Exception, Session}
use master_lib.Tests.Machine.{Machine, machine, start}
use master_lib.Tests.Exceptions.{trap, session}

abbrev bad_access : Exception
bad_access = record trap { kind = 1 }

abbrev suspended : Machine
suspended = machine.thread_suspend 5 start

abbrev recorded : Session Machine
recorded = record {
  handler = record session.handler { world = suspended };
  history = bad_access ∷ [];
}

-- The process has been killed.
abbrev later : Session Machine
later = record recorded {
  handler = record session.handler { world = record suspended { memory = λ u x. 0 } };
}
