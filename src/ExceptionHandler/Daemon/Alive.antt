-- ===== src/ExceptionHandler/Daemon/Alive.antt =====
-- server_thread and the pointers of the handlers.
use master_lib.Base.Run.{Run}
use master_lib.ThreadState.{ThreadState}
use master_lib.ExceptionHandler.Safety.{IsReady}
use master_lib.ExceptionHandler.Daemon.{Life, alive, crashed}

-- The process is alive, and the pointers of its breakpoint handler are live.
abbrev pub IsSafe : {W : Type 0} → Life W → Type 0
IsSafe (alive s) = IsReady s
IsSafe crashed = ⊥
