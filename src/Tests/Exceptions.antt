-- ===== src/Tests/Exceptions.antt =====
-- Runs of the exception handler.
use master_lib.MachExc.Server.{mach_exc_server}
use master_lib.MachExc.Client.{
  Transport, StateOut, mach_exception_raise, mach_exception_raise_state,
  mach_exception_raise_state_identity,
}
use master_lib.ExceptionHandler.Daemon.Refused.{mach_exception_raise_state-refused}
use master_lib.MachExc.Rpc.{delivered, Connected}
use master_lib.ExceptionHandler.Daemon.{Life, alive, session_callbacks}
use master_lib.ExceptionHandler.Daemon.Raised.{raised, mach_exception_raise-verdict}
use master_lib.MachExc.Message.{mach_rcv_too_large}
use master_lib.Base.{
  ltb, ◌+◌, arith, ℕ, ◌≡◌, refl, true, [], ◌∷◌, Option, none, some, ◌==◌, if◌then◌else◌,
}
use master_lib.Base.Run.{ok, Cmd}
use master_lib.Host.{arm}
use master_lib.ThreadState.{ThreadState}
use master_lib.ExceptionHandler.{Exception, Session, exception_thread_state, exception_callback}
use master_lib.ExceptionHandler.Balance.{At, exception_callback-At}
use master_lib.ExceptionHandler.Verdict.{verdict}
use master_lib.Process.Listing.{process_exists, list_pids}
use master_lib.Tests.Memory.{on_x64}
use master_lib.Tests.Machine.{Machine, machine, start, machine-SuspendLaws}
use master_lib.Tests.Handlers.{three}

abbrev pub trap : Exception
trap = record { exception_port = 1; thread = 5; task = 107; kind = 6; code = []; code_count = 0 }

abbrev pub session : Session Machine
session = record { handler = three; history = [] }

-- A client whose callback changes nothing.
abbrev pub idle : ℕ → ThreadState → Cmd (Session Machine) ThreadState
idle callback st s = ok st s

exception_callback-At_example :
    At (λ w. w.suspends 5) 0 (exception_callback machine arm idle trap session)
exception_callback-At_example =
    exception_callback-At machine arm (λ w. w.suspends) machine-SuspendLaws trap idle
      (λ cb st s u. refl) session 5 refl

pub listing_stable :
    (pid : ℕ) (w : Machine)
    → (process_exists machine pid w).0 ≡ true
    → (process_exists machine pid (process_exists machine pid w).1).0 ≡ true
unfolding process_exists list_pids
listing_stable pid w h = h

-- A breakpoint at the address 0, where the machine's threads are.
abbrev at_zero : Session Machine
at_zero = record session {
  handler = record session.handler {
    objects = λ p. if p == 1 then some (record on_x64 { address = 0; active = true }) else none;
    breakpoints = 1 ∷ [];
  };
}

-- Ports have the next name in the debugger.
abbrev pub next : ℕ → ℕ
next p = p + 1

abbrev pub net : Transport (Life Machine)
net = record {
  ndr = (0, 1);
  mig_get_reply_port = λ l. (77, l);
  mig_put_reply_port = λ p l. l;
  mig_dealloc_reply_port = λ p l. l;
  mach_msg = λ m size room l.
      let (_, reply, l') =
        mach_exc_server (0, 1) (session_callbacks machine arm idle) (delivered next m size) l in
      (if ltb room (reply.head.size + 8) then mach_rcv_too_large else 0, reply, l');
}

abbrev pub net-Connected : Connected net (session_callbacks machine arm idle) next
net-Connected = record {
  status = λ m size room w. refl;
  reply = λ m size room w fits. refl;
  state = λ m size room w. refl;
}

mach_exception_raise-verdict_example :
    (o : Option ThreadState) × (w : Machine) × (exception_thread_state machine arm
        (raised next 11 4 106 6 (1 ∷ 20 ∷ []) 2)
        (machine.thread_suspend 5 start)
      ≡ ok o w)
    × (s' : Session Machine) × (mach_exception_raise net 11 4 106 6 (1 ∷ 20 ∷ []) 2 (alive at_zero)
        ≡ (
          verdict (raised next 11 4 106 6 (1 ∷ 20 ∷ []) 2) o at_zero.handler.objects (1 ∷ []),
          alive s',
        ))
mach_exception_raise-verdict_example =
    mach_exception_raise-verdict machine arm listing_stable refl idle
      (λ cb st s p h found. (h, found)) net next net-Connected 11 4 106 6 (1 ∷ 20 ∷ []) 2 at_zero
      (omega arith) (omega arith, (omega arith, tt)) refl ((_, refl), tt) refl

abbrev old_out : StateOut
old_out = record { flavor = 1; new_state = 4 ∷ []; new_state_count = 1 }

mach_exception_raise_state-refused_example :
    (mach_exception_raise_state net 11 6 (1 ∷ 20 ∷ []) 2 (8 ∷ 9 ∷ []) 2 old_out (alive at_zero)
      ≡ (5, old_out, alive at_zero))
    × (mach_exception_raise_state_identity net 11 4 106 6
          (1 ∷ 20 ∷ [])
          2
          (8 ∷ 9 ∷ [])
          2
          old_out
          (alive at_zero)
        ≡ (5, old_out, alive at_zero))
mach_exception_raise_state-refused_example =
    mach_exception_raise_state-refused machine arm idle net next net-Connected 11 4 106 6
      (1 ∷ 20 ∷ []) 2 (8 ∷ 9 ∷ []) 2 old_out at_zero (omega arith, (omega arith, tt)) refl
