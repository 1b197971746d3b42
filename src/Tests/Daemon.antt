-- ===== src/Tests/Daemon.antt =====
-- Runs of SetupHandler and of server_thread, with a queue of messages.
use master_lib.Base.{
  ℕ, ◌≤◌, ◌<◌, ◌≡◌, refl, ◌∙◌, sym, Bool, true, false, not, ◌&&◌, ◌*◌, ◌^◌, List, [], ◌∷◌, ◌++◌,
  some, arith, ltb, ◌==◌, if◌then◌else◌,
}
use mathlib.Core.List.{append-nil}
use mathlib.Core.Path.{subst}
use master_lib.Host.{x86_64}
use master_lib.MachExc.Message.{Message, word}
use master_lib.MachExc.Server.{
  mach_exc_server, routine, serve_state, code_reply, state_reply, reply_header, check_request_raise,
  check_raise_count, bad_descriptor, check_request_state, check_counts, check_old_state,
}
use master_lib.ExceptionHandler.{Session, exception_callback, catch_mach_exception_raise_state}
use master_lib.ExceptionHandler.Outcome.{exception_callback-other}
use master_lib.ExceptionHandler.Setup.{setup_handler, setup_handler-registered}
use master_lib.ExceptionHandler.Daemon.{
  Life, alive, crashed, IsAlive, Demux, Receiver, Served, mig_no_reply, session_callbacks,
  server_thread,
}
use master_lib.ExceptionHandler.Daemon.Dispatch.{
  Became, exception_of, mach_exc_server-exception_callback,
}
use master_lib.ExceptionHandler.Daemon.Answers.{after, heads, server_thread-answers}
use master_lib.ExceptionHandler.Daemon.Counts.{LifeIsBalanced, server_thread-LifeIsBalanced}
use master_lib.Tests.Machine.{Machine, machine, start, ports, machine-SuspendLaws, ports-PortLaws}
use master_lib.Tests.Exceptions.{session, idle}
use master_lib.Tests.Messages.{state_message, raise_message}

record Net : Type 0 where
  life : Life Machine
  inbox : List Message
  outbox : List Message

abbrev lives : Life Machine → Bool
lives (alive s) = true
lives _ = false

abbrev round : Demux (Life Machine) → ℕ → List Message → Net → ℕ × Net
round demux size [] s = (1, s)
round demux size (m ∷ rest) s =
    if ltb size m.head.size
    then (1, record s { inbox = rest })
    else (let (handled, reply, l) = demux m s.life in
        (
          0,
          record s {
            life = l;
            inbox = rest;
            outbox =
                if lives l && not (word reply 2 == mig_no_reply)
                then s.outbox ++ reply ∷ []
                else s.outbox;
          },
        ))

abbrev net : Receiver Net (Life Machine)
net = record { mach_msg_server_once = λ demux size port s. round demux size s.inbox s }

round-called :
    (demux : Demux (Life Machine)) (size : ℕ) (s : Net) (m : Message) (rest : List Message)
    → m.head.size ≤ size
    → (round demux size (m ∷ rest) s).1.life ≡ (demux m s.life).2
round-called demux size s m rest h =
    let fits : ltb size m.head.size ≡ false = ground (arith, h) in rw fits refl

round-discarded :
    (demux : Demux (Life Machine)) (size : ℕ) (s : Net) (m : Message) (rest : List Message)
    → size < m.head.size
    → (round demux size (m ∷ rest) s).1.life ≡ s.life
round-discarded demux size s m rest h =
    let long : ltb size m.head.size ≡ true = ground (arith, h) in rw long refl

round-taken :
    (demux : Demux (Life Machine)) (size : ℕ) (s : Net) (m : Message) (rest : List Message)
    → (round demux size (m ∷ rest) s).1.inbox ≡ rest
round-taken demux size s m rest = ground arith

lives-IsAlive : (l : Life Machine) → IsAlive l → lives l ≡ true
lives-IsAlive (alive s) h = refl
lives-IsAlive crashed h = absurd h

round-replied :
    (demux : Demux (Life Machine)) (size : ℕ) (s : Net) (m : Message) (rest : List Message)
    → m.head.size ≤ size
    → IsAlive (demux m s.life).2
    → (word (demux m s.life).1 2 == mig_no_reply) ≡ false
    → (round demux size (m ∷ rest) s).1.outbox ≡ s.outbox ++ (demux m s.life).1 ∷ []
round-replied demux size s m rest h l r =
    let fits : ltb size m.head.size ≡ false = ground (arith, h) in
    rw (fits, lives-IsAlive (demux m s.life).2 l, r) refl

abbrev box : Served {S = Net} net 33
box = record {
  life = λ s. s.life;
  inbox = λ s. s.inbox;
  outbox = λ s. s.outbox;
  arrivals = λ s. [];
  idle = λ demux size s e. rw e refl;
  discarded = λ demux size s m rest e h. rw e (round-discarded demux size s m rest h);
  called = λ demux size s m rest e h. rw e (round-called demux size s m rest h);
  taken = λ demux size s m rest e. rw e (round-taken demux size s m rest ∙ sym (append-nil rest));
  replied = λ demux size s m rest e h l r. rw e (round-replied demux size s m rest h l r);
}

-- A request about an access to bad memory, in place of the breakpoint.
abbrev bad_message : Message
bad_message = record raise_message {
  words = 2 ∷ 5 ∷ 0 ∷ 17 * 2 ^ 16 ∷ 107 ∷ 0 ∷ 17 * 2 ^ 16 ∷ 0 ∷ 1 ∷ 1 ∷ 1 ∷ 20 ∷ 0 ∷ [];
}

abbrev waiting : Net
waiting = record { life = alive session; inbox = bad_message ∷ state_message ∷ []; outbox = [] }

server_thread-LifeIsBalanced_example :
    LifeIsBalanced machine x86_64
      (λ w. w.suspends)
      machine-SuspendLaws
      idle
      (λ cb st s. refl)
      (λ cb st s u. refl)
      (λ u. 0)
      (server_thread machine x86_64 idle (0, 1) net 33 2 waiting).life
server_thread-LifeIsBalanced_example =
    server_thread-LifeIsBalanced machine x86_64 (λ w. w.suspends) machine-SuspendLaws idle
      (λ cb st s. refl) (λ cb st s u. refl) (λ u. 0) (0, 1) net 33 box 2 waiting (λ u. refl)

bad_accepted : check_request_raise bad_message ≡ 0
unfolding check_request_raise check_raise_count bad_descriptor
bad_accepted = refl

abbrev suspended : Session Machine
suspended = record {
  handler = record session.handler { world = machine.thread_suspend 5 start };
  history = exception_of bad_message ∷ [];
}

bad_served :
    (mach_exc_server (0, 1) (session_callbacks machine x86_64 idle) bad_message (alive session)).2
    ≡ alive suspended
bad_served =
    (subst
      (λ r.
        Became machine x86_64 idle (0, 1)
          (reply_header (0, 1) (session_callbacks machine x86_64 idle) bad_message.head)
          (mach_exc_server (0, 1) (session_callbacks machine x86_64 idle) bad_message
            (alive session)).1
          (mach_exc_server (0, 1) (session_callbacks machine x86_64 idle) bad_message
            (alive session)).2
          r)
      (exception_callback-other machine x86_64 idle (exception_of bad_message) session refl)
      (mach_exc_server-exception_callback machine x86_64 idle (0, 1) bad_message session refl
        bad_accepted)).1

state_alive :
    IsAlive
      (mach_exc_server
        (0, 1)
        (session_callbacks machine x86_64 idle)
        state_message
        (alive suspended)).2
unfolding mach_exc_server routine serve_state state_reply code_reply reply_header
    check_request_state check_counts check_old_state catch_mach_exception_raise_state
    session_callbacks
state_alive = tt

both_alive : IsAlive (
    after machine x86_64 idle
      (λ cb st s. refl)
      (0, 1)
      (bad_message ∷ state_message ∷ [])
      (alive session))
both_alive =
    subst
      (λ l.
        IsAlive (mach_exc_server (0, 1) (session_callbacks machine x86_64 idle) state_message l).2)
      (sym bad_served) state_alive

server_thread-answers_example :
    (box.life (server_thread machine x86_64 idle (0, 1) net 33 2 waiting)
      ≡ after machine x86_64 idle
          (λ cb st s. refl)
          (0, 1)
          (bad_message ∷ state_message ∷ [])
          (alive session))
    × (heads machine x86_64 idle
          (λ cb st s. refl)
          (0, 1)
          (box.outbox (server_thread machine x86_64 idle (0, 1) net 33 2 waiting))
        ≡ reply_header (0, 1) (session_callbacks machine x86_64 idle) bad_message.head
          ∷ reply_header (0, 1) (session_callbacks machine x86_64 idle) state_message.head
          ∷ [])
server_thread-answers_example =
    server_thread-answers machine x86_64 idle (λ cb st s. refl) (0, 1) net 33 box
      (bad_message ∷ state_message ∷ []) [] waiting refl (omega arith, (omega arith, tt)) both_alive

setup_handler-registered_example :
    ((setup_handler machine ports start).2.exception_port 107 ≡ 33)
    × ((setup_handler machine ports start).0 ≡ true
        → (setup_handler machine ports start).1 ≡ some 33)
unfolding setup_handler
setup_handler-registered_example =
    setup_handler-registered machine ports (λ w. w.exception_port) ports-PortLaws start 107

mach_exc_server-exception_callback_example :
    Became machine x86_64 idle
      (0, 1)
      (reply_header (0, 1) (session_callbacks machine x86_64 idle) bad_message.head)
      (mach_exc_server (0, 1) (session_callbacks machine x86_64 idle) bad_message (alive session)).1
      (mach_exc_server (0, 1) (session_callbacks machine x86_64 idle) bad_message (alive session)).2
      (exception_callback machine x86_64 idle (exception_of bad_message) session)
mach_exc_server-exception_callback_example =
    mach_exc_server-exception_callback machine x86_64 idle (0, 1) bad_message session refl
      bad_accepted
