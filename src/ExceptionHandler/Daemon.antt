-- ===== src/ExceptionHandler/Daemon.antt =====
-- src/exception_handler.cc: server_thread, which runs mach_exc_server of src/mach_excServer.c with the
-- functions catch_mach_exception_raise* of this file.
pub mod Dispatch
pub mod Loop
pub mod Counts
pub mod Alive
pub mod Answers
pub mod Raised
pub mod Refused
use master_lib.Base.{ℕ, zero, suc, ◌≤◌, ◌<◌, ◌≡◌, Bool, false, List, [], ◌∷◌, ◌++◌, ◌==◌}
use master_lib.Base.Run.{Run, ok, fault, Cmd}
use master_lib.Host.{Target}
use master_lib.Mach.{Kernel, kern_failure}
use master_lib.ThreadState.{ThreadState}
use master_lib.MachExc.Message.{Message, word}
use master_lib.MachExc.Server.{Callbacks, StateReply, mach_exc_server}
use master_lib.ExceptionHandler.{
  Session, catch_mach_exception_raise, catch_mach_exception_raise_state,
  catch_mach_exception_raise_state_identity,
}

-- The process of the debugger: alive with its handlers, or past undefined behaviour.
pub data Life (W : Type 0) : Type 0 where
  alive : Session W → Life W
  crashed : Life W

-- The second argument of mach_msg_server_once's function: the request; its result is the Boolean,
-- the reply and the new state.
abbrev pub Demux : Type 0 → Type 0
Demux L = Message → L → Bool × Message × L

-- mach_msg_server_once(demux, max_size, port, 0): the status.
pub record Receiver (S L : Type 0) : Type 0 where
  pub mach_msg_server_once : Demux L → (max_size port : ℕ) → S → ℕ × S

-- MIG_NO_REPLY, -305 as a word
abbrev pub mig_no_reply : ℕ
mig_no_reply = 4294966991

abbrev pub IsAlive : {W : Type 0} → Life W → Type 0
IsAlive (alive s) = Unit {0}
IsAlive crashed = ⊥

-- Documented behaviour of mach_msg_server_once on one port, while no other thread of the debugger
-- runs, over what can be seen of the system: the state `life` of the process, the messages that wait
-- at the port and those that have been sent, and the messages that come in during the round. It
-- receives a message of at most `max_size` bytes, calls the function on it, and sends the reply, where
-- the function returns, and does not say MIG_NO_REPLY. It discards a longer message.
pub record Served {S W : Type 0} (receiver : Receiver S (Life W)) (port : ℕ) : Type 0 where
  pub life : S → Life W
  pub inbox : S → List Message
  pub outbox : S → List Message
  pub arrivals : S → List Message
  pub idle :
      (demux : Demux (Life W)) (size : ℕ) (s : S)
      → inbox s ≡ []
      → life (receiver.mach_msg_server_once demux size port s).1 ≡ life s
  pub discarded :
      (demux : Demux (Life W)) (size : ℕ) (s : S) (m : Message) (rest : List Message)
      → inbox s ≡ m ∷ rest
      → size < m.head.size
      → life (receiver.mach_msg_server_once demux size port s).1 ≡ life s
  pub called :
      (demux : Demux (Life W)) (size : ℕ) (s : S) (m : Message) (rest : List Message)
      → inbox s ≡ m ∷ rest
      → m.head.size ≤ size
      → life (receiver.mach_msg_server_once demux size port s).1 ≡ (demux m (life s)).2
  pub taken :
      (demux : Demux (Life W)) (size : ℕ) (s : S) (m : Message) (rest : List Message)
      → inbox s ≡ m ∷ rest
      → inbox (receiver.mach_msg_server_once demux size port s).1 ≡ rest ++ arrivals s
  pub replied :
      (demux : Demux (Life W)) (size : ℕ) (s : S) (m : Message) (rest : List Message)
      → inbox s ≡ m ∷ rest
      → m.head.size ≤ size
      → IsAlive (demux m (life s)).2
      → (word (demux m (life s)).1 2 == mig_no_reply) ≡ false
      → outbox (receiver.mach_msg_server_once demux size port s).1
        ≡ outbox s ++ (demux m (life s)).1 ∷ []

-- What a function of the library that returns kern_return_t does to the process. Nothing is returned
-- after undefined behaviour: the status that stands there says nothing.
abbrev pub run_on : {W : Type 0} → Cmd (Session W) ℕ → Life W → ℕ × Life W
run_on m crashed = (kern_failure, crashed)
run_on m (alive s) = elim (m s) [ ok a s' ↦ (a, alive s') | fault ↦ (kern_failure, crashed) ]

-- A callback that writes nothing through its pointers: the flavor and the count stay those that the
-- server has put there.
abbrev pub untouched : (flavor capacity status : ℕ) → StateReply
untouched flavor capacity status = record {
  status = status;
  flavor = flavor;
  new_state = [];
  new_state_count = capacity;
}

module _ {W : Type 0} (k : Kernel W) (t : Target)
    (invoke : ℕ → ThreadState → Cmd (Session W) ThreadState) where
  -- The functions of src/exception_handler.cc in the places of the server's callbacks.
  unfoldable pub session_callbacks : Callbacks (Life W)
  session_callbacks = record {
    catch_raise = λ port thread task kind code n.
        run_on (catch_mach_exception_raise k t invoke port thread task kind code n);
    catch_raise_state = λ port kind code n flavor old m capacity l.
        let (status, l') = run_on (catch_mach_exception_raise_state k t invoke) l in
        (untouched flavor capacity status, l');
    catch_raise_state_identity = λ port thread task kind code n flavor old m capacity l.
        let (status, l') = run_on (catch_mach_exception_raise_state_identity k t invoke) l in
        (untouched flavor capacity status, l');
  }

  -- The body of `while (1)`, whose error is only printed.
  unfoldable pub server_round : {S : Type 0} → ℕ × ℕ → Receiver S (Life W) → (port : ℕ) → S → S
  unfolding session_callbacks
  server_round ndr receiver port s =
      (receiver.mach_msg_server_once (mach_exc_server ndr session_callbacks) 4096 port s).1

  -- The loop never ends: the state after so many of its rounds.
  unfoldable pub server_thread :
      {S : Type 0} → ℕ × ℕ → Receiver S (Life W) → (port rounds : ℕ) → S → S
  unfolding server_round
  server_thread ndr receiver port zero s = s
  server_thread ndr receiver port (suc n) s =
      server_thread ndr receiver port n (server_round ndr receiver port s)
