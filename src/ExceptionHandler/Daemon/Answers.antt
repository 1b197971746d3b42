-- ===== src/ExceptionHandler/Daemon/Answers.antt =====
-- The replies that server_thread sends.
use master_lib.Base.{
  ℕ, ◌≤◌, ◌≡◌, refl, ◌∙◌, sym, ap, false, List, [], ◌∷◌, ◌++◌, arith, length, ◌==◌,
}
use mathlib.Core.List.{append_assoc, append-nil}
use mathlib.Core.Path.{subst}
use master_lib.Host.{Target}
use master_lib.Mach.{Kernel}
use master_lib.Base.Run.{Cmd}
use master_lib.ThreadState.{ThreadState}
use master_lib.MachExc.Message.{Header, Message, word}
use master_lib.MachExc.Server.{Callbacks, mach_exc_server, reply_header}
use master_lib.MachExc.Preserve.{Preserving, mach_exc_server-Preserved}
use master_lib.ExceptionHandler.{Session}
use master_lib.ExceptionHandler.History.{KeepsHistory}
use master_lib.ExceptionHandler.Daemon.{
  Life, alive, crashed, IsAlive, Receiver, Served, session_callbacks, mig_no_reply, server_round,
  server_thread,
}
use master_lib.ExceptionHandler.Daemon.Dispatch.{mach_exc_server-IsPlain}

abbrev AllFit : List Message → Type 0
AllFit [] = Unit {0}
AllFit (m ∷ ms) = (m.head.size ≤ 4096) × AllFit ms

module _ {W : Type 0} (k : Kernel W) (t : Target)
    (invoke : ℕ → ThreadState → Cmd (Session W) ThreadState) (client : KeepsHistory invoke)
    (ndr : ℕ × ℕ) where
  abbrev callbacks : Callbacks (Life W)
  callbacks = session_callbacks k t invoke

  callbacks-crashed : Preserving callbacks (λ l. l ≡ crashed)
  unfolding session_callbacks
  callbacks-crashed = record {
    raise = λ port thread task kind code n s h. rw h refl;
    raise_state = λ port kind code n flavor old m capacity s h. rw h refl;
    raise_identity = λ port thread task kind code n flavor old m capacity s h. rw h refl;
  }

  -- The process after the messages, one after the other.
  abbrev pub after : List Message → Life W → Life W
  after [] l = l
  after (m ∷ ms) l = after ms (mach_exc_server ndr callbacks m l).2

  after-crashed : (ms : List Message) → after ms crashed ≡ crashed
  after-crashed [] = refl
  after-crashed (m ∷ ms) =
      rw (mach_exc_server-Preserved ndr callbacks _ callbacks-crashed m crashed refl)
        (after-crashed ms)

  after-IsAlive : (ms : List Message) (l : Life W) → IsAlive (after ms l) → IsAlive l
  after-IsAlive ms (alive s) h = tt
  after-IsAlive ms crashed h = absurd (nothing (after ms crashed) (after-crashed ms) h)
    where
      nothing : (l : Life W) → l ≡ crashed → IsAlive l → ⊥
      nothing l e h = subst IsAlive e h

  -- The headers of messages, and of the replies to them.
  abbrev pub heads : List Message → List Header
  heads [] = []
  heads (m ∷ ms) = m.head ∷ heads ms

  abbrev pub reply_heads : List Message → List Header
  reply_heads [] = []
  reply_heads (m ∷ ms) = reply_header ndr callbacks m.head ∷ reply_heads ms

  heads-append : (ms ns : List Message) → heads (ms ++ ns) ≡ heads ms ++ heads ns
  heads-append [] ns = refl
  heads-append (m ∷ ms) ns = ap (λ hs. m.head ∷ hs) (heads-append ms ns)

  no_reply-refused :
      (m : Message) (l : Life W)
      → (word (mach_exc_server ndr callbacks m l).1 2 == mig_no_reply) ≡ false
  no_reply-refused m l =
      let plain = (mach_exc_server-IsPlain k t invoke ndr client m l).1 in ground (arith, plain)

  module _ {S : Type 0} (receiver : Receiver S (Life W)) (port : ℕ)
      (box : Served receiver port) where
    -- A message that waits at the port is answered: after as many rounds of `server_thread` as
    -- messages wait, none of them longer than 4096 bytes, each of them has been handed to
    -- `mach_exc_server`, in their order, and one reply for each has been sent, in the same order, to
    -- the port that the message names and with its id and 100 more, if the process is then alive and
    -- the client's callbacks keep the history.
    pub server_thread-answers :
        (ms rest : List Message) (s : S)
        → box.inbox s ≡ ms ++ rest
        → AllFit ms
        → IsAlive (after ms (box.life s))
        → (box.life (server_thread k t invoke ndr receiver port (length ms) s)
            ≡ after ms (box.life s))
          × (heads (box.outbox (server_thread k t invoke ndr receiver port (length ms) s))
              ≡ heads (box.outbox s) ++ reply_heads ms)
    unfolding server_thread server_round
    server_thread-answers [] rest s h fit live = (refl, sym (append-nil _))
    server_thread-answers (m ∷ ms) rest s h fit live =
        let demux = mach_exc_server ndr callbacks in
        let s1 = (receiver.mach_msg_server_once demux 4096 port s).1 in
        let lives = box.called demux 4096 s m (ms ++ rest) h fit.0 in
        let sent =
          box.replied demux 4096 s m (ms ++ rest) h fit.0 (after-IsAlive ms _ live)
            (no_reply-refused m (box.life s)) in
        let (life, out) =
          server_thread-answers ms (rest ++ box.arrivals s) s1
            (box.taken demux 4096 s m (ms ++ rest) h ∙ append_assoc ms rest (box.arrivals s)) fit.1
            (subst (λ l. IsAlive (after ms l)) (sym lives) live) in
        (
          life ∙ ap (after ms) lives,
          out
              ∙ ap (λ hs. hs ++ reply_heads ms) (ap heads sent ∙ heads-append (box.outbox s) _)
              ∙ append_assoc (heads (box.outbox s)) _ (reply_heads ms)
              ∙ ap (λ head. heads (box.outbox s) ++ head ∷ reply_heads ms)
                  (mach_exc_server-IsPlain k t invoke ndr client m (box.life s)).0,
        )
