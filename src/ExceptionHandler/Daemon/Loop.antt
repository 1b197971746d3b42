-- ===== src/ExceptionHandler/Daemon/Loop.antt =====
-- What ExceptionCallback preserves, server_thread preserves.
use mathlib.Core.Path.{subst}
use master_lib.Base.{ℕ, zero, suc, ◌≡◌, refl, sym, inl, inr, List, [], ◌∷◌, arith, ltb, Bool-cases}
use master_lib.Base.Run.{Cmd}
use master_lib.Host.{Target}
use master_lib.Mach.{Kernel}
use master_lib.ThreadState.{ThreadState}
use master_lib.MachExc.Message.{Message}
use master_lib.MachExc.Preserve.{Preserving, mach_exc_server-Preserved}
use master_lib.ExceptionHandler.{
  Exception, Session, exception_callback, catch_mach_exception_raise,
  catch_mach_exception_raise_state, catch_mach_exception_raise_state_identity,
}
use master_lib.ExceptionHandler.Daemon.{
  Life, alive, crashed, run_on, Receiver, Served, session_callbacks, server_round, server_thread,
}

module _ {W : Type 0} (k : Kernel W) (t : Target)
    (invoke : ℕ → ThreadState → Cmd (Session W) ThreadState) (P : Life W → Type 0)
    (keeps : (e : Exception) (s : Session W)
      → P (alive s)
      → P (run_on (exception_callback k t invoke e) (alive s)).1) where
  raise-Preserved :
      (e : Exception) (l : Life W) → P l → P (run_on (exception_callback k t invoke e) l).1
  raise-Preserved e (alive s) h = keeps e s h
  raise-Preserved e crashed h = h

  state-Preserved :
      (l : Life W) → P l → P (run_on (catch_mach_exception_raise_state k t invoke) l).1
  unfolding catch_mach_exception_raise_state
  state-Preserved (alive s) h = h
  state-Preserved crashed h = h

  identity-Preserved :
      (l : Life W) → P l → P (run_on (catch_mach_exception_raise_state_identity k t invoke) l).1
  unfolding catch_mach_exception_raise_state_identity
  identity-Preserved (alive s) h = h
  identity-Preserved crashed h = h

  callbacks-Preserving : Preserving (session_callbacks k t invoke) P
  unfolding session_callbacks catch_mach_exception_raise
  callbacks-Preserving = record {
    raise = λ port thread task kind code n l h.
        raise-Preserved
          (record {
            exception_port = port;
            thread = thread;
            task = task;
            kind = kind;
            code = code;
            code_count = n;
          })
          l h;
    raise_state = λ port kind code n flavor old m capacity l h. state-Preserved l h;
    raise_identity =
        λ port thread task kind code n flavor old m capacity l h. identity-Preserved l h;
  }

  module _ {S : Type 0} (ndr : ℕ × ℕ) (receiver : Receiver S (Life W)) (port : ℕ)
      (box : Served receiver port) where
    server_round-Preserved :
        (s : S) → P (box.life s) → P (box.life (server_round k t invoke ndr receiver port s))
    unfolding server_round
    server_round-Preserved s h = cases (box.inbox s) refl
      where
        cases :
            (ms : List Message)
            → box.inbox s ≡ ms
            → P (box.life (server_round k t invoke ndr receiver port s))
        cases [] e = subst P (sym (box.idle _ 4096 s e)) h
        cases (m ∷ ms) e = elim (Bool-cases (ltb 4096 m.head.size)) [
          | inl long ↦ subst P (sym (box.discarded _ 4096 s m ms e (ground (arith, long)))) h
          | inr fits ↦ subst P (sym (box.called _ 4096 s m ms e (ground (arith, fits)))) (
              mach_exc_server-Preserved ndr (session_callbacks k t invoke) P callbacks-Preserving m
                (box.life s) h)
        ]

    pub server_thread-Preserved :
        (rounds : ℕ) (s : S)
        → P (box.life s)
        → P (box.life (server_thread k t invoke ndr receiver port rounds s))
    unfolding server_thread
    server_thread-Preserved zero s h = h
    server_thread-Preserved (suc n) s h =
        server_thread-Preserved n (server_round k t invoke ndr receiver port s)
          (server_round-Preserved s h)
