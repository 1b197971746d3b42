-- ===== src/ExceptionHandler/Daemon/Dispatch.antt =====
-- mach_exc_server with the functions of src/exception_handler.cc: which call of ExceptionCallback a
-- message becomes, and what is replied.
use master_lib.Base.{
  ℕ, zero, suc, ◌-◌, ◌*◌, ◌≡◌, refl, ◌⊎◌, inl, inr, true, false, List, [], ◌∷◌, ◌++◌, ◌==◌, ltb,
  ◌||◌, Bool-cases, arith,
}
use master_lib.Base.Run.{Run, ok, fault, Cmd, Ends}
use master_lib.Host.{Target}
use master_lib.Mach.{Kernel}
use master_lib.ThreadState.{ThreadState}
use master_lib.MachExc.Message.{
  Header, Message, word, take_words, drop_words, join_codes, mig_type_error, mig_bad_id,
  mig_bad_arguments,
}
use master_lib.MachExc.Server.{
  Callbacks, mach_exc_server, routine, serve_raise, serve_state, serve_identity, reply_header,
  code_reply, state_reply, check_request_raise, check_request_state, check_request_identity,
  check_counts, check_old_state, check_raise_count,
}
use master_lib.ExceptionHandler.{
  Exception, Session, exception_callback, catch_mach_exception_raise,
  catch_mach_exception_raise_state, catch_mach_exception_raise_state_identity,
}
use master_lib.ExceptionHandler.History.{KeepsHistory, exception_callback-IsAnswer, IsAnswer}
use master_lib.ExceptionHandler.Daemon.{Life, alive, crashed, run_on, session_callbacks}

-- The exception that a request to mach_exception_raise describes.
abbrev pub exception_of : Message → Exception
exception_of m = record {
  exception_port = m.head.local_port;
  thread = word m 1;
  task = word m 4;
  kind = word m 9;
  code = join_codes (take_words (2 * word m 10) (drop_words 11 m.words));
  code_count = word m 10;
}

module _ {W : Type 0} (k : Kernel W) (t : Target)
    (invoke : ℕ → ThreadState → Cmd (Session W) ThreadState) (ndr : ℕ × ℕ) where
  abbrev callbacks : Callbacks (Life W)
  callbacks = session_callbacks k t invoke

  -- The reply and the process that a run of `ExceptionCallback` leads to: its answer and its state,
  -- or a crash.
  abbrev pub Became : Header → Message → Life W → Run (Session W) ℕ → Type 0
  Became head reply l (ok answer s') =
      (reply ≡ code_reply ndr callbacks head answer) × (l ≡ alive s')
  Became head reply l fault = l ≡ crashed

  serve_raise-Became :
      (m : Message) (head : Header) (s : Session W)
      → check_request_raise m ≡ 0
      → Became head
          (serve_raise ndr callbacks m head (alive s)).0
          (serve_raise ndr callbacks m head (alive s)).1
          (exception_callback k t invoke (exception_of m) s)
  unfolding serve_raise session_callbacks catch_mach_exception_raise
  serve_raise-Became m head s accepted =
      rw accepted (became (exception_callback k t invoke (exception_of m) s))
    where
      became :
          (r : Run (Session W) ℕ)
          → Became head
              (code_reply ndr callbacks head (run_on (λ _. r) (alive s)).0)
              (run_on (λ _. r) (alive s)).1
              r
      became (ok a s') = (refl, refl)
      became fault = refl

  dispatched :
      (m : Message) (l : Life W)
      → m.head.id ≡ 2405
      → mach_exc_server ndr callbacks m l ≡ (
          let (reply, l') = serve_raise ndr callbacks m (reply_header ndr callbacks m.head) l in
          (true, reply, l'))
  unfolding mach_exc_server routine
  dispatched m l id =
      let inside : (ltb 2407 m.head.id || ltb m.head.id 2405) ≡ false = ground arith in
      let first : m.head.id - 2405 ≡ 0 = omega arith in rw (inside, first) refl

  -- A request to mach_exception_raise that the check accepts becomes the call of `ExceptionCallback`
  -- with the ports, the kind and the codes of the message: where that returns, its answer is the code
  -- of the reply and its state the new one, and else the process has crashed.
  pub mach_exc_server-exception_callback :
      (m : Message) (s : Session W)
      → m.head.id ≡ 2405
      → check_request_raise m ≡ 0
      → Became
          (reply_header ndr callbacks m.head)
          (mach_exc_server ndr callbacks m (alive s)).1
          (mach_exc_server ndr callbacks m (alive s)).2
          (exception_callback k t invoke (exception_of m) s)
  mach_exc_server-exception_callback m s id accepted =
      rw (dispatched m (alive s) id) (serve_raise-Became m _ s accepted)

  -- The codes that a reply can carry: an error of the checks, or an answer of the handler.
  abbrev pub IsCode : ℕ → Type 0
  IsCode c = (c ≡ mig_bad_id) ⊎ ((c ≡ mig_bad_arguments) ⊎ ((c ≡ mig_type_error) ⊎ IsAnswer c))

  -- A reply of 36 bytes with one of the codes.
  abbrev pub IsPlain : Message → Message → Type 0
  IsPlain m reply = (reply.head ≡ reply_header ndr callbacks m.head) × IsCode (word reply 2)

  check_request_raise-IsCode :
      (m : Message) → (check_request_raise m ≡ 0) ⊎ IsCode (check_request_raise m)
  unfolding check_request_raise check_raise_count
  check_request_raise-IsCode m = ground arith

  check_request_state-IsCode :
      (m : Message) → (check_request_state m ≡ 0) ⊎ IsCode (check_request_state m)
  unfolding check_request_state check_counts check_old_state
  check_request_state-IsCode m = ground arith

  check_request_identity-IsCode :
      (m : Message) → (check_request_identity m ≡ 0) ⊎ IsCode (check_request_identity m)
  unfolding check_request_identity check_counts check_old_state
  check_request_identity-IsCode m = ground arith

  refused-IsCode : (c : ℕ) → (c ≡ 0) ⊎ IsCode c → (c == 0) ≡ false → IsCode c
  refused-IsCode c h e = ground arith

  run_on-IsAnswer :
      (m : Cmd (Session W) ℕ) (history : Session W → List Exception)
      → ((s : Session W) → Ends (λ a s'. IsAnswer a × (s'.history ≡ history s)) (m s))
      → (l : Life W) → IsAnswer (run_on m l).0
  run_on-IsAnswer m history h crashed = inr refl
  run_on-IsAnswer m history h (alive s) = answered (m s) (h s)
    where
      answered :
          (r : Run (Session W) ℕ)
          → Ends (λ a s'. IsAnswer a × (s'.history ≡ history s)) r
          → IsAnswer (run_on (λ _. r) (alive s)).0
      answered (ok a s') h = h.0
      answered fault h = inr refl

  module _ (client : KeepsHistory invoke) where
    serve_raise-IsPlain :
        (m : Message) (l : Life W)
        → IsPlain m (serve_raise ndr callbacks m (reply_header ndr callbacks m.head) l).0
    unfolding serve_raise code_reply session_callbacks catch_mach_exception_raise
    serve_raise-IsPlain m l = elim (Bool-cases (check_request_raise m == 0)) [
      | inl good ↦ rw good (
        refl,
        inr (
            inr (
              inr (
                run_on-IsAnswer _ (λ s. s.history ++ exception_of m ∷ [])
                  (λ s. exception_callback-IsAnswer k t invoke client (exception_of m) s) l))),
      )
      | inr bad ↦ rw bad (refl, refused-IsCode _ (check_request_raise-IsCode m) bad)
    ]

    serve_state-IsPlain :
        (m : Message) (l : Life W)
        → IsPlain m (serve_state ndr callbacks m (reply_header ndr callbacks m.head) l).0
    unfolding serve_state state_reply code_reply session_callbacks catch_mach_exception_raise_state
    serve_state-IsPlain m (alive s) = elim (Bool-cases (check_request_state m == 0)) [
      | inl good ↦ rw good (refl, inr (inr (inr (inr refl))))
      | inr bad ↦ rw bad (refl, refused-IsCode _ (check_request_state-IsCode m) bad)
    ]
    serve_state-IsPlain m crashed = elim (Bool-cases (check_request_state m == 0)) [
      | inl good ↦ rw good (refl, inr (inr (inr (inr refl))))
      | inr bad ↦ rw bad (refl, refused-IsCode _ (check_request_state-IsCode m) bad)
    ]

    serve_identity-IsPlain :
        (m : Message) (l : Life W)
        → IsPlain m (serve_identity ndr callbacks m (reply_header ndr callbacks m.head) l).0
    unfolding serve_identity state_reply code_reply session_callbacks
        catch_mach_exception_raise_state_identity
    serve_identity-IsPlain m (alive s) = elim (Bool-cases (check_request_identity m == 0)) [
      | inl good ↦ rw good (refl, inr (inr (inr (inr refl))))
      | inr bad ↦ rw bad (refl, refused-IsCode _ (check_request_identity-IsCode m) bad)
    ]
    serve_identity-IsPlain m crashed = elim (Bool-cases (check_request_identity m == 0)) [
      | inl good ↦ rw good (refl, inr (inr (inr (inr refl))))
      | inr bad ↦ rw bad (refl, refused-IsCode _ (check_request_identity-IsCode m) bad)
    ]

    routine-IsPlain :
        (i : ℕ) (m : Message) (l : Life W)
        → IsPlain m (routine ndr callbacks i m (reply_header ndr callbacks m.head) l).0
    unfolding routine
    routine-IsPlain zero m l = serve_raise-IsPlain m l
    routine-IsPlain (suc zero) m l = serve_state-IsPlain m l
    routine-IsPlain (suc (suc i)) m l = serve_identity-IsPlain m l

    -- Whatever message it is given, `mach_exc_server` replies with 36 bytes, an id that is higher by
    -- 100, to the port that the message names, and with a code that is an answer of the handler or
    -- an error of the checks, so never MIG_NO_REPLY.
    pub mach_exc_server-IsPlain :
        (m : Message) (l : Life W) → IsPlain m (mach_exc_server ndr callbacks m l).1
    unfolding mach_exc_server code_reply
    mach_exc_server-IsPlain m l = elim (Bool-cases (ltb 2407 m.head.id || ltb m.head.id 2405)) [
      | inl other ↦ rw other (refl, inl refl)
      | inr mine ↦ rw mine (routine-IsPlain (m.head.id - 2405) m l)
    ]
