-- ===== src/MachExc/Rpc/Raise.antt =====
-- A call of mach_exception_raise.
use master_lib.Base.{
  ℕ, zero, suc, ◌≤◌, ◌≡◌, refl, List, [], ◌∷◌, arith, ◌+◌, ltb, true, false, ◌∙◌, Bool-cases, inl,
  inr, ◌==◌,
}
use master_lib.MachExc.Message.{Message, take_words, raise_reply_room}
use master_lib.MachExc.Server.{
  Callbacks, mach_exc_server, routine, serve_raise, reply_header, code_reply, check_request_raise,
  check_raise_count, bad_descriptor,
}
use master_lib.MachExc.Client.{
  Transport, mach_exception_raise, raise_words, port_words, request_head, check_reply_raise,
  check_id,
}
use master_lib.MachExc.Words.{split_code, Fits64}
use master_lib.MachExc.Rpc.{delivered, Connected}

module _ {W : Type 0} (t : Transport W) (callbacks : Callbacks W) (translate : ℕ → ℕ)
    (connected : Connected t callbacks translate) where
  -- The request as it arrives, with those words and that size.
  abbrev request : (port reply_port : ℕ) → List ℕ → (size : ℕ) → Message
  request port reply_port words size =
      delivered translate (record { head = request_head true port reply_port 2405; words = words })
        size

  -- The reply to such a request fits in the room of the stub.
  reply-fits :
      (port reply_port : ℕ) (words : List ℕ) (size : ℕ) (w : W)
      → ltb raise_reply_room
          ((mach_exc_server t.ndr callbacks (request port reply_port words size) w).1.head.size + 8)
        ≡ false
  unfolding request_head mach_exc_server routine serve_raise code_reply reply_header
  reply-fits port reply_port words size w =
      elim (Bool-cases (check_request_raise (request port reply_port words size) == 0)) [
        | inl good ↦ rw good refl
        | inr bad ↦ rw bad refl
      ]

  sent_status :
      (port reply_port : ℕ) (words : List ℕ) (size : ℕ) (w : W)
      → (t.mach_msg
          (record { head = request_head true port reply_port 2405; words = words })
          size
          raise_reply_room
          w).0
        ≡ 0
  sent_status port reply_port words size w =
      connected.status _ size raise_reply_room w ∙ rw (reply-fits port reply_port words size w) refl

  sent_reply :
      (port reply_port : ℕ) (words : List ℕ) (size : ℕ) (w : W)
      → (t.mach_msg
          (record { head = request_head true port reply_port 2405; words = words })
          size
          raise_reply_room
          w).1
        ≡ (mach_exc_server t.ndr callbacks (request port reply_port words size) w).1
  sent_reply port reply_port words size w =
      connected.reply _ size raise_reply_room w (reply-fits port reply_port words size w)

  -- Where the message reaches the server, `mach_exception_raise` with at most two 64-bit codes is the
  -- call of `catch_mach_exception_raise` with the same exception, the same codes and the server's
  -- names of the three ports: both return the callback's status and end in its state.
  pub mach_exception_raise-catch :
      (port thread task kind : ℕ) (code : List ℕ) (code_count : ℕ) (w : W)
      → code_count ≤ 2
      → Fits64 code
      → mach_exception_raise t port thread task kind code code_count w
        ≡ callbacks.catch_raise
            (translate port)
            (translate thread)
            (translate task)
            kind
            (take_words code_count code)
            code_count
            (t.mig_get_reply_port w).1
  unfolding mach_exception_raise request_head raise_words port_words check_reply_raise check_id
      mach_exc_server routine serve_raise check_request_raise bad_descriptor check_raise_count
      code_reply reply_header
  mach_exception_raise-catch port thread task kind code zero w few fits =
      rw (sent_status, sent_reply, connected.state) refl
  mach_exception_raise-catch port thread task kind [] (suc zero) w few fits =
      rw (sent_status, sent_reply, connected.state) refl
  mach_exception_raise-catch port thread task kind (c ∷ code) (suc zero) w few fits =
      rw (sent_status, sent_reply, connected.state, split_code c fits.0) refl
  mach_exception_raise-catch port thread task kind [] (suc (suc zero)) w few fits =
      rw (sent_status, sent_reply, connected.state) refl
  mach_exception_raise-catch port thread task kind (c ∷ []) (suc (suc zero)) w few fits =
      rw (sent_status, sent_reply, connected.state, split_code c fits.0) refl
  mach_exception_raise-catch port thread task kind (c ∷ d ∷ code) (suc (suc zero)) w few fits =
      rw (sent_status, sent_reply, connected.state, split_code c fits.0, split_code d fits.1.0) refl
  mach_exception_raise-catch port thread task kind code (suc (suc (suc n))) w few fits =
      absurd (omega arith)
