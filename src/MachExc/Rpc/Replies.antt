-- ===== src/MachExc/Rpc/Replies.antt =====
-- What the client stubs make of the server's replies.
use master_lib.Base.{
  ap, ◌∙◌, ◌&&◌, ◌+◌, ◌*◌, ◌%◌, ◌^◌, Bool, List, ℕ, not, ltb, Bool-cases, ◌||◌, ==_refl, not, ◌≤◌,
  ◌≡◌, refl, inl, inr, false, ◌++◌, arith, ◌==◌, if◌then◌else◌,
}
use master_lib.MachExc.Message.{
  Header, take_words, drop_words, mig_type_error, Message, mach_rcv_too_large, state_reply_room,
}
use master_lib.MachExc.Server.{Callbacks, mach_exc_server, StateReply, code_reply, state_reply}
use master_lib.MachExc.Client.{
  Transport, request_head, call_with, mach_msg_error, StateOut, check_id, check_reply_state,
  receive_state,
}
use master_lib.MachExc.Rpc.{delivered, Connected}
use master_lib.MachExc.Words.{take_words-take_words}

pub within :
    (code_count old_count : ℕ)
    → code_count ≤ 2
    → old_count ≤ 224
    → (ltb 2 code_count || ltb 224 old_count) ≡ false
within code_count old_count few short = ground arith

module _ {W : Type 0} where
  -- What the client makes of the callback's answer in a reply that arrives.
  abbrev accepted : StateOut → StateReply × W → ℕ × StateOut × W
  accepted out (r, w) =
      if r.status == 0
      then (if ltb 224 r.new_state_count then (mig_type_error, out, w) else (
        0,
        record {
          flavor = r.flavor;
          new_state =
              take_words r.new_state_count r.new_state
              ++ drop_words r.new_state_count out.new_state;
          new_state_count = r.new_state_count;
        },
        w,
      ))
      else (r.status, out, w)

  -- The same of the callback's answer, where a reply that the room does not hold is given up, and the
  -- reply port with it.
  abbrev pub answer : (W → W) → StateOut → StateReply × W → ℕ × StateOut × W
  answer give_up out (r, w) =
      if r.status == 0 && ltb state_reply_room ((44 + 4 * r.new_state_count) % 2 ^ 32 + 8)
      then (mach_rcv_too_large, out, give_up w)
      else accepted out (r, w)

module _ {W : Type 0} (ndr : ℕ × ℕ) (callbacks : Callbacks W) where
  -- What the client makes of the reply that the server's stub builds.
  check_reply_state-state_reply :
      (head : Header) (r : StateReply)
      → head.complex ≡ false
      → head.size ≡ 36
      → check_reply_state head.id (state_reply ndr callbacks head r) ≡ (
          if r.status == 0
          then (if ltb 224 r.new_state_count then mig_type_error else 0)
          else r.status)
  unfolding check_reply_state check_id state_reply code_reply
  check_reply_state-state_reply head r simple size = elim (Bool-cases (r.status == 0)) [
    | inl good ↦ rw (good, ==_refl head.id, simple) (ground arith)
    | inr bad ↦ rw (bad, ==_refl head.id, simple, size) (ground arith)
  ]

  -- What the client makes of a reply that arrives.
  abbrev received : Header → StateReply → StateOut → W → ℕ × StateOut × W
  received head r out w =
      if not (check_reply_state head.id (state_reply ndr callbacks head r) == 0)
      then (check_reply_state head.id (state_reply ndr callbacks head r), out, w)
      else (let (result, out') = receive_state (state_reply ndr callbacks head r) out in
          (result, out', w))

  state_reply-size :
      (head : Header) (r : StateReply)
      → head.size ≡ 36
      → (state_reply ndr callbacks head r).head.size
        ≡ (if r.status == 0 then (44 + 4 * r.new_state_count) % 2 ^ 32 else 36)
  unfolding state_reply code_reply
  state_reply-size head r size = ground (arith, size)

  received-accepted :
      (head : Header) (r : StateReply) (out : StateOut) (w : W)
      → head.complex ≡ false
      → head.size ≡ 36
      → received head r out w ≡ accepted out (r, w)
  unfolding receive_state state_reply
  received-accepted head r out w simple size =
      rw (check_reply_state-state_reply head r simple size) (elim (Bool-cases (r.status == 0)) [
        | inl good ↦ elim (Bool-cases (ltb 224 r.new_state_count)) [
          | inl many ↦ rw (good, many) refl
          | inr few ↦ rw (good, few, take_words-take_words) refl
        ]
        | inr bad ↦ rw (bad, bad) refl
      ])

  pub received_state :
      (give_up : W → W) (head : Header) (r : StateReply) (out : StateOut) (w : W)
      → head.complex ≡ false
      → head.size ≡ 36
      → (if ltb state_reply_room ((state_reply ndr callbacks head r).head.size + 8)
          then (mach_rcv_too_large, out, give_up w)
          else received head r out w)
        ≡ answer give_up out (r, w)
  received_state give_up head r out w simple size =
      ap
        (λ n.
          if ltb state_reply_room (n + 8)
          then (mach_rcv_too_large, out, give_up w)
          else received head r out w)
        (state_reply-size head r size)
      ∙ rw (received-accepted head r out w simple size)
          (elim (Bool-cases (r.status == 0)) [ inl good ↦ rw good refl | inr bad ↦ rw bad refl ])

module _ {W : Type 0} (t : Transport W) (callbacks : Callbacks W) (translate : ℕ → ℕ)
    (connected : Connected t callbacks translate) where
  -- The call of a stub whose request the server serves with that reply.
  pub call_with-served :
      (complex : Bool) (port id : ℕ) (check_reply : Message → ℕ) (words : List ℕ) (size : ℕ)
      (out : StateOut) (w : W)
      → let (reply_port, w1) = t.mig_get_reply_port w in
        let (_, reply, w2) =
          mach_exc_server t.ndr callbacks
            (delivered translate
              (record { head = request_head complex port reply_port id; words = words })
              size)
            w1 in
        call_with t complex port id check_reply words size out w ≡ (
          if ltb state_reply_room (reply.head.size + 8)
          then (mach_rcv_too_large, out, t.mig_dealloc_reply_port reply_port w2)
          else if not (check_reply reply == 0)
          then (check_reply reply, out, w2)
          else (let (result, out') = receive_state reply out in (result, out', w2)))
  unfolding call_with mach_msg_error
  call_with-served complex port id check_reply words size out w =
      let (reply_port, w1) = t.mig_get_reply_port w in
      let m : Message = record { head = request_head complex port reply_port id; words = words } in
      let served = mach_exc_server t.ndr callbacks (delivered translate m size) w1 in
      elim (Bool-cases (ltb state_reply_room (served.1.head.size + 8))) [
        | inl large ↦ rw (connected.status m size state_reply_room w1, connected.state, large) refl
        | inr fits ↦
            rw
              (
                connected.status m size state_reply_room w1,
                connected.reply m size state_reply_room w1 fits,
                connected.state,
                fits,
              )
              refl
      ]
