-- ===== src/MachExc/Rpc.antt =====
-- The client stubs of src/mach_excUser.c against the server of src/mach_excServer.c: a transport
-- that connects them.
pub mod Replies
pub mod Raise
pub mod State
pub mod Identity
use master_lib.Base.{
  ℕ, not, ltb, Bool-cases, ◌||◌, ==_refl, not, zero, suc, ◌+◌, ◌-◌, ◌*◌, ◌%◌, ◌^◌, ◌≤◌, ◌≡◌, refl,
  sym, ap, ◌∙◌, inl, inr, true, false, List, [], ◌∷◌, ◌++◌, arith, ◌==◌, if◌then◌else◌,
}
use master_lib.MachExc.Message.{
  Header, Message, take_words, split_codes, join_codes, descriptor_word, disposition,
  descriptor_type, drop_words, mach_rcv_too_large, mig_type_error,
}
use master_lib.MachExc.Server.{
  Callbacks, StateReply, mach_exc_server, routine, serve_raise, serve_state, serve_identity,
  reply_header, code_reply, state_reply, check_request_raise, check_request_state,
  check_request_identity, check_counts, check_old_state, check_raise_count, bad_descriptor,
}
use master_lib.MachExc.Client.{
  Transport, StateOut, mach_exception_raise, mach_exception_raise_state,
  mach_exception_raise_state_identity, raise_words, state_words, port_words, request_head,
  check_reply_raise, check_id, check_reply_state, call_with, receive_state,
}
use master_lib.MachExc.Words.{
  split_code, Fits64, take_words-take_words, take_words-Fits64, join_codes-split_codes,
}

-- The disposition that a port right has when it arrives: a copied send right as a moved one.
abbrev pub received : ℕ → ℕ
received w = if disposition w == 19 then descriptor_word 17 (descriptor_type w) else w

module _ (translate : ℕ → ℕ) where
  abbrev pub deliver_ports : List ℕ → List ℕ
  deliver_ports (n ∷ a ∷ p ∷ d ∷ b ∷ q ∷ e ∷ rest) =
      n ∷ translate a ∷ p ∷ received d ∷ translate b ∷ q ∷ received e ∷ rest
  deliver_ports words = words

  -- A message as it arrives: with the size that was sent, the two ports of the header exchanged, and
  -- every port under the receiver's name.
  abbrev pub delivered : Message → ℕ → Message
  delivered m size = record {
    head = record {
      complex = m.head.complex;
      remote_bits = m.head.local_bits;
      local_bits = m.head.remote_bits;
      size = size;
      remote_port = translate m.head.local_port;
      local_port = translate m.head.remote_port;
      id = m.head.id;
    };
    words = if m.head.complex then deliver_ports m.words else m.words;
  }

-- Documented behaviour of mach_msg where the message reaches a thread that runs mach_exc_server on
-- it and sends the reply back: the status is MACH_RCV_TOO_LARGE, and no reply arrives, where the reply
-- and its trailer of 8 bytes need more than the room.
pub record Connected {W : Type 0} (t : Transport W) (callbacks : Callbacks W) (translate : ℕ → ℕ)
    : Type 0 where
  pub status :
      (m : Message) (size room : ℕ) (w : W)
      → (t.mach_msg m size room w).0 ≡ (
          if ltb room
            ((mach_exc_server t.ndr callbacks (delivered translate m size) w).1.head.size + 8)
          then mach_rcv_too_large
          else 0)
  pub reply :
      (m : Message) (size room : ℕ) (w : W)
      → ltb room ((mach_exc_server t.ndr callbacks (delivered translate m size) w).1.head.size + 8)
        ≡ false
      → (t.mach_msg m size room w).1
        ≡ (mach_exc_server t.ndr callbacks (delivered translate m size) w).1
  pub state :
      (m : Message) (size room : ℕ) (w : W)
      → (t.mach_msg m size room w).2
        ≡ (mach_exc_server t.ndr callbacks (delivered translate m size) w).2
