-- ===== src/Tests/Messages.antt =====
-- Runs of the mach_exc protocol.
use master_lib.Base.{
  ℕ, ◌+◌, ◌*◌, ◌≤◌, ◌≡◌, refl, true, false, List, [], ◌∷◌, arith, ltb, if◌then◌else◌,
}
use master_lib.MachExc.Message.{
  Message, descriptor_type, disposition, mach_rcv_too_large, word, descriptor_word,
}
use master_lib.MachExc.Server.{
  Callbacks, mach_exc_server, check_request_identity, bad_descriptor, check_counts, check_old_state,
}
use master_lib.MachExc.Client.{
  Transport, StateOut, mach_exception_raise_state, mach_exception_raise_state_identity,
}
use master_lib.MachExc.Requests.{check_request_identity-bounds}
use master_lib.MachExc.Rpc.{delivered, Connected}
use master_lib.MachExc.Rpc.State.{mach_exception_raise_state-catch}
use master_lib.MachExc.Rpc.Identity.{mach_exception_raise_state_identity-catch}

-- Callbacks that count their calls, and answer with the old state.
abbrev pub counting : Callbacks ℕ
counting = record {
  catch_raise = λ port thread task kind code n s. (5, s + 1);
  catch_raise_state = λ port kind code n flavor old m room s.
      (record { status = 0; flavor = flavor; new_state = old; new_state_count = m }, s + 1);
  catch_raise_state_identity = λ port thread task kind code n flavor old m room s.
      (record { status = 0; flavor = flavor; new_state = old; new_state_count = m }, s + 1);
}

abbrev rename : ℕ → ℕ
rename p = p + 1000

abbrev wire : Transport ℕ
wire = record {
  ndr = (0, 1);
  mig_get_reply_port = λ w. (77, w);
  mig_put_reply_port = λ p w. w;
  mig_dealloc_reply_port = λ p w. w;
  mach_msg = λ m size room w.
      let (_, reply, w') = mach_exc_server (0, 1) counting (delivered rename m size) w in
      (if ltb room (reply.head.size + 8) then mach_rcv_too_large else 0, reply, w');
}

abbrev wire-Connected : Connected wire counting rename
wire-Connected = record {
  status = λ m size room w. refl;
  reply = λ m size room w fits. refl;
  state = λ m size room w. refl;
}

abbrev out : StateOut
out = record { flavor = 1; new_state = 0 ∷ 0 ∷ 0 ∷ []; new_state_count = 3 }

abbrev changed : StateOut
changed = record { flavor = 1; new_state = 8 ∷ 9 ∷ 0 ∷ []; new_state_count = 2 }

mach_exception_raise_state-catch_example :
    mach_exception_raise_state wire 11 6 (1 ∷ []) 1 (8 ∷ 9 ∷ []) 2 out 0 ≡ (0, changed, 1)
mach_exception_raise_state-catch_example =
    mach_exception_raise_state-catch wire counting rename wire-Connected 11 6 (1 ∷ []) 1
      (8 ∷ 9 ∷ []) 2 out 0 (omega arith) (omega arith) (omega arith, tt)

mach_exception_raise_state_identity-catch_example :
    mach_exception_raise_state_identity wire 11 5 107 6 (1 ∷ []) 1 (8 ∷ 9 ∷ []) 2 out 0
    ≡ (0, changed, 1)
mach_exception_raise_state_identity-catch_example =
    mach_exception_raise_state_identity-catch wire counting rename wire-Connected 11 5 107 6
      (1 ∷ []) 1 (8 ∷ 9 ∷ []) 2 out 0 (omega arith) (omega arith) (omega arith, tt)

abbrev pub state_message : Message
state_message = record {
  head = record {
    complex = false;
    remote_bits = 18;
    local_bits = 17;
    size = 64;
    remote_port = 77;
    local_port = 11;
    id = 2406;
  };
  words = 0 ∷ 1 ∷ 6 ∷ 1 ∷ 20 ∷ 0 ∷ 1 ∷ 2 ∷ 8 ∷ 9 ∷ [];
}

abbrev ports : List ℕ → List ℕ
ports rest = 2 ∷ 5 ∷ 0 ∷ descriptor_word 17 0 ∷ 107 ∷ 0 ∷ descriptor_word 17 0 ∷ rest

abbrev identity_message : Message
identity_message = record {
  head = record state_message.head { complex = true; size = 92; id = 2407 };
  words = ports state_message.words;
}

abbrev pub raise_message : Message
raise_message = record {
  head = record state_message.head { complex = true; size = 76; id = 2405 };
  words = ports (0 ∷ 1 ∷ 6 ∷ 1 ∷ 20 ∷ 0 ∷ []);
}

identity_accepted : check_request_identity identity_message ≡ 0
unfolding check_request_identity bad_descriptor check_counts check_old_state
identity_accepted = refl

check_request_identity-bounds_example :
    (identity_message.head.complex ≡ true)
    × (word identity_message 0 ≡ 2)
    × (descriptor_type (word identity_message 3) ≡ 0)
    × (disposition (word identity_message 3) ≡ 17)
    × (descriptor_type (word identity_message 6) ≡ 0)
    × (disposition (word identity_message 6) ≡ 17)
    × (word identity_message 10 ≤ 2)
    × (word identity_message 14 ≤ 224)
    × (identity_message.head.size
        ≡ 76 + 8 * word identity_message 10 + 4 * word identity_message 14)
check_request_identity-bounds_example =
    check_request_identity-bounds identity_message identity_accepted
