-- ===== src/MachExc/Client.antt =====
-- src/mach_excUser.c: the checks of the replies and the three client stubs. mach_msg and the calls
-- on the thread's reply port are parameters.
use master_lib.Base.{
  ℕ, ◌+◌, ◌-◌, ◌*◌, ◌/◌, Bool, true, false, not, ◌&&◌, ◌||◌, List, ◌∷◌, ◌++◌, ltb, ◌==◌,
  if◌then◌else◌,
}
use master_lib.Mach.{kern_success}
use master_lib.MachExc.Message.{
  Header, Message, mig_type_error, mig_reply_mismatch, mig_array_too_large, mig_server_died,
  mach_notify_send_once, raise_request_size, state_request_size, identity_request_size,
  error_reply_size, state_reply_size, raise_reply_room, state_reply_room, word, drop_words,
  take_words, split_codes, descriptor_word,
}

-- `mach_msg` sends that many bytes of a message, and waits for the reply, which it gives back with
-- its status if the reply and its trailer fit in `room`.
pub record Transport (W : Type 0) : Type 0 where
  pub ndr : ℕ × ℕ
  pub mig_get_reply_port : W → ℕ × W
  pub mig_put_reply_port : ℕ → W → W
  pub mig_dealloc_reply_port : ℕ → W → W
  pub mach_msg : Message → (send_size room : ℕ) → W → ℕ × Message × W

-- the `int *flavor`, the array and the count that the caller passes by pointers
pub record StateOut : Type 0 where
  pub flavor : ℕ
  pub new_state : List ℕ
  pub new_state_count : ℕ

unfoldable pub check_id : Message → (id : ℕ) → ℕ
check_id m id =
    if m.head.id == id
    then 0
    else if m.head.id == mach_notify_send_once
    then mig_server_died
    else mig_reply_mismatch

unfoldable pub check_reply_raise : Message → ℕ
unfolding check_id
check_reply_raise m =
    if not (check_id m 2505 == 0)
    then check_id m 2505
    else if m.head.complex || not (m.head.size == error_reply_size)
    then mig_type_error
    else word m 2

unfoldable pub check_reply_state : (id : ℕ) → Message → ℕ
unfolding check_id
check_reply_state id m =
    if not (check_id m id == 0)
    then check_id m id
    else if m.head.complex
        || (ltb state_reply_size m.head.size || ltb m.head.size (state_reply_size - 896))
          && (not (m.head.size == error_reply_size) || word m 2 == kern_success)
    then mig_type_error
    else if not (word m 2 == kern_success)
    then word m 2
    else if ltb 224 (word m 4)
    then mig_type_error
    else if ltb ((m.head.size - (state_reply_size - 896)) / 4) (word m 4)
        || not (m.head.size == state_reply_size - 896 + 4 * word m 4)
    then mig_type_error
    else 0

-- The check of the other reply is the same but for the number.
abbrev check_reply_identity : Message → ℕ
check_reply_identity = check_reply_state 2507

-- The descriptors, whose padding nothing reads, after the count of descriptors.
unfoldable pub port_words : (thread task : ℕ) → List ℕ → List ℕ
port_words thread task rest =
    2 ∷ thread ∷ 0 ∷ descriptor_word 19 0 ∷ task ∷ 0 ∷ descriptor_word 19 0 ∷ rest

-- `msgh_size` is passed to mach_msg as an argument: the field is not written.
unfoldable pub request_head : (complex : Bool) → (port reply_port id : ℕ) → Header
request_head complex port reply_port id = record {
  complex = complex;
  remote_bits = 19;
  local_bits = 21;
  size = 0;
  remote_port = port;
  local_port = reply_port;
  id = id;
}

-- What the stub does with a reply that its check accepts.
unfoldable pub receive_state : Message → StateOut → ℕ × StateOut
receive_state m out =
    let count = word m 4 in
    let copied = if ltb 224 count then 224 else count in
    (
      if ltb 224 count then mig_array_too_large else kern_success,
      record {
        flavor = word m 3;
        new_state = take_words copied (drop_words 5 m.words) ++ drop_words copied out.new_state;
        new_state_count = count;
      },
    )

module _ {W : Type 0} (t : Transport W) where
  unfoldable pub mach_msg_error : ℕ → ℕ → W → W
  mach_msg_error status reply_port w =
      if status == 0x10000002 || status == 0x10000003 || status == 0x10000010
      then t.mig_put_reply_port reply_port w
      else t.mig_dealloc_reply_port reply_port w

  unfoldable pub raise_words : (thread task kind : ℕ) → List ℕ → ℕ → List ℕ
  unfolding port_words
  raise_words thread task kind code code_count =
      port_words thread task
        (t.ndr.0 ∷ t.ndr.1 ∷ kind ∷ code_count ∷ split_codes (take_words code_count code))

  unfoldable pub mach_exception_raise :
      (port thread task kind : ℕ) → List ℕ → (code_count : ℕ) → W → ℕ × W
  unfolding request_head raise_words check_reply_raise mach_msg_error
  mach_exception_raise port thread task kind code code_count w =
      if ltb 2 code_count
      then (mig_array_too_large, w)
      else (let (reply_port, w1) = t.mig_get_reply_port w in
          let (status, reply, w2) =
            t.mach_msg
              (record {
                head = request_head true port reply_port 2405;
                words = raise_words thread task kind code code_count;
              })
              (raise_request_size - 16 + 8 * code_count) raise_reply_room w1 in
          if not (status == 0)
          then (status, mach_msg_error status reply_port w2)
          else (check_reply_raise reply, w2))

  -- from NDR on
  unfoldable pub state_words : (kind : ℕ) → List ℕ → (code_count flavor : ℕ) → List ℕ → ℕ → List ℕ
  state_words kind code code_count flavor old_state old_count =
      t.ndr.0 ∷ t.ndr.1 ∷ kind ∷ code_count ∷ split_codes (take_words code_count code)
      ++ (flavor ∷ old_count ∷ take_words old_count old_state)

  -- From mig_get_reply_port on, for the request with the id `id` and its check of the reply.
  unfoldable pub call_with :
      (complex : Bool)
      → (port id : ℕ) → (Message → ℕ)
      → List ℕ
      → ℕ
      → StateOut
      → W
      → ℕ × StateOut × W
  unfolding request_head mach_msg_error receive_state
  call_with complex port id check_reply words size out w =
      let (reply_port, w1) = t.mig_get_reply_port w in
      let (status, reply, w2) =
        t.mach_msg (record { head = request_head complex port reply_port id; words = words }) size
          state_reply_room w1 in
      if not (status == 0)
      then (status, out, mach_msg_error status reply_port w2)
      else if not (check_reply reply == 0)
      then (check_reply reply, out, w2)
      else (let (result, out') = receive_state reply out in (result, out', w2))

  abbrev call_state : (port : ℕ) → List ℕ → ℕ → StateOut → W → ℕ × StateOut × W
  call_state port = call_with false port 2406 (check_reply_state 2506)

  abbrev call_identity : (port : ℕ) → List ℕ → ℕ → StateOut → W → ℕ × StateOut × W
  call_identity port = call_with true port 2407 check_reply_identity

  unfoldable pub mach_exception_raise_state :
      (port kind : ℕ) → List ℕ → (code_count : ℕ) → List ℕ → ℕ → StateOut → W → ℕ × StateOut × W
  unfolding state_words
  mach_exception_raise_state port kind code code_count old_state old_count out w =
      if ltb 2 code_count || ltb 224 old_count
      then (mig_array_too_large, out, w)
      else call_state port (state_words kind code code_count out.flavor old_state old_count)
          (state_request_size - 912 + 8 * code_count + 4 * old_count) out w

  unfoldable pub mach_exception_raise_state_identity :
      (port thread task kind : ℕ)
      → List ℕ
      → (code_count : ℕ) → List ℕ
      → ℕ
      → StateOut
      → W
      → ℕ × StateOut × W
  unfolding port_words state_words
  mach_exception_raise_state_identity port thread task kind code code_count old_state old_count out
        w =
      if ltb 2 code_count || ltb 224 old_count
      then (mig_array_too_large, out, w)
      else call_identity port
          (port_words thread task (state_words kind code code_count out.flavor old_state old_count))
          (identity_request_size - 912 + 8 * code_count + 4 * old_count) out w
