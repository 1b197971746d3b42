-- ===== src/MachExc/Server.antt =====
-- src/mach_excServer.c: the checks of the requests, the three server stubs, mach_exc_server and
-- mach_exc_server_routine. The functions catch_mach_exception_raise* are parameters here.
use master_lib.Base.{
  ℕ, zero, suc, ◌+◌, ◌-◌, ◌*◌, ◌/◌, ◌%◌, ◌^◌, Bool, true, false, not, ◌||◌, List, [], ◌∷◌, Option,
  none, some, ltb, ◌==◌, if◌then◌else◌,
}
use master_lib.Mach.{kern_success}
use master_lib.MachExc.Message.{
  Header, Message, mig_type_error, mig_bad_id, mig_bad_arguments, raise_request_size,
  state_request_size, identity_request_size, error_reply_size, state_reply_size, word, drop_words,
  take_words, join_codes, disposition, descriptor_type,
}

-- What catch_mach_exception_raise_state* writes through its pointers, and its status.
pub record StateReply : Type 0 where
  pub status : ℕ
  pub flavor : ℕ
  pub new_state : List ℕ
  pub new_state_count : ℕ

pub record Callbacks (S : Type 0) : Type 0 where
  pub catch_raise :
      (exception_port thread task kind : ℕ) → (code : List ℕ) → (code_count : ℕ) → S → ℕ × S
  pub catch_raise_state :
      (exception_port kind : ℕ)
      → (code : List ℕ) → (code_count flavor : ℕ) → (old_state : List ℕ) → (old_count capacity : ℕ)
      → S
      → StateReply × S
  pub catch_raise_state_identity :
      (exception_port thread task kind : ℕ)
      → (code : List ℕ) → (code_count flavor : ℕ) → (old_state : List ℕ) → (old_count capacity : ℕ)
      → S
      → StateReply × S

-- The tests of a request that carries two ports: MIG_TYPE_ERROR or MACH_MSG_SUCCESS.
unfoldable pub bad_descriptor : ℕ → Bool
bad_descriptor w = not (descriptor_type w == 0) || not (disposition w == 17)

unfoldable pub check_raise_count : (size code_count : ℕ) → ℕ
check_raise_count size code_count =
    if ltb 2 code_count
    then mig_bad_arguments
    else if ltb ((size - (raise_request_size - 16)) / 8) code_count
        || not (size == raise_request_size - 16 + 8 * code_count)
    then mig_bad_arguments
    else 0

unfoldable pub check_request_raise : Message → ℕ
unfolding bad_descriptor check_raise_count
check_request_raise m =
    if not m.head.complex
      || not (word m 0 == 2)
      || ltb m.head.size (raise_request_size - 16)
      || ltb raise_request_size m.head.size
    then mig_bad_arguments
    else if bad_descriptor (word m 3)
    then mig_type_error
    else if bad_descriptor (word m 6)
    then mig_type_error
    else check_raise_count m.head.size (word m 10)

-- `size` is what is left of the message's size when the codes are taken off.
unfoldable pub check_old_state : (size minimum old_count : ℕ) → ℕ
check_old_state size minimum old_count =
    if ltb 224 old_count
    then mig_bad_arguments
    else if ltb ((size - minimum) / 4) old_count || not (size == minimum + 4 * old_count)
    then mig_bad_arguments
    else 0

-- `base` is the word at which `code` starts: In1P's old_stateCnt stands 2 * codeCnt + 1 words later.
unfoldable pub check_counts : Message → (minimum base : ℕ) → ℕ
unfolding check_old_state
check_counts m minimum base =
    let code_count = word m (base - 1) in
    if ltb 2 code_count
    then mig_bad_arguments
    else if ltb ((m.head.size - minimum) / 8) code_count
        || ltb m.head.size (minimum + 8 * code_count)
    then mig_bad_arguments
    else check_old_state (m.head.size - 8 * code_count) minimum (word m (base + 2 * code_count + 1))

unfoldable pub check_request_state : Message → ℕ
unfolding check_counts
check_request_state m =
    if m.head.complex
      || ltb m.head.size (state_request_size - 912)
      || ltb state_request_size m.head.size
    then mig_bad_arguments
    else check_counts m (state_request_size - 912) 4

unfoldable pub check_request_identity : Message → ℕ
unfolding bad_descriptor check_counts
check_request_identity m =
    if not m.head.complex
      || not (word m 0 == 2)
      || ltb m.head.size (identity_request_size - 912)
      || ltb identity_request_size m.head.size
    then mig_bad_arguments
    else if bad_descriptor (word m 3)
    then mig_type_error
    else if bad_descriptor (word m 6)
    then mig_type_error
    else check_counts m (identity_request_size - 912) 11

-- NDR_record is two words.
module _ {S : Type 0} (ndr : ℕ × ℕ) (callbacks : Callbacks S) where
  -- The reply with NDR and RetCode: MIG_RETURN_ERROR, and all of a reply to mach_exception_raise.
  unfoldable pub code_reply : Header → ℕ → Message
  code_reply head code = record { head = head; words = ndr.0 ∷ ndr.1 ∷ code ∷ [] }

  unfoldable pub state_reply : Header → StateReply → Message
  unfolding code_reply
  state_reply head r =
      if r.status == kern_success
      then (record {
        head = record head { size = (state_reply_size - 896 + 4 * r.new_state_count) % 2 ^ 32 };
        words =
            ndr.0
            ∷ ndr.1
            ∷ r.status
            ∷ r.flavor
            ∷ r.new_state_count
            ∷ take_words r.new_state_count r.new_state;
      })
      else code_reply head r.status

  -- the stubs _Xmach_exception_raise*, on the header that mach_exc_server has written
  unfoldable pub serve_raise : Message → Header → S → Message × S
  unfolding check_request_raise code_reply
  serve_raise m head s =
      let check = check_request_raise m in
      if not (check == 0)
      then (code_reply head check, s)
      else (let code = join_codes (take_words (2 * word m 10) (drop_words 11 m.words)) in
          let (status, s') =
            callbacks.catch_raise m.head.local_port (word m 1) (word m 4) (word m 9) code
              (word m 10) s in
          (code_reply head status, s'))

  unfoldable pub serve_state : Message → Header → S → Message × S
  unfolding check_request_state code_reply state_reply
  serve_state m head s =
      let check = check_request_state m in
      if not (check == 0)
      then (code_reply head check, s)
      else (let count = word m 3 in
          let code = join_codes (take_words (2 * count) (drop_words 4 m.words)) in
          let moved = drop_words (2 * count) (drop_words 4 m.words) in
          let old_count = word m (4 + 2 * count + 1) in
          let (reply, s') =
            callbacks.catch_raise_state m.head.local_port (word m 2) code count
              (word m (4 + 2 * count)) (take_words old_count (drop_words 2 moved)) old_count 224
              s in
          (state_reply head reply, s'))

  unfoldable pub serve_identity : Message → Header → S → Message × S
  unfolding check_request_identity code_reply state_reply
  serve_identity m head s =
      let check = check_request_identity m in
      if not (check == 0)
      then (code_reply head check, s)
      else (let count = word m 10 in
          let code = join_codes (take_words (2 * count) (drop_words 11 m.words)) in
          let moved = drop_words (2 * count) (drop_words 11 m.words) in
          let old_count = word m (11 + 2 * count + 1) in
          let (reply, s') =
            callbacks.catch_raise_state_identity m.head.local_port (word m 1) (word m 4) (word m 9)
              code count (word m (11 + 2 * count)) (take_words old_count (drop_words 2 moved))
              old_count 224 s in
          (state_reply head reply, s'))

  -- the column stub_routine of catch_mach_exc_subsystem.routine
  unfoldable pub routine : ℕ → Message → Header → S → Message × S
  unfolding serve_raise serve_state serve_identity
  routine zero = serve_raise
  routine (suc zero) = serve_state
  routine _ = serve_identity

  -- the header that mach_exc_server writes into the reply
  unfoldable pub reply_header : Header → Header
  reply_header h = record {
    complex = false;
    remote_bits = h.remote_bits;
    local_bits = 0;
    size = error_reply_size;
    remote_port = h.remote_port;
    local_port = 0;
    id = (h.id + 100) % 2 ^ 32;
  }

  unfoldable pub mach_exc_server : Message → S → Bool × Message × S
  unfolding reply_header code_reply routine
  mach_exc_server m s =
      if ltb 2407 m.head.id || ltb m.head.id 2405
      then (false, code_reply (reply_header m.head) mig_bad_id, s)
      else (let (reply, s') = routine (m.head.id - 2405) m (reply_header m.head) s in
          (true, reply, s'))

  -- none is the null function pointer; ids below 2405 are the negative ones of the source
  unfoldable pub mach_exc_server_routine : Message → Option (Message → Header → S → Message × S)
  unfolding routine
  mach_exc_server_routine m =
      if ltb 2407 m.head.id || ltb m.head.id 2405 then none else some (routine (m.head.id - 2405))
