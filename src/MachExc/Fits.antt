-- ===== src/MachExc/Fits.antt =====
-- The room that a reply of mach_exc_server takes.
use master_lib.Base.{
  ℕ, zero, suc, ◌+◌, ◌-◌, ◌*◌, ◌≤◌, ◌≡◌, refl, ap, [], inl, inr, List, ◌∷◌, length, arith, ltb,
  ◌||◌, ◌==◌, Bool-cases,
}
use master_lib.Mach.{kern_success}
use master_lib.MachExc.Message.{Header, Message, take_words}
use master_lib.MachExc.Server.{
  Callbacks, StateReply, mach_exc_server, routine, serve_raise, serve_state, serve_identity,
  reply_header, code_reply, state_reply, check_request_raise, check_request_state,
  check_request_identity,
}
use master_lib.MachExc.Layout.{
  catch_mach_exc_subsystem, reply_union_size, reply_raise, reply_state, reply_identity,
}

-- The callbacks put no more words into the new state than there is room for.
pub record Bounded {S : Type 0} (callbacks : Callbacks S) : Type 0 where
  pub raise_state :
      (port kind : ℕ) (code : List ℕ) (n flavor : ℕ) (old : List ℕ) (m capacity : ℕ) (s : S)
      → (callbacks.catch_raise_state port kind code n flavor old m capacity s).0.new_state_count
        ≤ capacity
  pub raise_identity :
      (port thread task kind : ℕ) (code : List ℕ) (n flavor : ℕ) (old : List ℕ) (m capacity : ℕ)
      (s : S)
      → (callbacks.catch_raise_state_identity port thread task kind code n flavor old m capacity
          s).0.new_state_count
        ≤ capacity

-- The size in the header is that of the header and the words, and at most `n`.
abbrev pub FitsIn : ℕ → Message → Type 0
FitsIn n m = (m.head.size ≡ 24 + 4 * length m.words) × (m.head.size ≤ n)

length-take_words : (n : ℕ) (ws : List ℕ) → length (take_words n ws) ≡ n
length-take_words zero ws = refl
length-take_words (suc n) [] = ap suc (length-take_words n [])
length-take_words (suc n) (w ∷ ws) = ap suc (length-take_words n ws)

module _ {S : Type 0} (ndr : ℕ × ℕ) (callbacks : Callbacks S) (bounded : Bounded callbacks) where
  code_reply-FitsIn :
      (h : Header) (code : ℕ)
      → FitsIn 940 (code_reply ndr callbacks (reply_header ndr callbacks h) code)
  unfolding code_reply reply_header
  code_reply-FitsIn h code = (omega arith, omega arith)

  state_reply-FitsIn :
      (h : Header) (r : StateReply)
      → r.new_state_count ≤ 224
      → FitsIn 940 (state_reply ndr callbacks (reply_header ndr callbacks h) r)
  unfolding state_reply
  state_reply-FitsIn h r few = elim (Bool-cases (r.status == kern_success)) [
    | inr bad ↦ rw bad (code_reply-FitsIn h r.status)
    | inl good ↦ rw (good, length-take_words) (omega (arith, few), omega (arith, few))
  ]

  routine-FitsIn :
      (i : ℕ) (m : Message) (s : S)
      → FitsIn 940 (routine ndr callbacks i m (reply_header ndr callbacks m.head) s).0
  unfolding routine serve_raise serve_state serve_identity
  routine-FitsIn zero m s = elim (Bool-cases (check_request_raise m == 0)) [
    | inl good ↦ rw good (code_reply-FitsIn m.head 0)
    | inr bad ↦ rw bad (code_reply-FitsIn m.head 0)
  ]
  routine-FitsIn (suc zero) m s = elim (Bool-cases (check_request_state m == 0)) [
    | inl good ↦ rw good (state_reply-FitsIn m.head _ (bounded.raise_state _ _ _ _ _ _ _ 224 s))
    | inr bad ↦ rw bad (code_reply-FitsIn m.head 0)
  ]
  routine-FitsIn (suc (suc i)) m s = elim (Bool-cases (check_request_identity m == 0)) [
    | inl good ↦
        rw good (state_reply-FitsIn m.head _ (bounded.raise_identity _ _ _ _ _ _ _ _ _ 224 s))
    | inr bad ↦ rw bad (code_reply-FitsIn m.head 0)
  ]

  -- A reply is as long as its header says, and no longer than the largest of the reply structures,
  -- which the description of the subsystem gives as the room to provide, if the callbacks keep to the
  -- room that they are given for the new state.
  pub mach_exc_server-FitsIn :
      (m : Message) (s : S)
      → FitsIn catch_mach_exc_subsystem.maxsize (mach_exc_server ndr callbacks m s).1
  unfolding catch_mach_exc_subsystem reply_union_size reply_raise reply_state reply_identity
      mach_exc_server
  mach_exc_server-FitsIn m s = elim (Bool-cases (ltb 2407 m.head.id || ltb m.head.id 2405)) [
    | inl other ↦ rw other (code_reply-FitsIn m.head 0)
    | inr mine ↦ rw mine (routine-FitsIn (m.head.id - 2405) m s)
  ]
