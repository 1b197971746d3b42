-- ===== src/MachExc/Preserve.antt =====
-- mach_exc_server touches the state of the program by the callbacks only.
use master_lib.Base.{ℕ, zero, suc, ◌-◌, inl, inr, List, ◌==◌, ltb, ◌||◌, Bool-cases}
use master_lib.MachExc.Message.{Header, Message}
use master_lib.MachExc.Server.{
  Callbacks, mach_exc_server, routine, serve_raise, serve_state, serve_identity, reply_header,
  check_request_raise, check_request_state, check_request_identity,
}

-- What each of the three callbacks preserves.
pub record Preserving {S : Type 0} (callbacks : Callbacks S) (P : S → Type 0) : Type 0 where
  pub raise :
      (port thread task kind : ℕ) (code : List ℕ) (n : ℕ) (s : S)
      → P s
      → P (callbacks.catch_raise port thread task kind code n s).1
  pub raise_state :
      (port kind : ℕ) (code : List ℕ) (n flavor : ℕ) (old : List ℕ) (m capacity : ℕ) (s : S)
      → P s
      → P (callbacks.catch_raise_state port kind code n flavor old m capacity s).1
  pub raise_identity :
      (port thread task kind : ℕ) (code : List ℕ) (n flavor : ℕ) (old : List ℕ) (m capacity : ℕ)
      (s : S)
      → P s
      → P
          (callbacks.catch_raise_state_identity port thread task kind code n flavor old m capacity
            s).1

module _ {S : Type 0} (ndr : ℕ × ℕ) (callbacks : Callbacks S) (P : S → Type 0)
    (keeps : Preserving callbacks P) where
  routine-Preserved :
      (i : ℕ) (m : Message) (head : Header) (s : S) → P s → P (routine ndr callbacks i m head s).1
  unfolding routine serve_raise serve_state serve_identity
  routine-Preserved zero m head s h = elim (Bool-cases (check_request_raise m == 0)) [
    | inl good ↦ rw good (keeps.raise _ _ _ _ _ _ s h)
    | inr bad ↦ rw bad h
  ]
  routine-Preserved (suc zero) m head s h = elim (Bool-cases (check_request_state m == 0)) [
    | inl good ↦ rw good (keeps.raise_state _ _ _ _ _ _ _ _ s h)
    | inr bad ↦ rw bad h
  ]
  routine-Preserved (suc (suc i)) m head s h = elim (Bool-cases (check_request_identity m == 0)) [
    | inl good ↦ rw good (keeps.raise_identity _ _ _ _ _ _ _ _ _ _ s h)
    | inr bad ↦ rw bad h
  ]

  -- What the callbacks preserve, `mach_exc_server` preserves, whatever the message.
  pub mach_exc_server-Preserved :
      (m : Message) (s : S) → P s → P (mach_exc_server ndr callbacks m s).2
  unfolding mach_exc_server
  mach_exc_server-Preserved m s h = elim (Bool-cases (ltb 2407 m.head.id || ltb m.head.id 2405)) [
    | inl other ↦ rw other h
    | inr mine ↦
        rw mine (routine-Preserved (m.head.id - 2405) m (reply_header ndr callbacks m.head) s h)
  ]
