-- ===== src/MachExc/Rpc/State.antt =====
-- A call of mach_exception_raise_state.
use master_lib.Base.{ℕ, zero, suc, ◌+◌, ◌*◌, ◌≤◌, ◌≡◌, refl, true, false, List, [], ◌∷◌, arith}
use master_lib.MachExc.Message.{Message, take_words}
use master_lib.MachExc.Server.{
  Callbacks, mach_exc_server, routine, serve_state, reply_header, state_reply, check_request_state,
  check_counts, check_old_state,
}
use master_lib.MachExc.Client.{
  Transport, StateOut, mach_exception_raise_state, state_words, request_head,
}
use master_lib.MachExc.Words.{split_code, Fits64, take_words-take_words}
use master_lib.MachExc.Rpc.{delivered, Connected}
use master_lib.MachExc.Rpc.Replies.{answer, received_state, call_with-served, within}

module _ {W : Type 0} (t : Transport W) (callbacks : Callbacks W) (translate : ℕ → ℕ)
    (connected : Connected t callbacks translate) where
  abbrev state_request :
      (port reply_port kind : ℕ) → List ℕ → (code_count flavor : ℕ) → List ℕ → ℕ → Message
  state_request port reply_port kind code code_count flavor old_state old_count =
      delivered translate
        (record {
          head = request_head false port reply_port 2406;
          words = state_words t kind code code_count flavor old_state old_count;
        })
        (48 + 8 * code_count + 4 * old_count)

  state_request-accepted :
      (port reply_port kind : ℕ) (code : List ℕ) (code_count flavor : ℕ) (old_state : List ℕ)
      (old_count : ℕ)
      → code_count ≤ 2
      → old_count ≤ 224
      → check_request_state
          (state_request port reply_port kind code code_count flavor old_state old_count)
        ≡ 0
  unfolding check_request_state check_counts check_old_state state_words request_head
  state_request-accepted port reply_port kind code zero flavor old_state old_count few short =
      ground arith
  state_request-accepted port reply_port kind [] (suc zero) flavor old_state old_count few short =
      ground arith
  state_request-accepted port reply_port kind (c ∷ code) (suc zero) flavor old_state old_count few
        short =
      ground arith
  state_request-accepted port reply_port kind [] (suc (suc zero)) flavor old_state old_count few
        short =
      ground arith
  state_request-accepted port reply_port kind (c ∷ []) (suc (suc zero)) flavor old_state old_count
        few short =
      ground arith
  state_request-accepted port reply_port kind (c ∷ d ∷ code) (suc (suc zero)) flavor old_state
        old_count few short =
      ground arith
  state_request-accepted port reply_port kind code (suc (suc (suc n))) flavor old_state old_count
        few short =
      absurd (omega arith)

  served_state :
      (port reply_port kind : ℕ) (code : List ℕ) (code_count flavor : ℕ) (old_state : List ℕ)
      (old_count : ℕ) (w : W)
      → code_count ≤ 2
      → old_count ≤ 224
      → Fits64 code
      → mach_exc_server t.ndr callbacks
          (state_request port reply_port kind code code_count flavor old_state old_count)
          w
        ≡ (let (r, w') =
              callbacks.catch_raise_state
                (translate port)
                kind
                (take_words code_count code)
                code_count
                flavor
                (take_words old_count old_state)
                old_count
                224
                w in
            (
              true,
              state_reply t.ndr callbacks
                  (reply_header t.ndr callbacks
                    (state_request port reply_port kind code code_count flavor old_state
                      old_count).head)
                  r,
              w',
            ))
  unfolding mach_exc_server routine serve_state state_words request_head
  served_state port reply_port kind code zero flavor old_state old_count w few short fits =
      rw
        (
          state_request-accepted port reply_port kind code zero flavor old_state old_count few
              short,
          take_words-take_words,
        )
        refl
  served_state port reply_port kind [] (suc zero) flavor old_state old_count w few short fits =
      rw
        (
          state_request-accepted port reply_port kind [] 1 flavor old_state old_count few short,
          take_words-take_words,
        )
        refl
  served_state port reply_port kind (c ∷ code) (suc zero) flavor old_state old_count w few short
        fits =
      rw
        (
          state_request-accepted port reply_port kind (c ∷ code) 1 flavor old_state old_count few
              short,
          take_words-take_words,
          split_code c fits.0,
        )
        refl
  served_state port reply_port kind [] (suc (suc zero)) flavor old_state old_count w few short
        fits =
      rw
        (
          state_request-accepted port reply_port kind [] 2 flavor old_state old_count few short,
          take_words-take_words,
        )
        refl
  served_state port reply_port kind (c ∷ []) (suc (suc zero)) flavor old_state old_count w few short
        fits =
      rw
        (
          state_request-accepted port reply_port kind (c ∷ []) 2 flavor old_state old_count few
              short,
          take_words-take_words,
          split_code c fits.0,
        )
        refl
  served_state port reply_port kind (c ∷ d ∷ code) (suc (suc zero)) flavor old_state old_count w few
        short fits =
      rw
        (
          state_request-accepted port reply_port kind (c ∷ d ∷ code) 2 flavor old_state old_count
              few short,
          take_words-take_words,
          split_code c fits.0,
          split_code d fits.1.0,
        )
        refl
  served_state port reply_port kind code (suc (suc (suc n))) flavor old_state old_count w few short
        fits =
      absurd (omega arith)

  -- Where the message reaches the server, `mach_exception_raise_state` with at most two 64-bit codes
  -- and at most 224 words of the old state is the call of `catch_mach_exception_raise_state` with the
  -- same exception, codes, flavor and old state, the server's name of the port and room for 224
  -- words: it returns the callback's status,
  -- and where that is success, its flavor and new state. Where the callback claims more than 224 words,
  -- the reply does not fit in the client's room: it returns MACH_RCV_TOO_LARGE and gives up its reply
  -- port; or MIG_TYPE_ERROR, where so many are claimed that the 32 bits of the reply's size wrap around
  -- to what fits.
  pub mach_exception_raise_state-catch :
      (port kind : ℕ) (code : List ℕ) (code_count : ℕ) (old_state : List ℕ) (old_count : ℕ)
      (out : StateOut) (w : W)
      → code_count ≤ 2
      → old_count ≤ 224
      → Fits64 code
      → mach_exception_raise_state t port kind code code_count old_state old_count out w
        ≡ answer (t.mig_dealloc_reply_port (t.mig_get_reply_port w).0) out (
            callbacks.catch_raise_state
              (translate port)
              kind
              (take_words code_count code)
              code_count
              out.flavor
              (take_words old_count old_state)
              old_count
              224
              (t.mig_get_reply_port w).1)
  unfolding mach_exception_raise_state reply_header request_head
  mach_exception_raise_state-catch port kind code code_count old_state old_count out w few short
        fits =
      let (reply_port, w1) = t.mig_get_reply_port w in
      rw
        (
          within code_count old_count few short,
          call_with-served t callbacks translate connected,
          served_state port reply_port kind code code_count out.flavor old_state old_count w1 few
              short fits,
        )
        (received_state t.ndr callbacks (t.mig_dealloc_reply_port reply_port) _ _ out _ refl refl)
