-- ===== src/MachExc/Rpc/Identity.antt =====
-- A call of mach_exception_raise_state_identity.
use master_lib.Base.{ℕ, zero, suc, ◌+◌, ◌*◌, ◌≤◌, ◌≡◌, refl, true, List, [], ◌∷◌, arith}
use master_lib.MachExc.Message.{Message, take_words}
use master_lib.MachExc.Server.{
  Callbacks, mach_exc_server, routine, serve_identity, reply_header, state_reply,
  check_request_identity, check_counts, check_old_state, bad_descriptor,
}
use master_lib.MachExc.Client.{
  Transport, StateOut, mach_exception_raise_state_identity, state_words, port_words, request_head,
}
use master_lib.MachExc.Words.{split_code, Fits64, take_words-take_words}
use master_lib.MachExc.Rpc.{delivered, Connected}
use master_lib.MachExc.Rpc.Replies.{answer, received_state, call_with-served, within}

module _ {W : Type 0} (t : Transport W) (callbacks : Callbacks W) (translate : ℕ → ℕ)
    (connected : Connected t callbacks translate) where
  abbrev identity_request :
      (port reply_port thread task kind : ℕ)
      → List ℕ
      → (code_count flavor : ℕ) → List ℕ
      → ℕ
      → Message
  identity_request port reply_port thread task kind code code_count flavor old_state old_count =
      delivered translate
        (record {
          head = request_head true port reply_port 2407;
          words =
              port_words thread task
                (state_words t kind code code_count flavor old_state old_count);
        })
        (76 + 8 * code_count + 4 * old_count)

  identity_request-accepted :
      (port reply_port thread task kind : ℕ) (code : List ℕ) (code_count flavor : ℕ)
      (old_state : List ℕ) (old_count : ℕ)
      → code_count ≤ 2
      → old_count ≤ 224
      → check_request_identity (
          identity_request port reply_port thread task kind code code_count flavor old_state
            old_count)
        ≡ 0
  unfolding check_request_identity bad_descriptor port_words check_counts check_old_state
      state_words request_head
  identity_request-accepted port reply_port thread task kind code zero flavor old_state old_count
        few short =
      ground arith
  identity_request-accepted port reply_port thread task kind [] (suc zero) flavor old_state
        old_count few short =
      ground arith
  identity_request-accepted port reply_port thread task kind (c ∷ code) (suc zero) flavor old_state
        old_count few short =
      ground arith
  identity_request-accepted port reply_port thread task kind [] (suc (suc zero)) flavor old_state
        old_count few short =
      ground arith
  identity_request-accepted port reply_port thread task kind (c ∷ []) (suc (suc zero)) flavor
        old_state old_count few short =
      ground arith
  identity_request-accepted port reply_port thread task kind (c ∷ d ∷ code) (suc (suc zero)) flavor
        old_state old_count few short =
      ground arith
  identity_request-accepted port reply_port thread task kind code (suc (suc (suc n))) flavor
        old_state old_count few short =
      absurd (omega arith)

  served_identity :
      (port reply_port thread task kind : ℕ) (code : List ℕ) (code_count flavor : ℕ)
      (old_state : List ℕ) (old_count : ℕ) (w : W)
      → code_count ≤ 2
      → old_count ≤ 224
      → Fits64 code
      → mach_exc_server t.ndr callbacks
          (identity_request port reply_port thread task kind code code_count flavor old_state
            old_count)
          w
        ≡ (let (r, w') =
              callbacks.catch_raise_state_identity
                (translate port)
                (translate thread)
                (translate task)
                kind
                (take_words code_count code)
                code_count
                flavor
                (take_words old_count old_state)
                old_count
                224
                w in
            (
              true,
              state_reply t.ndr callbacks
                  (reply_header t.ndr callbacks
                    (identity_request port reply_port thread task kind code code_count flavor
                      old_state old_count).head)
                  r,
              w',
            ))
  unfolding mach_exc_server routine serve_identity port_words state_words request_head
  served_identity port reply_port thread task kind code zero flavor old_state old_count w few short
        fits =
      rw
        (
          identity_request-accepted port reply_port thread task kind code zero flavor old_state
              old_count few short,
          take_words-take_words,
        )
        refl
  served_identity port reply_port thread task kind [] (suc zero) flavor old_state old_count w few
        short fits =
      rw
        (
          identity_request-accepted port reply_port thread task kind [] 1 flavor old_state old_count
              few short,
          take_words-take_words,
        )
        refl
  served_identity port reply_port thread task kind (c ∷ code) (suc zero) flavor old_state old_count
        w few short fits =
      rw
        (
          identity_request-accepted port reply_port thread task kind (c ∷ code) 1 flavor old_state
              old_count few short,
          take_words-take_words,
          split_code c fits.0,
        )
        refl
  served_identity port reply_port thread task kind [] (suc (suc zero)) flavor old_state old_count w
        few short fits =
      rw
        (
          identity_request-accepted port reply_port thread task kind [] 2 flavor old_state old_count
              few short,
          take_words-take_words,
        )
        refl
  served_identity port reply_port thread task kind (c ∷ []) (suc (suc zero)) flavor old_state
        old_count w few short fits =
      rw
        (
          identity_request-accepted port reply_port thread task kind (c ∷ []) 2 flavor old_state
              old_count few short,
          take_words-take_words,
          split_code c fits.0,
        )
        refl
  served_identity port reply_port thread task kind (c ∷ d ∷ code) (suc (suc zero)) flavor old_state
        old_count w few short fits =
      rw
        (
          identity_request-accepted port reply_port thread task kind (c ∷ d ∷ code) 2 flavor
              old_state old_count few short,
          take_words-take_words,
          split_code c fits.0,
          split_code d fits.1.0,
        )
        refl
  served_identity port reply_port thread task kind code (suc (suc (suc n))) flavor old_state
        old_count w few short fits =
      absurd (omega arith)

  -- Where the message reaches the server, `mach_exception_raise_state_identity` with at most two
  -- 64-bit codes and at most 224 words of the old state is the call of
  -- `catch_mach_exception_raise_state_identity` with the same exception, codes, flavor and old state,
  -- the server's names of the three ports and room for 224 words: it returns the callback's status,
  --
  -- and where that is success, its flavor and new state. Where the callback claims more than 224 words,
  -- the reply does not fit in the client's room: it returns MACH_RCV_TOO_LARGE and gives up its reply
  -- port; or MIG_TYPE_ERROR, where so many are claimed that the 32 bits of the reply's size wrap around
  -- to what fits.
  pub mach_exception_raise_state_identity-catch :
      (port thread task kind : ℕ) (code : List ℕ) (code_count : ℕ) (old_state : List ℕ)
      (old_count : ℕ) (out : StateOut) (w : W)
      → code_count ≤ 2
      → old_count ≤ 224
      → Fits64 code
      → mach_exception_raise_state_identity t port thread task kind code code_count old_state
          old_count out w
        ≡ answer (t.mig_dealloc_reply_port (t.mig_get_reply_port w).0) out (
            callbacks.catch_raise_state_identity
              (translate port)
              (translate thread)
              (translate task)
              kind
              (take_words code_count code)
              code_count
              out.flavor
              (take_words old_count old_state)
              old_count
              224
              (t.mig_get_reply_port w).1)
  unfolding mach_exception_raise_state_identity reply_header request_head
  mach_exception_raise_state_identity-catch port thread task kind code code_count old_state
        old_count out w few short fits =
      let (reply_port, w1) = t.mig_get_reply_port w in
      rw
        (
          within code_count old_count few short,
          call_with-served t callbacks translate connected,
          served_identity port reply_port thread task kind code code_count out.flavor old_state
              old_count w1 few short fits,
        )
        (received_state t.ndr callbacks (t.mig_dealloc_reply_port reply_port) _ _ out _ refl refl)
