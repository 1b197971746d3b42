-- ===== src/ExceptionHandler/Daemon/Refused.antt =====
-- The calls mach_exception_raise_state and mach_exception_raise_state_identity of
-- src/mach_excUser.c at the functions of src/exception_handler.cc that refuse them.
use master_lib.Base.{
  ℕ, ◌≤◌, ◌≡◌, refl, ◌∙◌, true, false, Bool-cases, inl, inr, List, ◌||◌, ltb, arith, if◌then◌else◌,
}
use master_lib.Base.Run.{Cmd}
use master_lib.Host.{Target}
use master_lib.Mach.{Kernel, kern_failure}
use master_lib.ThreadState.{ThreadState}
use master_lib.MachExc.Message.{mig_array_too_large}
use master_lib.MachExc.Client.{
  Transport, StateOut, mach_exception_raise_state, mach_exception_raise_state_identity,
}
use master_lib.MachExc.Words.{Fits64}
use master_lib.MachExc.Rpc.{Connected}
use master_lib.MachExc.Rpc.State.{mach_exception_raise_state-catch}
use master_lib.MachExc.Rpc.Identity.{mach_exception_raise_state_identity-catch}
use master_lib.ExceptionHandler.{
  Session, catch_mach_exception_raise_state, catch_mach_exception_raise_state_identity,
}
use master_lib.ExceptionHandler.Daemon.{Life, alive, session_callbacks}

abbrev pub refusal : (code_count old_count : ℕ) → ℕ
refusal code_count old_count =
    if ltb 2 code_count || ltb 224 old_count then mig_array_too_large else kern_failure

module _ {W : Type 0} (k : Kernel W) (t : Target)
    (invoke : ℕ → ThreadState → Cmd (Session W) ThreadState) (net : Transport (Life W))
    (translate : ℕ → ℕ) (connected : Connected net (session_callbacks k t invoke) translate)
    (port thread task kind : ℕ) (code : List ℕ) (code_count : ℕ) (old_state : List ℕ)
    (old_count : ℕ) (out : StateOut) (s : Session W) where
  few_codes : (ltb 2 code_count || ltb 224 old_count) ≡ false → code_count ≤ 2
  few_codes h = ground arith

  short_state : (ltb 2 code_count || ltb 224 old_count) ≡ false → old_count ≤ 224
  short_state h = ground arith

  sent_state :
      (ltb 2 code_count || ltb 224 old_count) ≡ false
      → Fits64 code
      → (net.mig_get_reply_port (alive s)).1 ≡ alive s
      → mach_exception_raise_state net port kind code code_count old_state old_count out (alive s)
        ≡ (kern_failure, out, alive s)
  unfolding session_callbacks catch_mach_exception_raise_state
  sent_state h fits kept =
      mach_exception_raise_state-catch net (session_callbacks k t invoke) translate connected port
        kind code code_count old_state old_count out (alive s) (few_codes h) (short_state h) fits
      ∙ rw kept refl

  sent_identity :
      (ltb 2 code_count || ltb 224 old_count) ≡ false
      → Fits64 code
      → (net.mig_get_reply_port (alive s)).1 ≡ alive s
      → mach_exception_raise_state_identity net port thread task kind code code_count old_state
          old_count out
          (alive s)
        ≡ (kern_failure, out, alive s)
  unfolding session_callbacks catch_mach_exception_raise_state_identity
  sent_identity h fits kept =
      mach_exception_raise_state_identity-catch net (session_callbacks k t invoke) translate
        connected port thread task kind code code_count old_state old_count out (alive s)
        (few_codes h) (short_state h) fits
      ∙ rw kept refl

  too_long :
      (ltb 2 code_count || ltb 224 old_count) ≡ true
      → (mach_exception_raise_state net port kind code code_count old_state old_count out (alive s)
          ≡ (mig_array_too_large, out, alive s))
        × (mach_exception_raise_state_identity net port thread task kind code code_count old_state
              old_count out
              (alive s)
            ≡ (mig_array_too_large, out, alive s))
  unfolding mach_exception_raise_state mach_exception_raise_state_identity
  too_long h = (rw h refl, rw h refl)

  -- Where a client's messages reach the debugger, whose handlers are alive and stay so while the
  -- client takes its reply port: `mach_exception_raise_state` and
  -- `mach_exception_raise_state_identity` with 64-bit codes change nothing in the debugger and nothing
  -- behind the client's pointers. They return KERN_FAILURE, or MIG_ARRAY_TOO_LARGE with more than two
  -- codes or more than 224 words of the old state.
  pub mach_exception_raise_state-refused :
      Fits64 code
      → (net.mig_get_reply_port (alive s)).1 ≡ alive s
      → (mach_exception_raise_state net port kind code code_count old_state old_count out (alive s)
          ≡ (refusal code_count old_count, out, alive s))
        × (mach_exception_raise_state_identity net port thread task kind code code_count old_state
              old_count out
              (alive s)
            ≡ (refusal code_count old_count, out, alive s))
  mach_exception_raise_state-refused fits kept =
      elim (Bool-cases (ltb 2 code_count || ltb 224 old_count)) [
        | inl many ↦ let (a, b) = too_long many in rw many (a, b)
        | inr few ↦ rw few (sent_state few fits kept, sent_identity few fits kept)
      ]
