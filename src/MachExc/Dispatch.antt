-- ===== src/MachExc/Dispatch.antt =====
-- mach_exc_server against mach_exc_server_routine.
use master_lib.Base.{ℕ, ◌≡◌, true, false, none, some, arith}
use master_lib.MachExc.Message.{Message, mig_bad_id}
use master_lib.MachExc.Server.{
  Callbacks, code_reply, reply_header, mach_exc_server, mach_exc_server_routine,
}

module _ {S : Type 0} (ndr : ℕ × ℕ) (callbacks : Callbacks S) where
  -- `mach_exc_server` runs the routine that `mach_exc_server_routine` finds, on the header of the
  -- reply, and returns true; where there is none, it replies MIG_BAD_ID, returns false, and calls
  -- nothing.
  mach_exc_server-routine :
      (m : Message) (s : S)
      → mach_exc_server ndr callbacks m s ≡ elim (mach_exc_server_routine ndr callbacks m) [
        | none ↦ (false, code_reply ndr callbacks (reply_header ndr callbacks m.head) mig_bad_id, s)
        | some f ↦
            (let (reply, s') = f m (reply_header ndr callbacks m.head) s in (true, reply, s'))
      ]
  unfolding mach_exc_server mach_exc_server_routine
  mach_exc_server-routine m s = ground arith
