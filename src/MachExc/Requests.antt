-- ===== src/MachExc/Requests.antt =====
-- The bounds of what the server stubs hand to the callbacks.
use master_lib.Base.{ℕ, ◌+◌, ◌*◌, ◌≤◌, ◌≡◌, arith, true, false}
use master_lib.MachExc.Message.{Message, word, descriptor_type, disposition}
use master_lib.MachExc.Server.{
  bad_descriptor, check_old_state, check_counts, check_raise_count, check_request_raise,
  check_request_state, check_request_identity,
}

-- A request to mach_exception_raise that the check accepts has at most two codes, and is exactly as
-- long as they make it.
check_request_raise-bounds :
    (m : Message)
    → check_request_raise m ≡ 0
    → (m.head.complex ≡ true) × (word m 10 ≤ 2) × (m.head.size ≡ 68 + 8 * word m 10)
unfolding check_request_raise check_raise_count
check_request_raise-bounds m h = ground arith

check_counts-bounds :
    (m : Message) (minimum base : ℕ)
    → check_counts m minimum (base + 1) ≡ 0
    → (word m base ≤ 2)
      × (word m (base + 1 + 2 * word m base + 1) ≤ 224)
      × (m.head.size ≡ minimum + 8 * word m base + 4 * word m (base + 1 + 2 * word m base + 1))
unfolding check_counts check_old_state
check_counts-bounds m minimum base h = ground arith

-- A request to mach_exception_raise_state that the check accepts carries no ports, at most two codes
-- and at most 224 words of the old state, and is exactly as long as they make it.
check_request_state-bounds :
    (m : Message)
    → check_request_state m ≡ 0
    → (m.head.complex ≡ false)
      × (word m 3 ≤ 2)
      × (word m (4 + 2 * word m 3 + 1) ≤ 224)
      × (m.head.size ≡ 48 + 8 * word m 3 + 4 * word m (4 + 2 * word m 3 + 1))
unfolding check_request_state
check_request_state-bounds m h = ground (arith, check_counts-bounds m 48 3)

-- A request to mach_exception_raise_state_identity that the check accepts carries two descriptors,
-- both of the type of a port and with the disposition of a send right that has been moved, at most two
-- codes and at most 224 words of the old state, and is exactly as long as they make it.
pub check_request_identity-bounds :
    (m : Message)
    → check_request_identity m ≡ 0
    → (m.head.complex ≡ true)
      × (word m 0 ≡ 2)
      × (descriptor_type (word m 3) ≡ 0)
      × (disposition (word m 3) ≡ 17)
      × (descriptor_type (word m 6) ≡ 0)
      × (disposition (word m 6) ≡ 17)
      × (word m 10 ≤ 2)
      × (word m (11 + 2 * word m 10 + 1) ≤ 224)
      × (m.head.size ≡ 76 + 8 * word m 10 + 4 * word m (11 + 2 * word m 10 + 1))
unfolding check_request_identity bad_descriptor
check_request_identity-bounds m h = ground (arith, check_counts-bounds m 76 10)
