-- ===== src/MachExc/Layout.antt =====
-- src/mach_exc.h: the structures of the requests and replies, which are packed
-- to four bytes; and the description of the subsystem of src/mach_excServer.c.
pub mod Server
use master_lib.Base.{
  ℕ, zero, suc, ◌+◌, ◌-◌, ◌*◌, ◌/◌, ◌≤◌, ◌≡◌, refl, List, [], ◌∷◌, arith, leb, ltb, ◌==◌,
  if◌then◌else◌,
}
use master_lib.MachExc.Message.{
  raise_request_size, state_request_size, identity_request_size, error_reply_size, state_reply_size,
}

-- The members' names, numbered in the order of their places.
pub data Name : Type 0 where
  head msgh_body thread task ndr exception code_count code flavor old_state_count old_state : Name
  ret_code new_state_count new_state : Name

abbrev number : Name → ℕ
number head = 0
number msgh_body = 1
number thread = 2
number task = 3
number ndr = 4
number exception = 5
number code_count = 6
number code = 7
number flavor = 8
number old_state_count = 9
number old_state = 10
number ret_code = 11
number new_state_count = 12
number new_state = 13

-- The documented sizes of the members' types: mach_msg_header_t, mach_msg_body_t,
-- mach_msg_port_descriptor_t, NDR_record_t, and 4 for the integers and counts.
abbrev size_of_member : Name → ℕ
size_of_member head = 24
size_of_member msgh_body = 4
size_of_member thread = 12
size_of_member task = 12
size_of_member ndr = 8
size_of_member code = 8 * 2
size_of_member old_state = 4 * 224
size_of_member new_state = 4 * 224
size_of_member _ = 4

unfoldable pub request_raise : List Name
request_raise = head ∷ msgh_body ∷ thread ∷ task ∷ ndr ∷ exception ∷ code_count ∷ code ∷ []

unfoldable pub request_state : List Name
request_state =
    head ∷ ndr ∷ exception ∷ code_count ∷ code ∷ flavor ∷ old_state_count ∷ old_state ∷ []

unfoldable pub request_identity : List Name
request_identity =
    head ∷ msgh_body ∷ thread ∷ task ∷ ndr ∷ exception ∷ code_count ∷ code ∷ flavor
    ∷ old_state_count ∷ old_state ∷ []

unfoldable pub reply_raise : List Name
reply_raise = head ∷ ndr ∷ ret_code ∷ []

unfoldable pub reply_state : List Name
reply_state = head ∷ ndr ∷ ret_code ∷ flavor ∷ new_state_count ∷ new_state ∷ []

unfoldable pub reply_identity : List Name
reply_identity = head ∷ ndr ∷ ret_code ∷ flavor ∷ new_state_count ∷ new_state ∷ []

-- sizeof
abbrev pub size_of : List Name → ℕ
size_of [] = 0
size_of (m ∷ ms) = size_of_member m + size_of ms

abbrev max : ℕ → ℕ → ℕ
max a b = if ltb a b then b else a

-- sizeof the union of all replies
unfoldable pub reply_union_size : ℕ
unfolding reply_raise reply_state reply_identity
reply_union_size = max (size_of reply_raise) (max (size_of reply_state) (size_of reply_identity))

-- subsystem_to_name_map_mach_exc, by the number of the routine
unfoldable pub routine_ids : List ℕ
routine_ids = 2405 ∷ 2406 ∷ 2407 ∷ []

-- catch_mach_exc_subsystem: `routine_replies` is the last column of its array.
pub record Subsystem : Type 0 where
  pub start : ℕ
  pub end_ : ℕ
  pub maxsize : ℕ
  pub routine_replies : List ℕ

unfoldable pub catch_mach_exc_subsystem : Subsystem
unfolding reply_union_size reply_raise reply_state reply_identity
catch_mach_exc_subsystem = record {
  start = 2405;
  end_ = 2408;
  maxsize = reply_union_size;
  routine_replies = size_of reply_raise ∷ size_of reply_state ∷ size_of reply_identity ∷ [];
}

-- offsetof; past the end where there is no such member
abbrev pub offset_of : Name → List Name → ℕ
offset_of m [] = 0
offset_of m (n ∷ ns) = if number m == number n then 0 else size_of_member n + offset_of m ns

-- The word after the header at which a member stands in a message with so many of its two codes: what
-- follows the codes has moved up by those that are not sent.
abbrev pub word_of : Name → (codes : ℕ) → List Name → ℕ
word_of m codes struct =
    let place = (offset_of m struct - 24) / 4 in
    if leb (number m) (number code) then place else place - 2 * (2 - codes)

abbrev pub places : (codes : ℕ) → List Name → List Name → List ℕ
places codes [] struct = []
places codes (m ∷ ms) struct = word_of m codes struct ∷ places codes ms struct

-- The members of a request from the exception on.
abbrev pub described : List Name
described = exception ∷ code_count ∷ code ∷ flavor ∷ old_state_count ∷ old_state ∷ []

-- The words at which the stubs find the ports, the exception, its codes and the old state are the
-- places of these members in a request with at most two codes; and the sizes that the checks compare
-- are the sizes of the structures.
pub places_lem :
    (n : ℕ)
    → n ≤ 2
    → (places n (thread ∷ task ∷ exception ∷ code_count ∷ code ∷ []) request_raise
        ≡ 1 ∷ 4 ∷ 9 ∷ 10 ∷ 11 ∷ [])
      × (places n described request_state
          ≡ 2 ∷ 3 ∷ 4 ∷ (4 + 2 * n) ∷ (4 + 2 * n + 1) ∷ (4 + 2 * n + 2) ∷ [])
      × (places n (thread ∷ task ∷ described) request_identity
          ≡ 1 ∷ 4 ∷ 9 ∷ 10 ∷ 11 ∷ (11 + 2 * n) ∷ (11 + 2 * n + 1) ∷ (11 + 2 * n + 2) ∷ [])
      × (size_of request_raise ≡ raise_request_size)
      × (size_of request_state ≡ state_request_size)
      × (size_of request_identity ≡ identity_request_size)
      × (catch_mach_exc_subsystem.routine_replies
          ≡ error_reply_size ∷ state_reply_size ∷ state_reply_size ∷ [])
unfolding request_raise request_state request_identity catch_mach_exc_subsystem
places_lem zero h = (refl, refl, refl, refl, refl, refl, refl)
places_lem (suc zero) h = (refl, refl, refl, refl, refl, refl, refl)
places_lem (suc (suc zero)) h = (refl, refl, refl, refl, refl, refl, refl)
places_lem (suc (suc (suc n))) h = absurd (omega (arith, h))
