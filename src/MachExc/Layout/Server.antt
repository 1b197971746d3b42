-- ===== src/MachExc/Layout/Server.antt =====
-- src/mach_excServer.c: its own copies of the structures of src/mach_exc.h, which it does not include.
use master_lib.Base.{◌≡◌, refl, List, [], ◌∷◌}
use master_lib.MachExc.Layout.{
  Name, head, msgh_body, thread, task, ndr, exception, code_count, code, flavor, old_state_count,
  old_state, ret_code, new_state_count, new_state, request_raise, request_state, request_identity,
  reply_raise, reply_state, reply_identity,
}

unfoldable server_request_raise : List Name
server_request_raise = head ∷ msgh_body ∷ thread ∷ task ∷ ndr ∷ exception ∷ code_count ∷ code ∷ []

unfoldable server_request_state : List Name
server_request_state =
    head ∷ ndr ∷ exception ∷ code_count ∷ code ∷ flavor ∷ old_state_count ∷ old_state ∷ []

unfoldable server_request_identity : List Name
server_request_identity =
    head ∷ msgh_body ∷ thread ∷ task ∷ ndr ∷ exception ∷ code_count ∷ code ∷ flavor
    ∷ old_state_count ∷ old_state ∷ []

unfoldable server_reply_raise : List Name
server_reply_raise = head ∷ ndr ∷ ret_code ∷ []

unfoldable server_reply_state : List Name
server_reply_state = head ∷ ndr ∷ ret_code ∷ flavor ∷ new_state_count ∷ new_state ∷ []

unfoldable server_reply_identity : List Name
server_reply_identity = head ∷ ndr ∷ ret_code ∷ flavor ∷ new_state_count ∷ new_state ∷ []

-- The server's copies have the members of the header's structures, in the same order.
same_structures :
    (server_request_raise ≡ request_raise)
    × (server_request_state ≡ request_state)
    × (server_request_identity ≡ request_identity)
    × (server_reply_raise ≡ reply_raise)
    × (server_reply_state ≡ reply_state)
    × (server_reply_identity ≡ reply_identity)
unfolding server_request_raise server_request_state server_request_identity server_reply_raise
    server_reply_state server_reply_identity request_raise request_state request_identity
    reply_raise reply_state reply_identity
same_structures = (refl, refl, refl, refl, refl, refl)
