-- ===== src/MachExc/Message.antt =====
-- src/mach_excServer.c, src/mach_excUser.c: the messages of the subsystem. A message is its header
-- and the 32-bit words after the header, in the order of the machine (little-endian). The structures
-- of the source are overlays of these words, so the fields after `code` move with `codeCnt`.
use master_lib.Base.{ℕ, zero, suc, ◌+◌, ◌*◌, ◌/◌, ◌%◌, ◌^◌, Bool, List, [], ◌∷◌, get_or}

-- mach_msg_header_t: msgh_bits as its parts; the two ports under the machine's names.
pub record Header : Type 0 where
  pub complex : Bool
  pub remote_bits : ℕ
  pub local_bits : ℕ
  pub size : ℕ
  pub remote_port : ℕ
  pub local_port : ℕ
  pub id : ℕ

pub record Message : Type 0 where
  pub head : Header
  pub words : List ℕ

-- Documented values of <mach/message.h> and <mach/mig_errors.h>; the errors -300, -301, -303, -304,
-- -307 and -308 as 32-bit words.
abbrev pub mig_type_error : ℕ
mig_type_error = 4294966996

abbrev pub mig_reply_mismatch : ℕ
mig_reply_mismatch = 4294966995

abbrev pub mig_bad_id : ℕ
mig_bad_id = 4294966993

abbrev pub mig_bad_arguments : ℕ
mig_bad_arguments = 4294966992

abbrev pub mig_array_too_large : ℕ
mig_array_too_large = 4294966989

abbrev pub mig_server_died : ℕ
mig_server_died = 4294966988

abbrev pub mach_notify_send_once : ℕ
mach_notify_send_once = 71

-- sizeof the structures, which are packed
abbrev pub raise_request_size : ℕ
raise_request_size = 84

abbrev pub state_request_size : ℕ
state_request_size = 960

abbrev pub identity_request_size : ℕ
identity_request_size = 988

abbrev pub error_reply_size : ℕ
error_reply_size = 36

abbrev pub state_reply_size : ℕ
state_reply_size = 940

-- The structures Reply of the client's stubs, which end in a mach_msg_trailer_t of 8 bytes.
abbrev pub raise_reply_room : ℕ
raise_reply_room = 44

abbrev pub state_reply_room : ℕ
state_reply_room = 948

-- MACH_RCV_TOO_LARGE
abbrev pub mach_rcv_too_large : ℕ
mach_rcv_too_large = 0x10004004

-- The word `i` of the message; past its end, of what else the receive buffer holds.
abbrev pub word : Message → ℕ → ℕ
word m i = get_or m.words i 0

abbrev pub drop_words : ℕ → List ℕ → List ℕ
drop_words zero ws = ws
drop_words (suc i) [] = []
drop_words (suc i) (w ∷ ws) = drop_words i ws

-- memcpy of `n` words
abbrev pub take_words : ℕ → List ℕ → List ℕ
take_words zero ws = []
take_words (suc n) [] = 0 ∷ take_words n []
take_words (suc n) (w ∷ ws) = w ∷ take_words n ws

-- An array of int64_t as words, and words as such an array.
abbrev pub split_codes : List ℕ → List ℕ
split_codes [] = []
split_codes (c ∷ cs) = (c % 2 ^ 32) ∷ (c / 2 ^ 32 % 2 ^ 32) ∷ split_codes cs

abbrev pub join_codes : List ℕ → List ℕ
join_codes (low ∷ (high ∷ ws)) = (low + high * 2 ^ 32) ∷ join_codes ws
join_codes _ = []

-- The last word of a mach_msg_port_descriptor_t: 16 bits of padding, the disposition, the type.
abbrev pub descriptor_word : (disposition type : ℕ) → ℕ
descriptor_word disposition type = disposition * 2 ^ 16 + type * 2 ^ 24

abbrev pub disposition : ℕ → ℕ
disposition w = w / 2 ^ 16 % 2 ^ 8

abbrev pub descriptor_type : ℕ → ℕ
descriptor_type w = w / 2 ^ 24 % 2 ^ 8
