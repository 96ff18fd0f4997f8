-- ===== src/Examples/Packets.antt =====
-- Texts, packets and their bytes.
use soupbintcp.Common.{
  length-replicate, List, ℕ, ◌%◌, ◌≡◌, ◌<◌, ◌≤◌, ◌↔◌, ◌⊎◌, ◌∷◌, [], ◌++◌, Bytes, length, replicate,
  refl, arith,
}
use native.Mathlib.Nat.{le_refl}
use soupbintcp.Constants.{
  username_length, password_length, session_length, u64_mod, sequence_number_length,
}
use soupbintcp.Error.{success}
use soupbintcp.Validate.{is_alnum, validate_username, validate_password, validate_session}
use soupbintcp.Validate.Laws.{IsAlnum, Fits, validate_iff}
use soupbintcp.Packing.Alphanumeric.{unpack_username, unpack_password, unpack_session}
use soupbintcp.Packing.Alphanumeric.RoundTrip.{unpack-validates}
use soupbintcp.Validate.{is_digit}
use soupbintcp.Packing.Numeric.{pack_sequence_number, unpack_sequence_number}
use soupbintcp.Packing.Numeric.RoundTrip.{
  unpack-pack_sequence_number, unpack_sequence_number-decimal, decimal, other_byte,
}
use soupbintcp.LogicalPackets.{
  LoginAcceptedPacket, LoginRejectedPacket, LoginRequestPacket, default_login_accepted,
  read_login_accepted, write_login_accepted, default_login_request, read_login_request,
  write_login_request, login_accepted_size, login_request_size, sequenced_data_type,
  rejected_session_not_available,
}
use soupbintcp.LogicalPackets.RoundTrip.{read-write_login_accepted, read-write_login_request}
use soupbintcp.RwPackets.{
  wire_data, new_write_packet, sized_write_packet, resize_write_payload, WriteResizeResult,
  no_capacity,
}
use soupbintcp.RwPackets.Framing.{
  Outgoing, wires, receive, malformed, receive_many, receive_many-wires, receive_wrapped,
}
use soupbintcp.RwPackets.Resize.{IsBuilt, new-IsBuilt, resize-IsBuilt}

abbrev user : Bytes
user = b'u' ∷ b'1' ∷ []

abbrev spaced : Bytes
spaced = b'a' ∷ b' ' ∷ b'b' ∷ []

user-IsAlnum : IsAlnum user
unfolding is_alnum
user-IsAlnum = (refl, (refl, tt))

validate_iff_example :
    ((validate_username user ≡ success) ↔ Fits username_length user)
    × ((validate_password user ≡ success) ↔ Fits password_length user)
    × ((validate_session user ≡ success) ↔ Fits session_length user)
validate_iff_example = validate_iff user

unpack-validates_example :
    (validate_username (unpack_username [] spaced) ≡ success)
    × (validate_password (unpack_password [] spaced) ≡ success)
    × (validate_session (unpack_session [] spaced) ≡ success)
unpack-validates_example = unpack-validates spaced

unpack-pack_sequence_number_example :
    (length (pack_sequence_number 42) ≡ sequence_number_length)
    × (unpack_sequence_number (pack_sequence_number 42 ++ user) ≡ 42)
unpack-pack_sequence_number_example = unpack-pack_sequence_number 42 user (omega arith)

-- Ten spaces, digits between letters, and a number at the end; the last byte is behind the field.
abbrev field : Bytes
field = replicate 10 32 ++ 49 ∷ 50 ∷ 97 ∷ 51 ∷ 52 ∷ 53 ∷ 32 ∷ 52 ∷ 50 ∷ 55 ∷ 56 ∷ []

abbrev field_start : Bytes
field_start = replicate 10 32 ++ 49 ∷ 50 ∷ 97 ∷ 51 ∷ 52 ∷ 53 ∷ []

unpack_sequence_number-decimal_example :
    unpack_sequence_number field ≡ decimal (52 ∷ 50 ∷ 55 ∷ []) % u64_mod
unfolding is_digit
unpack_sequence_number-decimal_example =
    unpack_sequence_number-decimal field (field_start ++ 32 ∷ []) (52 ∷ 50 ∷ 55 ∷ []) refl
      (other_byte field_start 32 refl) (refl, (refl, (refl, tt)))

abbrev acceptance : LoginAcceptedPacket
acceptance = record { session = user; next_sequence_number = 7 }

read-write_login_accepted_example :
    (length (write_login_accepted acceptance) ≡ login_accepted_size)
    × (read_login_accepted default_login_accepted (write_login_accepted acceptance) ≡ acceptance)
read-write_login_accepted_example =
    read-write_login_accepted acceptance ((validate_iff user).2.1 (omega arith, user-IsAlnum))
      (omega arith)

abbrev rejection : LoginRejectedPacket
rejection = record { reason = rejected_session_not_available }

abbrev request : LoginRequestPacket
request = record { username = user; password = user; session = []; next_sequence_number = 3 }

read-write_login_request_example :
    (length (write_login_request request) ≡ login_request_size)
    × (read_login_request default_login_request (write_login_request request) ≡ request)
read-write_login_request_example =
    read-write_login_request request ((validate_iff user).0.1 (omega arith, user-IsAlnum))
      ((validate_iff user).1.1 (omega arith, user-IsAlnum))
      ((validate_iff []).2.1 (omega arith, tt)) (omega arith)

abbrev sent : List Outgoing
sent = (sequenced_data_type, user) ∷ (sequenced_data_type, []) ∷ []

receive_many-wires_example : receive_many 2 (wires sent ++ spaced) ≡ (sent, spaced)
receive_many-wires_example = receive_many-wires sent spaced (omega arith, omega arith)

receive_wrapped_example :
    (wire_data (new_write_packet sequenced_data_type (replicate 65535 0) 65535) ≡ 0 ∷ 0 ∷ [])
    × (receive
          (wire_data (new_write_packet sequenced_data_type (replicate 65535 0) 65535) ++ 1 ∷ [])
        ≡ malformed)
receive_wrapped_example =
    receive_wrapped sequenced_data_type 65535 (replicate 65535 0) 1 []
      (rw (length-replicate {A = ℕ} 65535 0) (le_refl _)) (omega arith)

resize-IsBuilt_example :
    (2 ≤ 4)
      × ((resize_write_payload (sized_write_packet sequenced_data_type 4) 2).1
          ≡ WriteResizeResult.resized)
      × IsBuilt
          (resize_write_payload (sized_write_packet sequenced_data_type 4) 2).0
          sequenced_data_type
          2
          (replicate 4 0)
    ⊎ (4 < 2)
      × (resize_write_payload (sized_write_packet sequenced_data_type 4) 2
          ≡ (sized_write_packet sequenced_data_type 4, no_capacity))
resize-IsBuilt_example =
    resize-IsBuilt (sized_write_packet sequenced_data_type 4) 2
      (new-IsBuilt sequenced_data_type 4 (omega arith))
