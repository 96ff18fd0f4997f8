-- ===== src/LogicalPackets/RoundTrip.antt =====
-- A packet that is written is read back, and fills its payload exactly.
use soupbintcp.Common.{
  ℕ, ◌<◌, ◌≡◌, refl, sym, ap, ◌∙◌, [], ◌++◌, append-nil, length, length-append, drop-append, arith,
}
use soupbintcp.Constants.{username_length, password_length, session_length, u64_mod, u8_mod}
use soupbintcp.Error.{success}
use soupbintcp.Validate.{validate_username, validate_password, validate_session}
use soupbintcp.Packing.Integral.{pack_u8, unpack_u8}
use soupbintcp.Packing.Alphanumeric.{pack_username, pack_password, pack_session}
use soupbintcp.Packing.Alphanumeric.RoundTrip.{pack_length, unpack-pack_valid}
use soupbintcp.Packing.Numeric.{pack_sequence_number, unpack_sequence_number}
use soupbintcp.Packing.Numeric.RoundTrip.{unpack-pack_sequence_number}
use soupbintcp.LogicalPackets.{
  LoginAcceptedPacket, LoginRejectedPacket, LoginRequestPacket, default_login_accepted,
  read_login_accepted, write_login_accepted, default_login_rejected, read_login_rejected,
  write_login_rejected, default_login_request, read_login_request, write_login_request,
  login_accepted_size, login_rejected_size, login_request_size,
}

-- A sequence number field that stands last.
read_sequence_number : (i : ℕ) → i < u64_mod → unpack_sequence_number (pack_sequence_number i) ≡ i
read_sequence_number i h =
    ap unpack_sequence_number (sym (append-nil (pack_sequence_number i)))
    ∙ (unpack-pack_sequence_number i [] h).1

-- A login acceptance whose session name is valid and whose sequence number is a `uint64_t` takes 30
-- bytes, and is read back from them.
pub read-write_login_accepted :
    (packet : LoginAcceptedPacket)
    → validate_session packet.session ≡ success
    → packet.next_sequence_number < u64_mod
    → (length (write_login_accepted packet) ≡ login_accepted_size)
      × (read_login_accepted default_login_accepted (write_login_accepted packet) ≡ packet)
unfolding read_login_accepted write_login_accepted default_login_accepted
read-write_login_accepted packet valid fits =
    let (_, _, session_fits) = pack_length packet.session in
    let number = pack_sequence_number packet.next_sequence_number in
    let (number_fits, _) = unpack-pack_sequence_number packet.next_sequence_number [] fits in
    (
      omega (arith, length-append (pack_session packet.session) number, session_fits, number_fits),
      rw (
        (unpack-pack_valid packet.session number).2 valid,
        drop-append session_length (pack_session packet.session) number (sym session_fits),
        read_sequence_number packet.next_sequence_number fits,
      ),
    )

-- A login rejection takes one byte, and its reason is read back, whichever byte it is.
pub read-write_login_rejected :
    (packet : LoginRejectedPacket)
    → packet.reason.underlying < u8_mod
    → (length (write_login_rejected packet) ≡ login_rejected_size)
      × (read_login_rejected default_login_rejected (write_login_rejected packet) ≡ packet)
unfolding read_login_rejected write_login_rejected pack_u8 unpack_u8
read-write_login_rejected packet fits = (refl, ground arith)

-- A login request whose texts are valid and whose sequence number is a `uint64_t` takes 46 bytes, and
-- is read back from them.
pub read-write_login_request :
    (packet : LoginRequestPacket)
    → validate_username packet.username ≡ success
    → validate_password packet.password ≡ success
    → validate_session packet.session ≡ success
    → packet.next_sequence_number < u64_mod
    → (length (write_login_request packet) ≡ login_request_size)
      × (read_login_request default_login_request (write_login_request packet) ≡ packet)
unfolding read_login_request write_login_request default_login_request
read-write_login_request packet valid_username valid_password valid_session fits =
    let (username_fits, _, _) = pack_length packet.username in
    let (_, password_fits, _) = pack_length packet.password in
    let (_, _, session_fits) = pack_length packet.session in
    let (number_fits, _) = unpack-pack_sequence_number packet.next_sequence_number [] fits in
    let number = pack_sequence_number packet.next_sequence_number in
    let at_session = pack_session packet.session ++ number in
    let at_password = pack_password packet.password ++ at_session in
    (
      omega (
        arith,
        length-append (pack_username packet.username) at_password,
        length-append (pack_password packet.password) at_session,
        length-append (pack_session packet.session) number,
        username_fits,
        password_fits,
        session_fits,
        number_fits,
      ),
      rw (
        (unpack-pack_valid packet.username at_password).0 valid_username,
        drop-append username_length (pack_username packet.username) at_password (sym username_fits),
        (unpack-pack_valid packet.password at_session).1 valid_password,
        drop-append password_length (pack_password packet.password) at_session (sym password_fits),
        (unpack-pack_valid packet.session number).2 valid_session,
        drop-append session_length (pack_session packet.session) number (sym session_fits),
        read_sequence_number packet.next_sequence_number fits,
      ),
    )
