-- ===== src/LogicalPackets.antt =====
-- include/bc/soup/logical_packets.h and src/logical_packets.cpp: the packets of the protocol and how
-- their fields stand in a payload. `read_…` takes the bytes at `data`, and a packet whose fields it
-- overwrites; `write_…` returns the bytes that it writes at `data`.
pub mod RoundTrip
use soupbintcp.Common.{ℕ, ◌+◌, [], ◌++◌, Bytes, drop}
use soupbintcp.Constants.{username_length, password_length, session_length, sequence_number_length}
use soupbintcp.Packing.Integral.{pack_u8, unpack_u8}
use soupbintcp.Packing.Alphanumeric.{
  pack_username, unpack_username, pack_password, unpack_password, pack_session, unpack_session,
}
use soupbintcp.Packing.Numeric.{pack_sequence_number, unpack_sequence_number}

-- The `packet_type` of each packet.
abbrev pub debug_type : ℕ
debug_type = b'+'

abbrev pub login_accepted_type : ℕ
login_accepted_type = b'A'

abbrev pub login_rejected_type : ℕ
login_rejected_type = b'J'

abbrev pub sequenced_data_type : ℕ
sequenced_data_type = b'S'

abbrev pub server_heartbeat_type : ℕ
server_heartbeat_type = b'H'

abbrev pub end_of_session_type : ℕ
end_of_session_type = b'Z'

abbrev pub login_request_type : ℕ
login_request_type = b'L'

abbrev pub unsequenced_data_type : ℕ
unsequenced_data_type = b'U'

abbrev pub client_heartbeat_type : ℕ
client_heartbeat_type = b'R'

abbrev pub logout_request_type : ℕ
logout_request_type = b'O'

-- The `payload_size` of the packets that have one.
abbrev pub login_accepted_size : ℕ
login_accepted_size = session_length + sequence_number_length

abbrev pub login_rejected_size : ℕ
login_rejected_size = 1

abbrev pub server_heartbeat_size : ℕ
server_heartbeat_size = 0

abbrev pub end_of_session_size : ℕ
end_of_session_size = 0

abbrev pub login_request_size : ℕ
login_request_size = username_length + password_length + session_length + sequence_number_length

abbrev pub client_heartbeat_size : ℕ
client_heartbeat_size = 0

abbrev pub logout_request_size : ℕ
logout_request_size = 0

pub record LoginAcceptedPacket : Type 0 where
  pub session : Bytes
  pub next_sequence_number : ℕ  -- uint64_t

-- `Login_accepted_packet()`.
unfoldable pub default_login_accepted : LoginAcceptedPacket
default_login_accepted = record { session = []; next_sequence_number = 1 }

unfoldable pub read_login_accepted : LoginAcceptedPacket → Bytes → LoginAcceptedPacket
read_login_accepted packet bytes = record {
  session = unpack_session packet.session bytes;
  next_sequence_number = unpack_sequence_number (drop session_length bytes);
}

unfoldable pub write_login_accepted : LoginAcceptedPacket → Bytes
write_login_accepted packet =
    pack_session packet.session ++ pack_sequence_number packet.next_sequence_number

-- `Login_rejected_reason` is an enumeration over `char`: a value is a byte, and a byte that comes from
-- the peer need not be an enumerator.
pub record LoginRejectedReason : Type 0 where
  pub underlying : ℕ

abbrev pub rejected_not_authorized : LoginRejectedReason
rejected_not_authorized = record { underlying = b'A' }

abbrev pub rejected_session_not_available : LoginRejectedReason
rejected_session_not_available = record { underlying = b'S' }

pub record LoginRejectedPacket : Type 0 where
  pub reason : LoginRejectedReason

unfoldable pub default_login_rejected : LoginRejectedPacket
default_login_rejected = record { reason = rejected_not_authorized }

unfoldable pub read_login_rejected : LoginRejectedPacket → Bytes → LoginRejectedPacket
read_login_rejected packet bytes = record { reason = record { underlying = unpack_u8 bytes } }

unfoldable pub write_login_rejected : LoginRejectedPacket → Bytes
write_login_rejected packet = pack_u8 (packet.reason.underlying)

pub record LoginRequestPacket : Type 0 where
  pub username : Bytes
  pub password : Bytes
  pub session : Bytes
  pub next_sequence_number : ℕ  -- uint64_t

unfoldable pub default_login_request : LoginRequestPacket
default_login_request = record {
  username = [];
  password = [];
  session = [];
  next_sequence_number = 0;
}

unfoldable pub read_login_request : LoginRequestPacket → Bytes → LoginRequestPacket
read_login_request packet bytes =
    let at_password : Bytes = drop username_length bytes in
    let at_session : Bytes = drop password_length at_password in
    let at_sequence_number : Bytes = drop session_length at_session in
    record {
      username = unpack_username packet.username bytes;
      password = unpack_password packet.password at_password;
      session = unpack_session packet.session at_session;
      next_sequence_number = unpack_sequence_number at_sequence_number;
    }

unfoldable pub write_login_request : LoginRequestPacket → Bytes
write_login_request packet =
    pack_username packet.username
    ++ (pack_password packet.password
        ++ (pack_session packet.session ++ pack_sequence_number packet.next_sequence_number))
