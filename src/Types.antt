-- ===== src/Types.antt =====
-- include/bc/soup/types.h and src/types.cpp: the enumerations of the public interface and their
-- texts. An enumeration is a data type with the source's enumerators, so the fall-through text "?"
-- of a value outside the enumeration has no counterpart.
use Prim.Native.String.{String}

pub data PacketError : Type 0 where
  none malformed_header invalid_message_type incorrect_length invalid_field_value
        unexpected_sequence :
      PacketError

pub data LoginRejectReason : Type 0 where
  none not_authorized user_not_found incorrect_password session_not_available
        invalid_reject_reason :
      LoginRejectReason

pub data WriteError : Type 0 where
  none empty_buffer null_buffer session_ended disconnected not_logged_in buffer_full : WriteError

pub data DisconnectReason : Type 0 where
  none user_initiated superseded logout_request peer_closed connect_failure transport_error
        login_timeout heartbeat_timeout access_denied session_mismatch
        sequence_number_ahead_of_session sequence_number_too_low sequence_number_too_high
        protocol_violation unmanaged_abort :
      DisconnectReason

pub packet_error_to_string : PacketError → String
packet_error_to_string PacketError.none = "none"
packet_error_to_string malformed_header = "malformed header"
packet_error_to_string invalid_message_type = "invalid message type"
packet_error_to_string incorrect_length = "incorrect length"
packet_error_to_string invalid_field_value = "invalid field value"
packet_error_to_string unexpected_sequence = "unexpected sequence"

pub login_reject_reason_to_string : LoginRejectReason → String
login_reject_reason_to_string LoginRejectReason.none = "none"
login_reject_reason_to_string not_authorized = "not authorized"
login_reject_reason_to_string user_not_found = "user not found"
login_reject_reason_to_string incorrect_password = "incorrect password"
login_reject_reason_to_string session_not_available = "session not available"
login_reject_reason_to_string invalid_reject_reason = "invalid reject reason"

pub write_error_to_string : WriteError → String
write_error_to_string WriteError.none = "none"
write_error_to_string empty_buffer = "empty buffer"
write_error_to_string null_buffer = "null buffer"
write_error_to_string session_ended = "session ended"
write_error_to_string disconnected = "disconnected"
write_error_to_string not_logged_in = "not logged in"
write_error_to_string buffer_full = "buffer full"

pub disconnect_reason_to_string : DisconnectReason → String
disconnect_reason_to_string DisconnectReason.none = "none"
disconnect_reason_to_string user_initiated = "user initiated"
disconnect_reason_to_string superseded = "superseded"
disconnect_reason_to_string logout_request = "logout request"
disconnect_reason_to_string peer_closed = "peer closed"
disconnect_reason_to_string connect_failure = "connect failure"
disconnect_reason_to_string transport_error = "transport error"
disconnect_reason_to_string login_timeout = "login timeout"
disconnect_reason_to_string heartbeat_timeout = "heartbeat timeout"
disconnect_reason_to_string access_denied = "access denied"
disconnect_reason_to_string session_mismatch = "session mismatch"
disconnect_reason_to_string sequence_number_ahead_of_session = "sequence number ahead of session"
disconnect_reason_to_string sequence_number_too_low = "sequence number too low"
disconnect_reason_to_string sequence_number_too_high = "sequence number too high"
disconnect_reason_to_string protocol_violation = "protocol violation"
disconnect_reason_to_string unmanaged_abort = "unmanaged abort"
