-- ===== src/Client/TcpConnection.antt =====
-- src/client/tcp_connection.cpp: what Asio, through the socket and the timers, tells a connection of
-- the client.
pub mod Settled
pub mod Lawful
use soupbintcp.Common.{ℕ, Bool, true, false, not, Bytes, ◌==◌, if◌then◌else◌}
use soupbintcp.Constants.{login_response_timeout, server_heartbeat_timeout}
use soupbintcp.Types.{LoginRejectReason, PacketError, DisconnectReason}
use soupbintcp.Error.{failed}
use soupbintcp.LogicalPackets.{
  LoginAcceptedPacket, LoginRejectedReason, default_login_accepted, default_login_rejected,
  read_login_accepted, read_login_rejected, write_login_request, debug_type, login_accepted_type,
  login_accepted_size, login_rejected_type, login_rejected_size, login_request_type,
  login_request_size, sequenced_data_type, client_heartbeat_type, server_heartbeat_type,
  server_heartbeat_size, end_of_session_type, end_of_session_size, rejected_not_authorized,
  rejected_session_not_available,
}
use soupbintcp.RwPackets.{
  ReadPacket, read_packet_type, read_payload_data, read_payload_size, sized_write_packet,
  empty_write_packet, set_payload,
}
use soupbintcp.ConnectionState.{
  connecting, connected, logged_in, state_eq, is_closing, set_state, new_connection_state,
}
use soupbintcp.HeartbeatTimer
use soupbintcp.LoginTimer
use soupbintcp.Socket
use soupbintcp.Socket.{Socket}
use soupbintcp.Client.World.{
  World, TcpConnection, Asio, put_connection, put_link, tell, connecting_to, connect_succeeded,
  logging_in, login_failed, login_succeeded, write_buffer_emptied, debug_arrived,
}
use soupbintcp.Client.Link.{
  link, disconnect, handle_connect_failure, handle_transport_error, handle_protocol_violation,
  write_to_socket,
}
use soupbintcp.Client.Session
use soupbintcp.Client.Session.{on_connect_success, on_login_success}

-- `error != Packet_error::none`.
abbrev pub is_violation : PacketError → Bool
is_violation PacketError.none = false
is_violation _ = true

-- `reason == Disconnect_reason::none`.
abbrev pub is_taken : DisconnectReason → Bool
is_taken DisconnectReason.none = true
is_taken _ = false

abbrev put_socket : World → ℕ → Socket → World
put_socket w i s = put_link w i (record (link w i) { socket = s })

abbrev pub count_receive : World → ℕ → World
count_receive w i =
    let t : TcpConnection = link w i in
    put_link w i
      (record t { heartbeat_timer = HeartbeatTimer.increment_receive_count t.heartbeat_timer })

unfoldable pub heartbeat_send_due : World → ℕ → World
heartbeat_send_due w i = (write_to_socket w i (empty_write_packet client_heartbeat_type)).0

unfoldable pub heartbeat_owner : ℕ → HeartbeatTimer.Owner World
heartbeat_owner i = record {
  get = λ w. (link w i).heartbeat_timer;
  put = λ w t. put_link w i (record (link w i) { heartbeat_timer = t });
  heartbeat_timer_error = λ w ec. handle_transport_error w i ec;
  heartbeat_send_due = λ w. heartbeat_send_due w i;
  heartbeat_receive_timeout = λ w. disconnect w i DisconnectReason.heartbeat_timeout;
}

unfoldable pub login_owner : ℕ → LoginTimer.Owner World
login_owner i = record {
  get = λ w. (link w i).login_timer;
  put = λ w t. put_link w i (record (link w i) { login_timer = t });
  login_timer_error = λ w ec. handle_transport_error w i ec;
  login_timer_expired = λ w. disconnect w i DisconnectReason.login_timeout;
}

-- The request is sent although starting the timer may have failed.
unfoldable pub connect_success : Asio → World → ℕ → World
connect_success asio w i =
    let t : TcpConnection = link w i in
    let entered = put_link w i (record t { state = set_state t.state connected }) in
    let (asked, request) = on_connect_success (tell entered i connect_succeeded) i in
    let told = tell asked i (logging_in request) in
    let armed = put_link told i (record (link told i) { login_timer_stopped = false }) in
    let timed = LoginTimer.start (login_owner i) armed asio.login_expires in
    let reading = put_socket timed i (Socket.async_read (link timed i).socket) in
    let packet =
      set_payload (sized_write_packet login_request_type login_request_size)
        (write_login_request request) in
    (write_to_socket reading i packet).0

-- The end of `process_login_accepted`, for what `on_login_success` answers.
unfoldable pub login_judged : Asio → World → ℕ → LoginAcceptedPacket → DisconnectReason → World
login_judged asio w i response reason =
    let told = tell w i (login_succeeded response) in
    let armed = put_link told i (record (link told i) { heartbeat_timer_stopped = false }) in
    if is_taken reason
    then HeartbeatTimer.start (heartbeat_owner i) armed asio.heartbeat_expires
        asio.heartbeat_expires_later
    else disconnect w i reason

unfoldable pub process_login_accepted : Asio → World → ℕ → Bytes → ℕ → World × PacketError
process_login_accepted asio w i bytes size =
    let t : TcpConnection = link w i in
    let response = read_login_accepted default_login_accepted bytes in
    let entered = put_link w i (record t {
      login_timer = LoginTimer.stop t.login_timer;
      state = set_state t.state logged_in;
    }) in
    let (answered, reason) = on_login_success entered i response in
    if not (size == login_accepted_size)
    then (w, PacketError.incorrect_length)
    else if not (state_eq t.state.state connected)
    then (w, PacketError.unexpected_sequence)
    else if response.next_sequence_number == 0
    then (w, PacketError.invalid_field_value)
    else (login_judged asio answered i response reason, PacketError.none)

-- The function `convert` of `process_login_rejected`.
unfoldable pub convert : LoginRejectedReason → LoginRejectReason
convert reason =
    if reason.underlying == rejected_not_authorized.underlying
    then LoginRejectReason.not_authorized
    else if reason.underlying == rejected_session_not_available.underlying
    then LoginRejectReason.session_not_available
    else LoginRejectReason.invalid_reject_reason

unfoldable pub process_login_rejected : World → ℕ → Bytes → ℕ → World × PacketError
process_login_rejected w i bytes size =
    let t : TcpConnection = link w i in
    let response = read_login_rejected default_login_rejected bytes in
    let stopped = put_link w i (record t { login_timer = LoginTimer.stop t.login_timer }) in
    if not (size == login_rejected_size)
    then (w, PacketError.incorrect_length)
    else if not (state_eq t.state.state connected)
    then (w, PacketError.unexpected_sequence)
    else (
      disconnect (tell stopped i (login_failed (convert response.reason))) i
          DisconnectReason.access_denied,
      PacketError.none,
    )

unfoldable pub process_sequenced_data : World → ℕ → Bytes → World × PacketError
process_sequenced_data w i text =
    if not (state_eq (link w i).state.state logged_in)
    then (w, PacketError.unexpected_sequence)
    else if (w.connection_at i).has_session_ended
    then (w, PacketError.unexpected_sequence)
    else (Session.on_sequenced_data (count_receive w i) i text, PacketError.none)

unfoldable pub process_server_heartbeat : World → ℕ → ℕ → World × PacketError
process_server_heartbeat w i size =
    if not (size == server_heartbeat_size)
    then (w, PacketError.incorrect_length)
    else if not (state_eq (link w i).state.state logged_in)
    then (w, PacketError.unexpected_sequence)
    else (count_receive w i, PacketError.none)

unfoldable pub process_end_of_session : World → ℕ → ℕ → World × PacketError
process_end_of_session w i size =
    if not (size == end_of_session_size)
    then (w, PacketError.incorrect_length)
    else if not (state_eq (link w i).state.state logged_in)
    then (w, PacketError.unexpected_sequence)
    else (Session.on_end_of_session (count_receive w i) i, PacketError.none)

unfoldable pub process_packet : Asio → World → ℕ → ReadPacket → World × PacketError
process_packet asio w i packet =
    let text = read_payload_data packet in
    let size = read_payload_size packet in
    let packet_type = read_packet_type packet in
    if packet_type == debug_type
    then (tell w i (debug_arrived text), PacketError.none)
    else if packet_type == login_accepted_type
    then process_login_accepted asio w i text size
    else if packet_type == login_rejected_type
    then process_login_rejected w i text size
    else if packet_type == sequenced_data_type
    then process_sequenced_data w i text
    else if packet_type == server_heartbeat_type
    then process_server_heartbeat w i size
    else if packet_type == end_of_session_type
    then process_end_of_session w i size
    else (w, PacketError.invalid_message_type)

unfoldable pub read_success : Asio → World → ℕ → ReadPacket → World
read_success asio w i packet =
    let (processed, error) = process_packet asio w i packet in
    let judged =
      if is_violation error then handle_protocol_violation processed i error else processed in
    if is_closing (link w i).state
    then w
    else if is_closing (link judged i).state
    then judged
    else put_socket judged i (Socket.async_read (link judged i).socket)

-- The functions of `Socket::Handler`; `write_success` does nothing.
unfoldable pub socket_owner : Asio → ℕ → Socket.Owner World
socket_owner asio i = record {
  get = λ w. (link w i).socket;
  put = λ w s. put_socket w i s;
  connect_failure = λ w ec. handle_connect_failure w i ec;
  connect_success = λ w. connect_success asio w i;
  read_failure = λ w ec. handle_transport_error w i ec;
  read_violation = λ w error. handle_protocol_violation w i error;
  read_success = λ w packet. read_success asio w i packet;
  read_aborted = λ w. disconnect w i DisconnectReason.unmanaged_abort;
  read_end_of_file = λ w. disconnect w i DisconnectReason.peer_closed;
  write_failure = λ w ec. handle_transport_error w i ec;
  write_success = λ w packet. w;
  write_buffer_empty = λ w. tell w i write_buffer_emptied;
}

-- `connection_.emplace(…)`, the constructor.
unfoldable pub construct : Asio → World → ℕ → World
construct asio w i =
    let told = tell w i connecting_to in
    let s : Socket =
      Socket.set_write_packets_limit (Socket.new_socket false) w.write_packets_limit in
    let t : TcpConnection = record {
      socket = s;
      state = new_connection_state connecting;
      login_timer = LoginTimer.new_login_timer login_response_timeout;
      heartbeat_timer = HeartbeatTimer.new_heartbeat_timer server_heartbeat_timeout;
      socket_closed = false;
      login_timer_stopped = true;
      heartbeat_timer_stopped = true;
    } in
    let made : World =
      put_connection told i (record (told.connection_at i) { connected = true; link = t }) in
    let opened = put_socket made i (Socket.open_socket s asio.open_error).0 in
    if failed asio.open_error
    then handle_connect_failure made i asio.open_error
    else if failed asio.no_delay_error
    then handle_connect_failure opened i asio.no_delay_error
    else put_socket opened i (Socket.async_connect (link opened i).socket)
