-- ===== src/Server/TcpConnection.antt =====
-- include/bc/soup/server/tcp_connection.h and src/server/tcp_connection.cpp: what Asio, through the
-- socket and the timers, tells a connection.
pub mod GracefulClose
use soupbintcp.Common.{
  ℕ, Bool, true, false, not, ◌&&◌, ◌||◌, Option, none, some, List, [], ◌∷◌, ◌++◌, Bytes, ◌==◌,
  if◌then◌else◌,
}
use soupbintcp.Constants.{login_request_timeout, client_heartbeat_timeout}
use soupbintcp.Types.{LoginRejectReason, PacketError, DisconnectReason, WriteError}
use soupbintcp.Error.{ErrorCode}
use soupbintcp.LogicalPackets.{
  LoginAcceptedPacket, LoginRejectedPacket, LoginRequestPacket, default_login_request,
  read_login_request, write_login_accepted, write_login_rejected, debug_type, login_accepted_type,
  login_accepted_size, login_rejected_type, login_rejected_size, login_request_type,
  login_request_size, unsequenced_data_type, client_heartbeat_type, client_heartbeat_size,
  server_heartbeat_type, logout_request_type, logout_request_size,
}
use soupbintcp.RwPackets.{
  ReadPacket, WritePacket, read_packet_type, read_payload_data, read_payload_size,
  sized_write_packet, empty_write_packet, set_payload,
}
use soupbintcp.ConnectionState.{
  connected, logged_in, disconnecting, state_eq, is_closing, set_state, new_connection_state,
}
use soupbintcp.HeartbeatTimer
use soupbintcp.LoginTimer
use soupbintcp.Socket
use soupbintcp.Socket.{Socket}
use soupbintcp.Server.World.{
  World, TcpConnection, Asio, put_connection, put_port, call_acceptor, call_either, call_port,
  login_requested, login_failed, login_succeeded, unsequenced_data_arrived, logout_requested,
  write_buffer_emptied, debug_arrived,
}
use soupbintcp.Server.Link.{
  disconnect, prepare_graceful_disconnect, handle_transport_error, handle_protocol_violation,
  write_to_socket,
}
use soupbintcp.Server.Port
use soupbintcp.Server.Port.{LoginResult, accepted, rejected}
use soupbintcp.Server.Login

-- `error != Packet_error::none`.
abbrev pub is_violation : PacketError → Bool
is_violation PacketError.none = false
is_violation _ = true

abbrev put_socket : World → ℕ → Socket → World
put_socket w i s = put_connection w i (record (w.connection_at i) { socket = s })

-- `if (port_) port_->on_closed(*this);`
unfoldable pub detach : World → ℕ → Option ℕ → World
detach w i none = w
detach w i (some p) = put_port w p (Port.on_closed (w.port_at p) i)

unfoldable pub maybe_signal_closed : World → ℕ → World
maybe_signal_closed w i =
    let c : TcpConnection = w.connection_at i in
    if not c.socket_closed || not c.login_timer_stopped || not c.heartbeat_timer_stopped
    then w
    else Login.on_closed (detach w i c.port) i c.handler c.state.reason

unfoldable pub closed : World → ℕ → World
closed w i =
    maybe_signal_closed (put_connection w i (record (w.connection_at i) { socket_closed = true })) i

unfoldable pub login_timer_stopped : World → ℕ → World
login_timer_stopped w i =
    maybe_signal_closed
      (put_connection w i (record (w.connection_at i) { login_timer_stopped = true })) i

unfoldable pub heartbeat_timer_stopped : World → ℕ → World
heartbeat_timer_stopped w i =
    maybe_signal_closed
      (put_connection w i (record (w.connection_at i) { heartbeat_timer_stopped = true })) i

unfoldable pub heartbeat_send_due : World → ℕ → World
heartbeat_send_due w i = (write_to_socket w i (empty_write_packet server_heartbeat_type)).0

unfoldable pub heartbeat_owner : ℕ → HeartbeatTimer.Owner World
heartbeat_owner i = record {
  get = λ w. (w.connection_at i).heartbeat_timer;
  put = λ w t. put_connection w i (record (w.connection_at i) { heartbeat_timer = t });
  heartbeat_timer_error = λ w ec. handle_transport_error w i ec;
  heartbeat_send_due = λ w. heartbeat_send_due w i;
  heartbeat_receive_timeout = λ w. disconnect w i DisconnectReason.heartbeat_timeout;
}

unfoldable pub login_owner : ℕ → LoginTimer.Owner World
login_owner i = record {
  get = λ w. (w.connection_at i).login_timer;
  put = λ w t. put_connection w i (record (w.connection_at i) { login_timer = t });
  login_timer_error = λ w ec. handle_transport_error w i ec;
  login_timer_expired = λ w. disconnect w i DisconnectReason.login_timeout;
}

unfoldable pub process_debug : World → ℕ → Bytes → World
process_debug w i text = call_either w (w.connection_at i).handler (debug_arrived text)

abbrev count_receive : World → ℕ → World
count_receive w i =
    let c : TcpConnection = w.connection_at i in
    put_connection w i
      (record c { heartbeat_timer = HeartbeatTimer.increment_receive_count c.heartbeat_timer })

-- The branch of `process_login_request` for an accepted login. The packet is sent although starting
-- the timer may have failed.
unfoldable pub login_accepted : Asio → World → ℕ → LoginAcceptedPacket → World
login_accepted asio w i response =
    let c : TcpConnection = w.connection_at i in
    let entered : World = put_connection w i (record c { state = set_state c.state logged_in }) in
    let told = call_port entered c.handler (login_succeeded response) in
    let armed : World =
      put_connection told i (record (told.connection_at i) { heartbeat_timer_stopped = false }) in
    let beating =
      HeartbeatTimer.start (heartbeat_owner i) armed asio.heartbeat_expires
        asio.heartbeat_expires_later in
    let packet =
      set_payload (sized_write_packet login_accepted_type login_accepted_size)
        (write_login_accepted response) in
    (write_to_socket beating i packet).0

unfoldable pub login_rejected : World → ℕ → LoginRejectReason → LoginRejectedPacket → World
login_rejected w i reason response =
    let told = call_acceptor w (login_failed reason) in
    let leaving = prepare_graceful_disconnect told i DisconnectReason.access_denied in
    let packet =
      set_payload (sized_write_packet login_rejected_type login_rejected_size)
        (write_login_rejected response) in
    (write_to_socket leaving i packet).0

unfoldable pub login_answered : Asio → World → ℕ → LoginResult → World
login_answered asio w i (accepted response) = login_accepted asio w i response
login_answered asio w i (rejected reason response) = login_rejected w i reason response

unfoldable pub process_login_request : Asio → World → ℕ → Bytes → ℕ → World × PacketError
process_login_request asio w i bytes size =
    let c : TcpConnection = w.connection_at i in
    let request = read_login_request default_login_request bytes in
    let stopped : World =
      put_connection w i (record c { login_timer = LoginTimer.stop c.login_timer }) in
    let (answered, result) =
      Login.on_login_request (call_acceptor stopped (login_requested request)) i request in
    if not (size == login_request_size)
    then (w, PacketError.incorrect_length)
    else if not (state_eq c.state.state connected)
    then (w, PacketError.unexpected_sequence)
    else (login_answered asio answered i result, PacketError.none)

-- `port_->has_session_ended()`: a connection that is logged in has a port.
abbrev session_over : World → Option ℕ → Bool
session_over w none = true
session_over w (some p) = (w.port_at p).has_session_ended

unfoldable pub process_unsequenced_data : World → ℕ → Bytes → World × PacketError
process_unsequenced_data w i text =
    let c : TcpConnection = w.connection_at i in
    let counted = count_receive w i in
    if not (state_eq c.state.state logged_in) then (w, PacketError.unexpected_sequence) else (
      if not (session_over counted c.port)
          then call_port counted c.handler (unsequenced_data_arrived text)
          else counted,
      PacketError.none,
    )

unfoldable pub process_client_heartbeat : World → ℕ → ℕ → World × PacketError
process_client_heartbeat w i size =
    if not (size == client_heartbeat_size)
    then (w, PacketError.incorrect_length)
    else if not (state_eq (w.connection_at i).state.state logged_in)
    then (w, PacketError.unexpected_sequence)
    else (count_receive w i, PacketError.none)

unfoldable pub process_logout_request : World → ℕ → ℕ → World × PacketError
process_logout_request w i size =
    let c : TcpConnection = w.connection_at i in
    if not (size == logout_request_size)
    then (w, PacketError.incorrect_length)
    else if not (state_eq c.state.state logged_in)
    then (w, PacketError.unexpected_sequence)
    else (
      disconnect (call_port w c.handler logout_requested) i DisconnectReason.logout_request,
      PacketError.none,
    )

unfoldable pub process_packet : Asio → World → ℕ → ReadPacket → World × PacketError
process_packet asio w i packet =
    let text = read_payload_data packet in
    let size = read_payload_size packet in
    let packet_type = read_packet_type packet in
    if packet_type == debug_type
    then (process_debug w i text, PacketError.none)
    else if packet_type == login_request_type
    then process_login_request asio w i text size
    else if packet_type == unsequenced_data_type
    then process_unsequenced_data w i text
    else if packet_type == client_heartbeat_type
    then process_client_heartbeat w i size
    else if packet_type == logout_request_type
    then process_logout_request w i size
    else (w, PacketError.invalid_message_type)

unfoldable pub read_success : Asio → World → ℕ → ReadPacket → World
read_success asio w i packet =
    let (processed, error) = process_packet asio w i packet in
    let judged =
      if is_violation error then handle_protocol_violation processed i error else processed in
    if is_closing (w.connection_at i).state
    then w
    else if is_closing (judged.connection_at i).state
    then judged
    else put_socket judged i (Socket.async_read (judged.connection_at i).socket)

unfoldable pub write_success : World → ℕ → World
write_success w i =
    if state_eq (w.connection_at i).state.state disconnecting
    then disconnect w i DisconnectReason.unmanaged_abort
    else w

-- The functions of `Socket::Handler`. An accepted socket does not connect, so the source asserts
-- that the first two are not called.
unfoldable pub socket_owner : Asio → ℕ → Socket.Owner World
socket_owner asio i = record {
  get = λ w. (w.connection_at i).socket;
  put = λ w s. put_socket w i s;
  connect_failure = λ w ec. w;
  connect_success = λ w. w;
  read_failure = λ w ec. handle_transport_error w i ec;
  read_violation = λ w error. handle_protocol_violation w i error;
  read_success = λ w packet. read_success asio w i packet;
  read_aborted = λ w. disconnect w i DisconnectReason.unmanaged_abort;
  read_end_of_file = λ w. disconnect w i DisconnectReason.peer_closed;
  write_failure = λ w ec. handle_transport_error w i ec;
  write_success = λ w packet. write_success w i;
  write_buffer_empty = λ w. call_port w (w.connection_at i).handler write_buffer_emptied;
}

-- The constructor, for the accepted socket `s` and the number `i` of the connection.
unfoldable pub construct : Asio → World → ℕ → Socket → World
construct asio w i s =
    let c : TcpConnection = record {
      port = none;
      handler = none;
      socket = s;
      state = new_connection_state connected;
      login_timer = LoginTimer.new_login_timer login_request_timeout;
      heartbeat_timer = HeartbeatTimer.new_heartbeat_timer client_heartbeat_timeout;
      socket_closed = false;
      login_timer_stopped = false;
      heartbeat_timer_stopped = true;
    } in
    let timed = LoginTimer.start (login_owner i) (put_connection w i c) asio.login_expires in
    put_socket timed i (Socket.async_read (timed.connection_at i).socket)
