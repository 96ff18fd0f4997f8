-- ===== src/Server/Link.antt =====
-- What the owners of a connection ask of it, and how it disconnects: the functions of
-- src/server/tcp_connection.cpp that the acceptor and the ports call.
use soupbintcp.Common.{ℕ, Bool, true, false, not, ◌&&◌, ◌||◌, Bytes, length, ◌==◌, if◌then◌else◌}
use soupbintcp.Types.{PacketError, DisconnectReason, WriteError}
use soupbintcp.Error.{ErrorCode}
use soupbintcp.LogicalPackets.{sequenced_data_type, debug_type}
use soupbintcp.RwPackets.{WritePacket, write_packet_type, new_write_packet}
use soupbintcp.ConnectionState
use soupbintcp.ConnectionState.{
  ConnectionState, connecting, logged_in, state_eq, is_closing, initiate_disconnect,
}
use soupbintcp.HeartbeatTimer
use soupbintcp.LoginTimer
use soupbintcp.Socket
use soupbintcp.Server.World.{
  World, TcpConnection, put_connection, call_either, transport_failed, protocol_violated,
}

-- `error == Write_error::none`.
abbrev pub written : WriteError → Bool
written WriteError.none = true
written _ = false

-- `disconnect` on the connection itself.
unfoldable pub disconnected : TcpConnection → DisconnectReason → TcpConnection
disconnected c reason =
    let (state, changed) = ConnectionState.disconnect c.state reason in
    if not changed then c else record c {
      state = state;
      socket = Socket.close c.socket;
      login_timer = LoginTimer.stop c.login_timer;
      heartbeat_timer = HeartbeatTimer.stop c.heartbeat_timer;
    }

unfoldable pub disconnect : World → ℕ → DisconnectReason → World
disconnect w i reason = put_connection w i (disconnected (w.connection_at i) reason)

unfoldable pub close : World → ℕ → World
close w i = disconnect w i DisconnectReason.user_initiated

unfoldable pub supersede : World → ℕ → World
supersede w i = disconnect w i DisconnectReason.superseded

unfoldable pub prepare_graceful_disconnect : World → ℕ → DisconnectReason → World
prepare_graceful_disconnect w i reason =
    let c : TcpConnection = w.connection_at i in
    put_connection w i (record c { state = (initiate_disconnect c.state reason).0 })

unfoldable pub handle_transport_error : World → ℕ → ErrorCode → World
handle_transport_error w i ec =
    disconnect (call_either w (w.connection_at i).handler (transport_failed ec)) i
      DisconnectReason.transport_error

unfoldable pub handle_protocol_violation : World → ℕ → PacketError → World
handle_protocol_violation w i error =
    disconnect (call_either w (w.connection_at i).handler (protocol_violated error)) i
      DisconnectReason.protocol_violation

-- `socket_.async_write`.
unfoldable pub write_to_socket : World → ℕ → WritePacket → World × WriteError
write_to_socket w i packet =
    let c : TcpConnection = w.connection_at i in
    let (socket, error) = Socket.async_write c.socket packet in
    (put_connection w i (record c { socket = socket }), error)

unfoldable pub send_packet : World → ℕ → WritePacket → World × WriteError
unfolding write_to_socket
send_packet w i packet =
    let (w', error) = write_to_socket w i packet in
    let c : TcpConnection = w'.connection_at i in
    let timer = HeartbeatTimer.increment_send_count c.heartbeat_timer in
    let counted = put_connection w' i (record c { heartbeat_timer = timer }) in
    if not (state_eq (w.connection_at i).state.state logged_in)
    then (w, WriteError.not_logged_in)
    else (
      if write_packet_type packet == sequenced_data_type && written error then counted else w',
      error,
    )

unfoldable pub send_debug_packet : World → ℕ → Bytes → World × WriteError
unfolding write_to_socket
send_debug_packet w i text =
    let c : TcpConnection = w.connection_at i in
    if state_eq c.state.state connecting || is_closing c.state
    then (w, WriteError.disconnected)
    else write_to_socket w i (new_write_packet debug_type text (length text))
