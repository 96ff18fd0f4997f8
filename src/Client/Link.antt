-- ===== src/Client/Link.antt =====
-- How a connection of the client sends and disconnects: the functions of
-- src/client/tcp_connection.cpp that the others call.
use soupbintcp.Common.{ℕ, Bool, true, false, not, ◌&&◌, ◌||◌, Bytes, length, ◌==◌, if◌then◌else◌}
use soupbintcp.Types.{PacketError, DisconnectReason, WriteError}
use soupbintcp.Error.{ErrorCode}
use soupbintcp.LogicalPackets.{unsequenced_data_type, debug_type}
use soupbintcp.RwPackets.{WritePacket, write_packet_type, new_write_packet}
use soupbintcp.ConnectionState
use soupbintcp.ConnectionState.{connecting, logged_in, state_eq, is_closing}
use soupbintcp.HeartbeatTimer
use soupbintcp.LoginTimer
use soupbintcp.Socket
use soupbintcp.Client.World.{
  World, TcpConnection, put_link, tell, connect_failed, transport_failed, protocol_violated,
}

-- The connection `i` of the client, which is connected.
abbrev pub link : World → ℕ → TcpConnection
link w i = (w.connection_at i).link

-- `error == Write_error::none`.
abbrev pub written : WriteError → Bool
written WriteError.none = true
written _ = false

-- `disconnect` on the connection itself.
unfoldable pub disconnected : TcpConnection → DisconnectReason → TcpConnection
disconnected t reason =
    let (state, changed) = ConnectionState.disconnect t.state reason in
    if not changed then t else record t {
      state = state;
      socket = Socket.close t.socket;
      login_timer = LoginTimer.stop t.login_timer;
      heartbeat_timer = HeartbeatTimer.stop t.heartbeat_timer;
    }

unfoldable pub disconnect : World → ℕ → DisconnectReason → World
disconnect w i reason = put_link w i (disconnected (link w i) reason)

unfoldable pub close : World → ℕ → World
close w i = disconnect w i DisconnectReason.user_initiated

unfoldable pub handle_connect_failure : World → ℕ → ErrorCode → World
handle_connect_failure w i ec =
    disconnect (tell w i (connect_failed ec)) i DisconnectReason.connect_failure

unfoldable pub handle_transport_error : World → ℕ → ErrorCode → World
handle_transport_error w i ec =
    disconnect (tell w i (transport_failed ec)) i DisconnectReason.transport_error

unfoldable pub handle_protocol_violation : World → ℕ → PacketError → World
handle_protocol_violation w i error =
    disconnect (tell w i (protocol_violated error)) i DisconnectReason.protocol_violation

-- `socket_.async_write`.
unfoldable pub write_to_socket : World → ℕ → WritePacket → World × WriteError
write_to_socket w i packet =
    let t : TcpConnection = link w i in
    let (socket, error) = Socket.async_write t.socket packet in
    (put_link w i (record t { socket = socket }), error)

unfoldable pub send_packet : World → ℕ → WritePacket → World × WriteError
send_packet w i packet =
    let (w', error) = write_to_socket w i packet in
    let t : TcpConnection = link w' i in
    let timer = HeartbeatTimer.increment_send_count t.heartbeat_timer in
    let counted = put_link w' i (record t { heartbeat_timer = timer }) in
    if not (state_eq (link w i).state.state logged_in) then (w, WriteError.not_logged_in) else (
      if write_packet_type packet == unsequenced_data_type && written error then counted else w',
      error,
    )

unfoldable pub send_debug_packet : World → ℕ → Bytes → World × WriteError
send_debug_packet w i text =
    let t : TcpConnection = link w i in
    if state_eq t.state.state connecting || is_closing t.state
    then (w, WriteError.disconnected)
    else write_to_socket w i (new_write_packet debug_type text (length text))
