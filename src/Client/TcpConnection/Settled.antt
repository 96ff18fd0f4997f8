-- ===== src/Client/TcpConnection/Settled.antt =====
-- The socket of a client's connection: whatever Asio tells the connection, its callbacks keep the
-- socket settled, so `closed` is signalled only when Asio holds no handler of the socket.
use soupbintcp.Common.{ℕ, ◌≡◌, refl, true, false, Bytes, arith}
use soupbintcp.Types.{DisconnectReason, PacketError}
use soupbintcp.Error.{ErrorCode}
use soupbintcp.LogicalPackets.{
  LoginAcceptedPacket, read_login_accepted, read_login_rejected, default_login_accepted,
  default_login_rejected,
}
use soupbintcp.RwPackets.{ReadPacket, default_write_packet, read_payload_data, read_payload_size}
use soupbintcp.ConnectionState.{set_state, logged_in}
use soupbintcp.HeartbeatTimer
use soupbintcp.HeartbeatTimer.{HeartbeatTimer}
use soupbintcp.LoginTimer
use soupbintcp.LoginTimer.{LoginTimer}
use soupbintcp.Socket.Closing.{IsSettled, requests-IsSettled}
use soupbintcp.Client.World.{
  World, TcpConnection, Asio, put_link, tell, login_succeeded, login_failed, debug_arrived,
}
use soupbintcp.Client.Link
use soupbintcp.Client.Link.{link}
use soupbintcp.Client.Session.{
  on_login_success, on_sequenced_data, client_on_sequenced_data, on_end_of_session,
  client_on_end_of_session,
}
use soupbintcp.Client.TcpConnection.{
  process_packet, process_login_accepted, process_login_rejected, process_sequenced_data,
  process_server_heartbeat, process_end_of_session, login_judged, heartbeat_owner, login_owner,
  count_receive, convert,
}

-- The socket of connection `i` is settled.
pub record IsCalm (w : World) (i : ℕ) : Type 0 where
  pub settled : IsSettled (link w i).socket

pub put_socket-IsCalm :
    (w : World) (i : ℕ) (t : TcpConnection) → IsSettled t.socket → IsCalm (put_link w i t) i
put_socket-IsCalm w i t h = record { settled = ground (arith, h) }

disconnected-IsSettled :
    (t : TcpConnection) (r : DisconnectReason)
    → IsSettled t.socket
    → IsSettled (Link.disconnected t r).socket
unfolding Link.disconnected
disconnected-IsSettled t r h =
    let (closed, _, _, _) = requests-IsSettled t.socket default_write_packet h in
    ground (arith, closed, h)

pub disconnect-IsCalm :
    (w : World) (i : ℕ) (r : DisconnectReason) → IsCalm w i → IsCalm (Link.disconnect w i r) i
unfolding Link.disconnect
disconnect-IsCalm w i r h = put_socket-IsCalm w i _ (disconnected-IsSettled (link w i) r h.settled)

pub error-IsCalm :
    (w : World) (i : ℕ) (ec : ErrorCode)
    → IsCalm w i
    → IsCalm (Link.handle_transport_error w i ec) i
unfolding Link.handle_transport_error
error-IsCalm w i ec h = disconnect-IsCalm _ i _ (record { settled = h.settled })

pub violation-IsCalm :
    (w : World) (i : ℕ) (e : PacketError)
    → IsCalm w i
    → IsCalm (Link.handle_protocol_violation w i e) i
unfolding Link.handle_protocol_violation
violation-IsCalm w i e h = disconnect-IsCalm _ i _ (record { settled = h.settled })

pub connect_failure-IsCalm :
    (w : World) (i : ℕ) (ec : ErrorCode)
    → IsCalm w i
    → IsCalm (Link.handle_connect_failure w i ec) i
unfolding Link.handle_connect_failure
connect_failure-IsCalm w i ec h = disconnect-IsCalm _ i _ (record { settled = h.settled })

beat-IsCalm :
    (w : World) (i : ℕ) (thrown later : ErrorCode)
    → IsCalm w i
    → IsCalm (HeartbeatTimer.start (heartbeat_owner i) w thrown later) i
unfolding HeartbeatTimer.start HeartbeatTimer.schedule heartbeat_owner
beat-IsCalm w i thrown later h =
    let t : HeartbeatTimer = record (link w i).heartbeat_timer { started = true } in
    let w' : World = put_link w i (record (link w i) { heartbeat_timer = t }) in
    let on : IsCalm w' i = put_socket-IsCalm w i _ h.settled in
    let waits : HeartbeatTimer = record (link w' i).heartbeat_timer { wait_pending = true } in
    ground (
      arith,
      h,
      error-IsCalm w' i thrown on,
      error-IsCalm w' i later on,
      put_socket-IsCalm w' i (record (link w' i) { heartbeat_timer = waits }) on.settled,
    )

pub login_timer-IsCalm :
    (w : World) (i : ℕ) (thrown : ErrorCode)
    → IsCalm w i
    → IsCalm (LoginTimer.start (login_owner i) w thrown) i
unfolding LoginTimer.start login_owner
login_timer-IsCalm w i thrown h =
    let t : LoginTimer = record (link w i).login_timer { started = true } in
    let w' : World = put_link w i (record (link w i) { login_timer = t }) in
    let on : IsCalm w' i = put_socket-IsCalm w i _ h.settled in
    let waits : LoginTimer = record (link w' i).login_timer { wait_pending = true } in
    ground (
      arith,
      h,
      error-IsCalm w' i thrown on,
      put_socket-IsCalm w' i (record (link w' i) { login_timer = waits }) on.settled,
    )

session-IsCalm :
    (w : World) (i : ℕ) (response : LoginAcceptedPacket)
    → IsCalm w i
    → IsCalm (on_login_success w i response).0 i
unfolding on_login_success
session-IsCalm w i response h = let s = h.settled in record { settled = ground (arith, s) }

data-IsCalm :
    (w : World) (i : ℕ) (text : Bytes) → IsCalm w i → IsCalm (on_sequenced_data w i text) i
unfolding on_sequenced_data client_on_sequenced_data
data-IsCalm w i text h = let s = h.settled in record { settled = ground (arith, s) }

end-IsCalm : (w : World) (i : ℕ) → IsCalm w i → IsCalm (on_end_of_session w i) i
unfolding on_end_of_session client_on_end_of_session
end-IsCalm w i h = let s = h.settled in record { settled = ground (arith, s) }

-- A change of the connection that leaves its socket alone.
pub same-IsCalm :
    (w : World) (i : ℕ) (t : TcpConnection)
    → t.socket ≡ (link w i).socket
    → IsCalm w i
    → IsCalm (put_link w i t) i
same-IsCalm w i t e h = put_socket-IsCalm w i t (rw e h.settled)

judged-IsCalm :
    (asio : Asio) (w : World) (i : ℕ) (response : LoginAcceptedPacket) (reason : DisconnectReason)
    → IsCalm w i
    → IsCalm (login_judged asio w i response reason) i
unfolding login_judged
judged-IsCalm asio w i response reason h =
    let told : World = tell w i (login_succeeded response) in
    let told_calm : IsCalm told i = record { settled = h.settled } in
    let t : TcpConnection = record (link told i) { heartbeat_timer_stopped = false } in
    let armed = same-IsCalm told i t refl told_calm in
    ground (
      arith,
      beat-IsCalm (put_link told i t) i asio.heartbeat_expires asio.heartbeat_expires_later armed,
      disconnect-IsCalm w i reason h,
    )

accepted-IsCalm :
    (asio : Asio) (w : World) (i : ℕ) (bytes : Bytes) (size : ℕ)
    → IsCalm w i
    → IsCalm (process_login_accepted asio w i bytes size).0 i
unfolding process_login_accepted
accepted-IsCalm asio w i bytes size h =
    let response = read_login_accepted default_login_accepted bytes in
    let t : TcpConnection = record (link w i) {
      login_timer = LoginTimer.stop (link w i).login_timer;
      state = set_state (link w i).state logged_in;
    } in
    let entered = same-IsCalm w i t refl h in
    let answered = session-IsCalm (put_link w i t) i response entered in
    let (u, reason) = on_login_success (put_link w i t) i response in
    ground (arith, h, judged-IsCalm asio u i response reason answered)

rejected-IsCalm :
    (w : World) (i : ℕ) (bytes : Bytes) (size : ℕ)
    → IsCalm w i
    → IsCalm (process_login_rejected w i bytes size).0 i
unfolding process_login_rejected
rejected-IsCalm w i bytes size h =
    let response = read_login_rejected default_login_rejected bytes in
    let t : TcpConnection = record (link w i) {
      login_timer = LoginTimer.stop (link w i).login_timer;
    } in
    let stopped = same-IsCalm w i t refl h in
    let told : World = tell (put_link w i t) i (login_failed (convert response.reason)) in
    let told_calm : IsCalm told i = record { settled = stopped.settled } in
    ground (arith, h, disconnect-IsCalm told i DisconnectReason.access_denied told_calm)

count-IsCalm : (w : World) (i : ℕ) → IsCalm w i → IsCalm (count_receive w i) i
count-IsCalm w i h =
    let timer = HeartbeatTimer.increment_receive_count (link w i).heartbeat_timer in
    same-IsCalm w i (record (link w i) { heartbeat_timer = timer }) refl h

pub packet-IsCalm :
    (asio : Asio) (w : World) (i : ℕ) (packet : ReadPacket)
    → IsCalm w i
    → IsCalm (process_packet asio w i packet).0 i
unfolding process_packet process_sequenced_data process_server_heartbeat process_end_of_session
packet-IsCalm asio w i packet h =
    let text = read_payload_data packet in
    let size = read_payload_size packet in
    let counted = count-IsCalm w i h in
    let told : IsCalm (tell w i (debug_arrived text)) i = record { settled = h.settled } in
    ground (
      arith,
      h,
      told,
      accepted-IsCalm asio w i text size h,
      rejected-IsCalm w i text size h,
      counted,
      data-IsCalm (count_receive w i) i text counted,
      end-IsCalm (count_receive w i) i counted,
    )
