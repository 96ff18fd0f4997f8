-- ===== src/Server/Run/Packets.antt =====
-- The packets that a connection of a running acceptor gets.
use soupbintcp.Common.{
  ℕ, ◌≡◌, refl, true, false, ◌==◌, ==_refl, Bool-cases, Option, none, some, Option-cases, inl, inr,
  Bytes, arith,
}
use soupbintcp.Types.{DisconnectReason, LoginRejectReason}
use soupbintcp.RwPackets.{ReadPacket, read_payload_data, read_payload_size}
use soupbintcp.LogicalPackets.{
  LoginAcceptedPacket, LoginRejectedPacket, LoginRequestPacket, default_login_request,
  read_login_request, login_request_size,
}
use soupbintcp.ConnectionState.{connected, logged_in, set_state, state_eq}
use soupbintcp.Socket
use soupbintcp.Socket.{Socket}
use soupbintcp.Socket.Keeping.{IsNear}
use soupbintcp.LoginTimer
use soupbintcp.HeartbeatTimer
use soupbintcp.HeartbeatTimer.Keeping as HeartbeatKeeping
use soupbintcp.Server.World.{
  World, TcpConnection, Asio, Event, put_connection, call_port, login_requested, login_failed,
  login_succeeded, logout_requested, unsequenced_data_arrived, debug_arrived,
}
use soupbintcp.Server.Link.{handle_protocol_violation}
use soupbintcp.Server.Login
use soupbintcp.Server.Login.{find_port}
use soupbintcp.Server.Port.{LoginResult, accepted, rejected}
use soupbintcp.Server.TcpConnection.{
  heartbeat_owner, login_accepted, login_rejected, login_answered, process_login_request,
  process_unsequenced_data, process_client_heartbeat, process_logout_request, process_debug,
  is_violation, process_packet, read_success,
}
use soupbintcp.Server.Run.{is_listed}
use soupbintcp.Server.Run.Sound.{
  IsSound, IsQuiet, IsQuiet-refl, IsQuiet-trans, IsQuiet-IsSound, put_connection-IsQuiet,
  if_first-I, if-I,
}
use soupbintcp.Server.Run.Quiet.{
  aside-Goes, call_either-IsQuiet, put_socket-Goes, put_login_timer-Goes, put_heartbeat_timer-Goes,
  disconnect-IsQuiet, prepare_graceful_disconnect-IsQuiet, handle_protocol_violation-IsQuiet,
  write_to_socket-IsQuiet,
}
use soupbintcp.Server.Run.Logins.{IsEntering, entered-IsSound, Leaves, port_login-Leaves}
use soupbintcp.Server.Run.Ends.{heartbeat_owner-Keeps}

pub call_port-IsQuiet : (w : World) (o : Option ℕ) (e : Event) → IsQuiet w (call_port w o e)
call_port-IsQuiet w none e = IsQuiet-refl w
call_port-IsQuiet w (some h) e = call_either-IsQuiet w (some h) e

on_login_request-Leaves :
    (w : World) (i : ℕ) (request : LoginRequestPacket)
    → IsSound w
    → (w.connection_at i).state.state ≡ connected
    → is_listed i w.connections ≡ true
    → Leaves i (Login.on_login_request w i request).1 (Login.on_login_request w i request).0
unfolding Login.on_login_request Leaves
on_login_request-Leaves w i request h state listed =
    elim (Option-cases (find_port w.port_at w.ports request.username)) [
      | inl unknown ↦ rw (unknown, Login.on_login_request, Leaves) h
      | inr (p, found) ↦
          rw (found, Login.on_login_request) (port_login-Leaves w p i request h state listed)
    ]

login_accepted-IsSound :
    (asio : Asio) (w : World) (i : ℕ) (response : LoginAcceptedPacket)
    → IsEntering w i
    → IsSound (login_accepted asio w i response)
unfolding login_accepted
login_accepted-IsSound asio w i response h =
    let entered : World =
      put_connection w i
        (record (w.connection_at i) { state = set_state (w.connection_at i).state logged_in }) in
    let told : World = call_port entered (w.connection_at i).handler (login_succeeded response) in
    let armed =
      put_connection-IsQuiet told i
        (record (told.connection_at i) { heartbeat_timer_stopped = false })
        (aside-Goes _ _ refl refl refl (λ e. inl e)) in
    let quiet =
      IsQuiet-trans
        (call_port-IsQuiet entered (w.connection_at i).handler (login_succeeded response)) armed in
    let beating =
      HeartbeatKeeping.start-I (heartbeat_owner i) IsSound (heartbeat_owner-Keeps i) _
        asio.heartbeat_expires asio.heartbeat_expires_later
        (IsQuiet-IsSound quiet (entered-IsSound w i h)) in
    IsQuiet-IsSound (write_to_socket-IsQuiet _ i _) beating

pub login_rejected-IsQuiet :
    (w : World) (i : ℕ) (reason : LoginRejectReason) (response : LoginRejectedPacket)
    → IsQuiet w (login_rejected w i reason response)
unfolding login_rejected
login_rejected-IsQuiet w i reason response =
    IsQuiet-trans (call_either-IsQuiet w none (login_failed reason))
      (IsQuiet-trans (prepare_graceful_disconnect-IsQuiet _ i _) (write_to_socket-IsQuiet _ i _))

login_answered-IsSound :
    (asio : Asio) (w : World) (i : ℕ) (result : LoginResult)
    → Leaves i result w
    → IsSound (login_answered asio w i result)
unfolding login_answered Leaves
login_answered-IsSound asio w i (accepted response) h = login_accepted-IsSound asio w i response h
login_answered-IsSound asio w i (rejected reason response) h =
    IsQuiet-IsSound (login_rejected-IsQuiet w i reason response) h

process_login_request-IsSound :
    (asio : Asio) (w : World) (i : ℕ) (bytes : Bytes) (size : ℕ)
    → IsSound w
    → is_listed i w.connections ≡ true
    → IsSound (process_login_request asio w i bytes size).0
unfolding process_login_request
process_login_request-IsSound asio w i bytes size h listed =
    let c : TcpConnection = w.connection_at i in
    let request = read_login_request default_login_request bytes in
    let stopped =
      put_connection-IsQuiet w i _ (put_login_timer-Goes c (LoginTimer.stop c.login_timer)) in
    let asked = IsQuiet-trans stopped (call_either-IsQuiet _ none (login_requested request)) in
    elim (Bool-cases (size == login_request_size)) [
      | inr short ↦ rw short h
      | inl whole ↦ elim (Bool-cases (state_eq c.state.state connected)) [
        | inr late ↦ rw (whole, late) h
        | inl waiting ↦
            rw (whole, waiting)
              (login_answered-IsSound asio _ i _ (
                on_login_request-Leaves _ i request (IsQuiet-IsSound asked h)
                  (rw (==_refl i) (ground (arith, waiting))) listed))
      ]
    ]

count_receive-IsQuiet :
    (w : World) (i : ℕ)
    → IsQuiet w (
        put_connection w i (record (w.connection_at i) {
          heartbeat_timer =
              HeartbeatTimer.increment_receive_count (w.connection_at i).heartbeat_timer;
        }))
count_receive-IsQuiet w i = put_connection-IsQuiet w i _ (put_heartbeat_timer-Goes _ _)

pub process_unsequenced_data-IsQuiet :
    (w : World) (i : ℕ) (text : Bytes) → IsQuiet w (process_unsequenced_data w i text).0
unfolding process_unsequenced_data
process_unsequenced_data-IsQuiet w i text =
    let counted = count_receive-IsQuiet w i in
    let told =
      IsQuiet-trans counted
        (call_port-IsQuiet _ (w.connection_at i).handler (unsequenced_data_arrived text)) in
    ground (arith, IsQuiet-refl w, counted, told)

pub process_client_heartbeat-IsQuiet :
    (w : World) (i size : ℕ) → IsQuiet w (process_client_heartbeat w i size).0
unfolding process_client_heartbeat
process_client_heartbeat-IsQuiet w i size =
    ground (arith, IsQuiet-refl w, count_receive-IsQuiet w i)

pub process_logout_request-IsQuiet :
    (w : World) (i size : ℕ) → IsQuiet w (process_logout_request w i size).0
unfolding process_logout_request
process_logout_request-IsQuiet w i size =
    let left =
      IsQuiet-trans (call_port-IsQuiet w (w.connection_at i).handler logout_requested)
        (disconnect-IsQuiet _ i DisconnectReason.logout_request) in
    ground (arith, IsQuiet-refl w, left)

-- A packet, of whatever type, that a connection of the list gets.
process_packet-IsSound :
    (asio : Asio) (w : World) (i : ℕ) (packet : ReadPacket)
    → IsSound w
    → is_listed i w.connections ≡ true
    → IsSound (process_packet asio w i packet).0
unfolding process_packet process_debug
process_packet-IsSound asio w i packet h listed =
    let text = read_payload_data packet in
    let size = read_payload_size packet in
    let debug =
      IsQuiet-IsSound (call_either-IsQuiet w (w.connection_at i).handler (debug_arrived text)) h in
    let login = process_login_request-IsSound asio w i text size h listed in
    let unsequenced = IsQuiet-IsSound (process_unsequenced_data-IsQuiet w i text) h in
    let heartbeat = IsQuiet-IsSound (process_client_heartbeat-IsQuiet w i size) h in
    let logout = IsQuiet-IsSound (process_logout_request-IsQuiet w i size) h in
    if_first-I IsSound _ _ _ debug (
      if_first-I IsSound _ _ _ login (
        if_first-I IsSound _ _ _ unsequenced
          (if_first-I IsSound _ _ _ heartbeat (if_first-I IsSound _ _ _ logout h))))

async_read-IsNear : (s : Socket) → IsNear s (Socket.async_read s)
unfolding Socket.async_read Socket.read_header
async_read-IsNear s = (ground arith, λ e. ground arith)

pub read_on-IsQuiet :
    (w : World) (i : ℕ)
    → IsQuiet w (
        put_connection w i
          (record (w.connection_at i) { socket = Socket.async_read (w.connection_at i).socket }))
read_on-IsQuiet w i = put_connection-IsQuiet w i _ (put_socket-Goes _ _ (async_read-IsNear _))

pub read_success-IsSound :
    (asio : Asio) (w : World) (i : ℕ) (packet : ReadPacket)
    → IsSound w
    → is_listed i w.connections ≡ true
    → IsSound (read_success asio w i packet)
unfolding read_success
read_success-IsSound asio w i packet h listed =
    let (w', error) = process_packet asio w i packet in
    let processed = process_packet-IsSound asio w i packet h listed in
    let violated = IsQuiet-IsSound (handle_protocol_violation-IsQuiet w' i error) processed in
    let judged =
      if-I IsSound (is_violation error) (handle_protocol_violation w' i error) w' violated
        processed in
    if-I IsSound _ _ _ h (if-I IsSound _ _ _ judged (IsQuiet-IsSound (read_on-IsQuiet _ i) judged))
