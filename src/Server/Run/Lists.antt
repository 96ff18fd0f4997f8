-- ===== src/Server/Run/Lists.antt =====
-- A packet leaves the list of connections as it is.
use soupbintcp.Common.{ℕ, ◌≡◌, ◌∙◌, not, ◌==◌, Option-cases, inl, inr, List, Bytes, arith}
use soupbintcp.Types.{PacketError}
use soupbintcp.RwPackets.{ReadPacket, read_payload_data, read_payload_size}
use soupbintcp.LogicalPackets.{
  LoginRequestPacket, login_request_size, default_login_request, read_login_request,
}
use soupbintcp.ConnectionState.{connected, state_eq}
use soupbintcp.HeartbeatTimer.Keeping as HeartbeatKeeping
use soupbintcp.LoginTimer
use soupbintcp.Server.World.{
  World, Asio, put_connection, call_acceptor, login_requested, login_succeeded, debug_arrived,
}
use soupbintcp.Server.Link.{handle_protocol_violation}
use soupbintcp.Server.Login
use soupbintcp.Server.Login.{find_port}
use soupbintcp.Server.Port
use soupbintcp.Server.Port.{LoginResult, accepted, rejected, supersede_attached, attach}
use soupbintcp.Server.TcpConnection.{
  heartbeat_owner, heartbeat_send_due, login_accepted, login_answered, process_login_request,
  process_packet, process_debug, is_violation, read_success,
}
use soupbintcp.Server.Run.Sound.{IsQuiet, if_first-I, if-I}
use soupbintcp.Server.Run.Quiet.{
  call_either-IsQuiet, disconnect-IsQuiet, handle_transport_error-IsQuiet,
  handle_protocol_violation-IsQuiet, write_to_socket-IsQuiet,
}
use soupbintcp.Server.Run.Logins.{supersede_attached-IsQuiet}
use soupbintcp.Server.Run.Packets.{
  call_port-IsQuiet, login_rejected-IsQuiet, process_unsequenced_data-IsQuiet,
  process_client_heartbeat-IsQuiet, process_logout_request-IsQuiet, read_on-IsQuiet,
}

module _ (list : List ℕ) where
  pub record HasList (w : World) : Type 0 where
    pub same : w.connections ≡ list

  quiet-HasList : {w w' : World} → IsQuiet w w' → HasList w → HasList w'
  quiet-HasList q h = record { same = q.same_list ∙ h.same }

  heartbeat_owner-HasList : (i : ℕ) → HeartbeatKeeping.Keeps (heartbeat_owner i) HasList
  unfolding heartbeat_owner heartbeat_send_due
  heartbeat_owner-HasList i = record {
    put_keeps = λ w t h. record { same = h.same };
    heartbeat_timer_error_keeps = λ w ec h. quiet-HasList (handle_transport_error-IsQuiet w i ec) h;
    heartbeat_send_due_keeps = λ w h. quiet-HasList (write_to_socket-IsQuiet w i _) h;
    heartbeat_receive_timeout_keeps = λ w h. quiet-HasList (disconnect-IsQuiet w i _) h;
  }

  port_login-HasList :
      (w : World) (p i : ℕ) (request : LoginRequestPacket)
      → HasList w
      → HasList (Port.on_login_request w p i request).0
  unfolding Port.on_login_request attach
  port_login-HasList w p i request h =
      let superseded = quiet-HasList (supersede_attached-IsQuiet w (w.port_at p).connection) h in
      let attached : HasList (attach (supersede_attached w (w.port_at p).connection) p i) = record {
        same = superseded.same;
      } in
      record { same = ground (arith, h.same, attached.same) }

  on_login_request-HasList :
      (w : World) (i : ℕ) (request : LoginRequestPacket)
      → HasList w
      → HasList (Login.on_login_request w i request).0
  unfolding Login.on_login_request
  on_login_request-HasList w i request h =
      elim (Option-cases (find_port w.port_at w.ports request.username)) [
        | inl unknown ↦ rw (unknown, Login.on_login_request) h
        | inr (p, found) ↦ rw (found, Login.on_login_request) (port_login-HasList w p i request h)
      ]

  login_answered-HasList :
      (asio : Asio) (w : World) (i : ℕ) (result : LoginResult)
      → HasList w
      → HasList (login_answered asio w i result)
  unfolding login_answered login_accepted
  login_answered-HasList asio w i (accepted response) h =
      let told =
        quiet-HasList (call_port-IsQuiet _ (w.connection_at i).handler (login_succeeded response))
          (record { same = h.same }) in
      let beating =
        HeartbeatKeeping.start-I (heartbeat_owner i) HasList (heartbeat_owner-HasList i) _
          asio.heartbeat_expires asio.heartbeat_expires_later (record { same = told.same }) in
      quiet-HasList (write_to_socket-IsQuiet _ i _) beating
  login_answered-HasList asio w i (rejected reason response) h =
      quiet-HasList (login_rejected-IsQuiet w i reason response) h

  process_login_request-HasList :
      (asio : Asio) (w : World) (i : ℕ) (bytes : Bytes) (size : ℕ)
      → HasList w
      → HasList (process_login_request asio w i bytes size).0
  unfolding process_login_request
  process_login_request-HasList asio w i bytes size h =
      let request = read_login_request default_login_request bytes in
      let asked : World =
        call_acceptor
          (put_connection w i (record (w.connection_at i) {
            login_timer = LoginTimer.stop (w.connection_at i).login_timer;
          }))
          (login_requested request) in
      let (w', result) = Login.on_login_request asked i request in
      let answered =
        login_answered-HasList asio w' i result
          (on_login_request-HasList asked i request (record { same = h.same })) in
      if_first-I HasList (not (size == login_request_size)) (w, PacketError.incorrect_length) _ h
        (if_first-I HasList (not (state_eq (w.connection_at i).state.state connected))
          (w, PacketError.unexpected_sequence) (login_answered asio w' i result, PacketError.none) h
          answered)

  process_packet-HasList :
      (asio : Asio) (w : World) (i : ℕ) (packet : ReadPacket)
      → HasList w
      → HasList (process_packet asio w i packet).0
  unfolding process_packet process_debug
  process_packet-HasList asio w i packet h =
      let text = read_payload_data packet in
      let size = read_payload_size packet in
      if_first-I HasList _ _ _
        (quiet-HasList (call_either-IsQuiet w (w.connection_at i).handler (debug_arrived text)) h)
        (if_first-I HasList _ _ _ (process_login_request-HasList asio w i text size h) (
          if_first-I HasList _ _ _ (quiet-HasList (process_unsequenced_data-IsQuiet w i text) h) (
            if_first-I HasList _ _ _ (quiet-HasList (process_client_heartbeat-IsQuiet w i size) h) (
              if_first-I HasList _ _ _ (quiet-HasList (process_logout_request-IsQuiet w i size) h)
                h))))

  pub read_success-HasList :
      (asio : Asio) (w : World) (i : ℕ) (packet : ReadPacket)
      → HasList w
      → HasList (read_success asio w i packet)
  unfolding read_success
  read_success-HasList asio w i packet h =
      let (w', error) = process_packet asio w i packet in
      let processed = process_packet-HasList asio w i packet h in
      let violated = quiet-HasList (handle_protocol_violation-IsQuiet w' i error) processed in
      let judged =
        if-I HasList (is_violation error) (handle_protocol_violation w' i error) w' violated
          processed in
      if-I HasList _ _ _ h (if-I HasList _ _ _ judged (quiet-HasList (read_on-IsQuiet _ i) judged))
