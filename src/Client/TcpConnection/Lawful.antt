-- ===== src/Client/TcpConnection/Lawful.antt =====
-- The owner of a client's socket: what `Socket` asks of an owner holds of `Tcp_connection`.
use soupbintcp.Common.{if◌then◌else◌, ℕ, refl, false, arith}
use soupbintcp.Types.{DisconnectReason}
use soupbintcp.RwPackets.{ReadPacket, WritePacket, default_write_packet}
use soupbintcp.ConnectionState.{set_state, connected}
use soupbintcp.LoginTimer
use soupbintcp.LoginTimer.{LoginTimer}
use soupbintcp.Socket
use soupbintcp.Socket.{Socket}
use soupbintcp.Socket.Closing.{IsLawful, requests-IsSettled}
use soupbintcp.Client.World.{
  World, TcpConnection, Asio, put_link, tell, connect_succeeded, logging_in,
}
use soupbintcp.Client.Link
use soupbintcp.Client.Link.{link, write_to_socket}
use soupbintcp.Client.Session.{on_connect_success}
use soupbintcp.Client.TcpConnection.{
  socket_owner, connect_success, read_success, process_packet, login_owner, is_violation,
}
use soupbintcp.Client.TcpConnection.Settled.{
  IsCalm, put_socket-IsCalm, same-IsCalm, packet-IsCalm, disconnect-IsCalm, error-IsCalm,
  violation-IsCalm, connect_failure-IsCalm, login_timer-IsCalm,
}

-- The answer to a packet, and the next read.
read-IsCalm :
    (asio : Asio) (w : World) (i : ℕ) (packet : ReadPacket)
    → IsCalm w i
    → IsCalm (read_success asio w i packet) i
unfolding read_success
read-IsCalm asio w i packet h =
    let (processed, error) = process_packet asio w i packet in
    let calm : IsCalm processed i = packet-IsCalm asio w i packet h in
    let violated = violation-IsCalm processed i error calm in
    let judged : World =
      if is_violation error then Link.handle_protocol_violation processed i error else processed in
    let judged_calm : IsCalm judged i = ground (arith, calm, violated) in
    let (_, _, reads, _) =
      requests-IsSettled (link judged i).socket default_write_packet judged_calm.settled in
    let t : TcpConnection = record (link judged i) {
      socket = Socket.async_read (link judged i).socket;
    } in
    let next = put_socket-IsCalm judged i t reads in ground (arith, h, judged_calm, next)

write-IsCalm :
    (w : World) (i : ℕ) (packet : WritePacket)
    → IsCalm w i
    → IsCalm (write_to_socket w i packet).0 i
unfolding write_to_socket
write-IsCalm w i packet h =
    let (_, _, _, writes) = requests-IsSettled (link w i).socket packet h.settled in
    put_socket-IsCalm w i
      (record (link w i) { socket = (Socket.async_write (link w i).socket packet).0 }) writes

asked-IsCalm : (w : World) (i : ℕ) → IsCalm w i → IsCalm (on_connect_success w i).0 i
unfolding on_connect_success
asked-IsCalm w i h = let s = h.settled in record { settled = ground (arith, s) }

connect-IsCalm :
    (asio : Asio) (w : World) (i : ℕ) → IsCalm w i → IsCalm (connect_success asio w i) i
unfolding connect_success
connect-IsCalm asio w i h =
    let t : TcpConnection = record (link w i) { state = set_state (link w i).state connected } in
    let entered = same-IsCalm w i t refl h in
    let v : World = tell (put_link w i t) i connect_succeeded in
    let v_calm : IsCalm v i = record { settled = entered.settled } in
    let (asked, request) = on_connect_success v i in
    let asked_calm : IsCalm asked i = asked-IsCalm v i v_calm in
    let told : World = tell asked i (logging_in request) in
    let told_calm : IsCalm told i = record { settled = asked_calm.settled } in
    let t' : TcpConnection = record (link told i) { login_timer_stopped = false } in
    let armed = same-IsCalm told i t' refl told_calm in
    let timed : World = LoginTimer.start (login_owner i) (put_link told i t') asio.login_expires in
    let timed_calm : IsCalm timed i =
      login_timer-IsCalm (put_link told i t') i asio.login_expires armed in
    let (_, _, reads, _) =
      requests-IsSettled (link timed i).socket default_write_packet timed_calm.settled in
    let t'' : TcpConnection = record (link timed i) {
      socket = Socket.async_read (link timed i).socket;
    } in
    write-IsCalm (put_link timed i t'') i _ (put_socket-IsCalm timed i t'' reads)

-- The callbacks that a connection of the client hands to its socket keep the socket settled, and
-- `write_success` does not touch it.
pub socket_owner-IsLawful : (asio : Asio) (i : ℕ) → IsLawful (socket_owner asio i)
unfolding socket_owner
socket_owner-IsLawful asio i = record {
  keeping = record {
    get-put = λ w s. ground arith;
    connect_failure_keeps =
        λ w ec h. (connect_failure-IsCalm w i ec (record { settled = h })).settled;
    connect_success_keeps = λ w h. (connect-IsCalm asio w i (record { settled = h })).settled;
    read_failure_keeps = λ w ec h. (error-IsCalm w i ec (record { settled = h })).settled;
    read_violation_keeps = λ w e h. (violation-IsCalm w i e (record { settled = h })).settled;
    read_success_keeps = λ w p h. (read-IsCalm asio w i p (record { settled = h })).settled;
    read_aborted_keeps = λ w h.
        (disconnect-IsCalm w i DisconnectReason.unmanaged_abort (record { settled = h })).settled;
    read_end_of_file_keeps = λ w h.
        (disconnect-IsCalm w i DisconnectReason.peer_closed (record { settled = h })).settled;
    write_failure_keeps = λ w ec h. (error-IsCalm w i ec (record { settled = h })).settled;
    write_buffer_empty_keeps = λ w h. h;
  };
  write_success_untouched = λ w p. refl;
}
