-- ===== src/Server/Run/Quiet.antt =====
-- What the functions of a connection and of a port do to it, but for logins and its end.
use soupbintcp.Common.{ℕ, ◌≡◌, ◌⊎◌, refl, true, Option, none, some, inl, inr, Bytes, length, arith}
use soupbintcp.Types.{DisconnectReason, PacketError}
use soupbintcp.Error.{ErrorCode}
use soupbintcp.RwPackets.{WritePacket, new_write_packet}
use soupbintcp.LogicalPackets.{debug_type}
use soupbintcp.HeartbeatTimer
use soupbintcp.ConnectionState
use soupbintcp.ConnectionState.{
  connected, disconnected, disconnecting, initiate_disconnect, is_closing,
}
use soupbintcp.Socket
use soupbintcp.Socket.{Socket}
use soupbintcp.Socket.Keeping.{IsNear}
use soupbintcp.LoginTimer.{LoginTimer}
use soupbintcp.HeartbeatTimer.{HeartbeatTimer}
use soupbintcp.Server.World.{World, TcpConnection, Event, call_either}
use soupbintcp.Server.Link
use soupbintcp.Server.Link.{
  disconnect, prepare_graceful_disconnect, handle_transport_error, handle_protocol_violation,
  write_to_socket, send_packet, send_debug_packet,
}
use soupbintcp.Server.Run.Sound.{
  Goes, Goes-refl, IsQuiet, IsQuiet-refl, IsQuiet-trans, put_connection-IsQuiet,
}

pub put_socket-Goes :
    (c : TcpConnection) (s : Socket) → IsNear c.socket s → Goes c (record c { socket = s })
put_socket-Goes c s near = record {
  same_port = refl;
  gone = λ e. e;
  unborn = λ e. e;
  still_sane = λ h. record { closing = ground arith; signaled = ground arith; ended = h.ended };
}

-- A change of what neither the state nor the socket nor the port is told by; a connection that has
-- ended is disconnected.
pub aside-Goes :
    (c c' : TcpConnection)
    → c'.port ≡ c.port
    → c'.state ≡ c.state
    → c'.socket ≡ c.socket
    → (c'.socket_closed ≡ true → (c.socket_closed ≡ true) ⊎ (c.state.state ≡ disconnected))
    → Goes c c'
aside-Goes c c' port state socket ended = record {
  same_port = port;
  gone = λ e. ground arith;
  unborn = λ e. ground arith;
  still_sane = λ h. record {
    closing = λ e. rw state (h.closing (rw socket at e));
    signaled = λ e. rw socket (h.signaled (rw socket at e));
    ended =
        λ e. elim (ended e) [ inl before ↦ rw state (h.ended before) | inr gone ↦ rw state gone ];
  };
}

pub put_login_timer-Goes :
    (c : TcpConnection) (t : LoginTimer) → Goes c (record c { login_timer = t })
put_login_timer-Goes c t = aside-Goes c _ refl refl refl (λ e. inl e)

pub put_heartbeat_timer-Goes :
    (c : TcpConnection) (t : HeartbeatTimer) → Goes c (record c { heartbeat_timer = t })
put_heartbeat_timer-Goes c t = aside-Goes c _ refl refl refl (λ e. inl e)

disconnected-Goes :
    (c : TcpConnection) (reason : DisconnectReason) → Goes c (Link.disconnected c reason)
unfolding Link.disconnected ConnectionState.disconnect Socket.close Socket.maybe_signal_closed
    Socket.is_idle
disconnected-Goes c reason = record {
  same_port = ground arith;
  gone = λ e. ground arith;
  unborn = λ e. ground arith;
  still_sane =
      λ h. record { closing = ground arith; signaled = ground arith; ended = ground arith };
}

pub disconnect-IsQuiet :
    (w : World) (i : ℕ) (reason : DisconnectReason) → IsQuiet w (disconnect w i reason)
unfolding disconnect
disconnect-IsQuiet w i reason = put_connection-IsQuiet w i _ (disconnected-Goes _ reason)

pub prepare_graceful_disconnect-IsQuiet :
    (w : World) (i : ℕ) (reason : DisconnectReason)
    → IsQuiet w (prepare_graceful_disconnect w i reason)
unfolding prepare_graceful_disconnect initiate_disconnect is_closing
prepare_graceful_disconnect-IsQuiet w i reason = put_connection-IsQuiet w i _ (record {
  same_port = refl;
  gone = λ e. ground arith;
  unborn = λ e. ground arith;
  still_sane = λ h. record {
    closing = λ e. ground (arith, h.closing e);
    signaled = h.signaled;
    ended = λ e. ground (arith, h.ended e);
  };
})

pub call_either-IsQuiet : (w : World) (o : Option ℕ) (e : Event) → IsQuiet w (call_either w o e)
call_either-IsQuiet w none e = record {
  same_list = refl;
  same_connection = λ p. refl;
  goes = λ i. Goes-refl _;
}
call_either-IsQuiet w (some h) e = record {
  same_list = refl;
  same_connection = λ p. refl;
  goes = λ i. Goes-refl _;
}

pub handle_transport_error-IsQuiet :
    (w : World) (i : ℕ) (ec : ErrorCode) → IsQuiet w (handle_transport_error w i ec)
unfolding handle_transport_error
handle_transport_error-IsQuiet w i ec =
    IsQuiet-trans (call_either-IsQuiet w _ _) (disconnect-IsQuiet _ i _)

pub handle_protocol_violation-IsQuiet :
    (w : World) (i : ℕ) (error : PacketError) → IsQuiet w (handle_protocol_violation w i error)
unfolding handle_protocol_violation
handle_protocol_violation-IsQuiet w i error =
    IsQuiet-trans (call_either-IsQuiet w _ _) (disconnect-IsQuiet _ i _)

async_write-IsNear : (s : Socket) (packet : WritePacket) → IsNear s (Socket.async_write s packet).0
unfolding Socket.async_write Socket.write_packet
async_write-IsNear s packet = (ground arith, λ e. ground arith)

pub write_to_socket-IsQuiet :
    (w : World) (i : ℕ) (packet : WritePacket) → IsQuiet w (write_to_socket w i packet).0
unfolding write_to_socket
write_to_socket-IsQuiet w i packet =
    put_connection-IsQuiet w i _ (put_socket-Goes _ _ (async_write-IsNear _ packet))

pub send_packet-IsQuiet :
    (w : World) (i : ℕ) (packet : WritePacket) → IsQuiet w (send_packet w i packet).0
unfolding send_packet
send_packet-IsQuiet w i packet =
    let written = write_to_socket-IsQuiet w i packet in
    let c : TcpConnection = (write_to_socket w i packet).0.connection_at i in
    let counted =
      put_connection-IsQuiet (write_to_socket w i packet).0 i _
        (put_heartbeat_timer-Goes c (HeartbeatTimer.increment_send_count c.heartbeat_timer)) in
    ground (arith, IsQuiet-refl w, written, IsQuiet-trans written counted)

pub send_debug_packet-IsQuiet :
    (w : World) (i : ℕ) (text : Bytes) → IsQuiet w (send_debug_packet w i text).0
unfolding send_debug_packet
send_debug_packet-IsQuiet w i text = ground (
  arith,
  IsQuiet-refl w,
  write_to_socket-IsQuiet w i (new_write_packet debug_type text (length text)),
)
