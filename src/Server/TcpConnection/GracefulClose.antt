-- ===== src/Server/TcpConnection/GracefulClose.antt =====
-- How a connection ends after a login was refused: `prepare_graceful_disconnect` lets the rejection be
-- written, and `write_success` disconnects.
use soupbintcp.Common.{ℕ, ◌≡◌, ap, ◌∙◌, true, false, List, ◌∷◌, ==_refl, arith}
use soupbintcp.Error.{success}
use soupbintcp.RwPackets.{WritePacket, wire_size}
use soupbintcp.ConnectionState
use soupbintcp.ConnectionState.{ConnectionState, disconnecting, disconnected}
use soupbintcp.Socket
use soupbintcp.Socket.{Socket, pop_front}
use soupbintcp.Socket.Writing.{popped, write_completed-get, next_packet-get}
use soupbintcp.Server.World.{World, TcpConnection, Asio, put_connection}
use soupbintcp.Server.Link
use soupbintcp.Server.TcpConnection.{socket_owner, write_success}

-- A connection that was refused: it reads nothing any more, and writes.
pub record IsLeaving (c : TcpConnection) : Type 0 where
  pub leaving : c.state.state ≡ disconnecting
  pub unread : c.socket.read_pending ≡ false
  pub unconnected : c.socket.connect_pending ≡ false
  pub writing : c.socket.write_pending ≡ true
  pub live : c.socket.closing ≡ false
  pub unsignaled : c.socket.closed_signaled ≡ false

get-put :
    (asio : Asio) (i : ℕ) (w : World) (s : Socket)
    → (socket_owner asio i).get ((socket_owner asio i).put w s) ≡ s
unfolding socket_owner
get-put asio i w s = rw (==_refl i)

-- The callback closes the socket, which signals at once that it is closed.
write_success-get :
    (w : World) (i : ℕ)
    → IsLeaving (record (w.connection_at i) {
      socket = record (w.connection_at i).socket { write_pending = true };
    })
    → (w.connection_at i).socket.write_pending ≡ false
    → ((write_success w i).connection_at i).socket ≡ record (w.connection_at i).socket {
      is_open = false;
      closing = true;
      closed_signaled = true;
    }
unfolding write_success Link.disconnect Link.disconnected Socket.close Socket.maybe_signal_closed
    Socket.is_idle ConnectionState.disconnect
write_success-get w i h idle = rw (h.leaving, ==_refl i) (ground arith)

emptied :
    (asio : Asio) (i : ℕ) (w : World)
    → (socket_owner asio i).get ((socket_owner asio i).write_buffer_empty w)
      ≡ (socket_owner asio i).get w
unfolding socket_owner
emptied asio i w = ground arith

-- A socket that is closed while Asio holds nothing of it.
abbrev pub shut : Socket → Socket
shut s = record s { is_open = false; closing = true; closed_signaled = true }

module _ (asio : Asio) (i : ℕ) where
  owner : Socket.Owner World
  owner = socket_owner asio i

  front_sent-leaving :
      (v : World) (p : WritePacket) (ps : List WritePacket)
      → IsLeaving (record (v.connection_at i) {
        socket = record (v.connection_at i).socket { write_pending = true };
      })
      → (v.connection_at i).socket.write_pending ≡ false
      → (v.connection_at i).socket.write_packets ≡ p ∷ ps
      → owner.get (Socket.front_sent owner v (wire_size p) (p ∷ ps))
        ≡ popped (shut (v.connection_at i).socket) ps
  unfolding Socket.front_sent owner
  front_sent-leaving v p ps h idle front =
      let t : World = owner.write_success v p in
      let same : owner.get t ≡ shut (v.connection_at i).socket =
        unfold socket_owner in write_success-get v i h idle in
      let rest : pop_front (owner.get t).write_packets ≡ ps =
        ap (λ (u : Socket). pop_front u.write_packets) same ∙ ap pop_front front in
      let q : Socket = record (owner.get t) { write_packets = ps } in
      let e = get-put asio i t q in
      rw (==_refl (wire_size p), rest)
        (next_packet-get owner (get-put asio i) (emptied asio i) (owner.put t q) ps (rw e)
            (rw (e, same) idle)
          ∙ ap (λ u. popped u ps) e
          ∙ ap (λ u. popped u ps) same)

signaled-shut :
    (s : Socket) (ps : List WritePacket)
    → Socket.maybe_signal_closed (popped (shut s) ps) ≡ popped (shut s) ps
unfolding Socket.maybe_signal_closed
signaled-shut s ps = ground arith

-- The write of a packet completes while the connection is being refused, with the packets `ps` behind
-- it. The socket is closed and signalled as closed at once, whatever `ps` is, and Asio is given the
-- next packet exactly if `ps` is not empty: a rejection that waits behind another packet starts to be
-- written on a socket that is closed, and is pending although `closed` has been signalled.
pub refusal_sent :
    (asio : Asio) (i : ℕ) (w : World) (p : WritePacket) (ps : List WritePacket)
    → IsLeaving (w.connection_at i)
    → (w.connection_at i).socket.write_packets ≡ p ∷ ps
    → ((Socket.write_completed (socket_owner asio i) w success (wire_size p)).connection_at
        i).socket
      ≡ popped (shut (w.connection_at i).socket) ps
unfolding owner
refusal_sent asio i w p ps h front = result
  where
    v : World
    v = put_connection w i (record (w.connection_at i) {
      socket = record (w.connection_at i).socket { write_pending = false };
    })

    here : v.connection_at i ≡ record (w.connection_at i) {
      socket = record (w.connection_at i).socket { write_pending = false };
    }
    here = rw (==_refl i)

    leaving : IsLeaving (record (v.connection_at i) {
      socket = record (v.connection_at i).socket { write_pending = true };
    })
    leaving = rw here (ground arith)

    sent :
        (owner asio i).get (Socket.front_sent (owner asio i) v (wire_size p) (p ∷ ps))
        ≡ popped (shut (w.connection_at i).socket) ps
    sent =
        front_sent-leaving asio i v p ps leaving (rw here) (rw here front)
        ∙ ap (λ (c : TcpConnection). popped (shut c.socket) ps) here

    result :
        ((Socket.write_completed (socket_owner asio i) w success (wire_size p)).connection_at
          i).socket
        ≡ popped (shut (w.connection_at i).socket) ps
    result =
        unfold socket_owner in
        (write_completed-get (owner asio i) (get-put asio i) w p ps front
          ∙ ap Socket.maybe_signal_closed sent
          ∙ signaled-shut (w.connection_at i).socket ps)
