-- ===== src/Server/Port/Sending.antt =====
-- The messages of a port, and how they are counted.
use soupbintcp.Common.{
  ℕ, ◌+◌, ◌%◌, ◌≡◌, false, ◌⊎◌, Option, none, some, Bytes, arith, List, ◌++◌, ◌∷◌, [], ◌≢◌,
}
use soupbintcp.Constants.{u64_mod}
use soupbintcp.Types.{WriteError}
use soupbintcp.LogicalPackets.{sequenced_data_type}
use soupbintcp.RwPackets.{WritePacket, new_write_packet}
use soupbintcp.ConnectionState.{logged_in}
use soupbintcp.Socket
use soupbintcp.Server.World.{World}
use soupbintcp.Server.Link
use soupbintcp.Server.Port.{send_message, send_packet, count_message}

-- The packets that wait on the socket of connection `i`.
abbrev pub queue : World → ℕ → List WritePacket
queue w i = (w.connection_at i).socket.write_packets

-- What sending the message `text` to the port `p`, attached to connection `i`, did.
pub record IsSent (w : World) (p i : ℕ) (text : Bytes) (size : ℕ) (w' : World) : Type 0 where
  pub running : (w.port_at p).has_session_ended ≡ false
  pub entered : (w.connection_at i).state.state ≡ logged_in
  pub queued : queue w' i ≡ queue w i ++ new_write_packet sequenced_data_type text size ∷ []
  pub next :
      (w'.port_at p).next_sequence_number ≡ ((w.port_at p).next_sequence_number + 1) % u64_mod
  pub kept : (w'.port_at p).connection ≡ some i

-- A message is either sent, and then it is the last packet that waits on the connection of the port,
-- whose session has not ended and whose connection is logged in, and the number of the next message
-- is one more modulo 2 ^ 64, or an error is returned, and then no packet that waits on that
-- connection and no port is changed.
pub send_message-IsSent :
    (w : World) (p i : ℕ) (text : Bytes) (size : ℕ)
    → (w.port_at p).connection ≡ some i
    → ((send_message w p (some text) size).1 ≡ WriteError.none)
        × IsSent w p i text size (send_message w p (some text) size).0
      ⊎ ((send_message w p (some text) size).1 ≢ WriteError.none)
        × (queue (send_message w p (some text) size).0 i ≡ queue w i)
        × ((send_message w p (some text) size).0.port_at ≡ w.port_at)
unfolding send_message count_message send_packet Link.send_packet Link.write_to_socket
    Socket.async_write Socket.write_packet
send_message-IsSent w p i text size attached = ground arith

-- A port without a connection sends nothing: the state stays as it is and an error is returned.
pub send_message-detached :
    (w : World) (p : ℕ) (message : Option Bytes) (size : ℕ)
    → (w.port_at p).connection ≡ none
    → ((send_message w p message size).1 ≢ WriteError.none)
      × ((send_message w p message size).0 ≡ w)
unfolding send_message count_message send_packet
send_message-detached w p message size detached = ground arith
