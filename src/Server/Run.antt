-- ===== src/Server/Run.antt =====
-- The steps of a running acceptor of src/server, one for each function that Asio or the user of the
-- library calls, and the states that they lead to.
pub mod Sound
pub mod Quiet
pub mod Ports
pub mod Logins
pub mod Ends
pub mod Packets
pub mod Lists
pub mod Sockets
pub mod Accepting
pub mod Reached
use soupbintcp.Common.{
  ℕ, ◌≡◌, ◌||◌, Bool, true, false, Option, none, some, List, [], ◌∷◌, Bytes, ◌==◌,
}
use soupbintcp.Error.{ErrorCode}
use soupbintcp.RwPackets.{WritePacket}
use soupbintcp.Socket.{header_completed, payload_completed, write_completed}
use soupbintcp.LoginTimer
use soupbintcp.HeartbeatTimer
use soupbintcp.Server.World.{World, Asio, put_port}
use soupbintcp.Server.TcpConnection
use soupbintcp.Server.TcpConnection.{socket_owner, login_owner, heartbeat_owner}
use soupbintcp.Server.Port
use soupbintcp.Server.Acceptor

abbrev pub is_listed : ℕ → List ℕ → Bool
is_listed i [] = false
is_listed i (j ∷ list) = i == j || is_listed i list

-- An acceptor that has not been started: it has ports, but no connection.
pub record IsIdle (w : World) : Type 0 where
  pub alone : w.connections ≡ []
  pub detached : (p : ℕ) → (w.port_at p).connection ≡ none
  pub blank : (i : ℕ) → (w.connection_at i).port ≡ none
  pub open_still : (i : ℕ) → (w.connection_at i).socket.closing ≡ false
  pub unsignaled : (i : ℕ) → (w.connection_at i).socket.closed_signaled ≡ false
  pub unclosed : (i : ℕ) → (w.connection_at i).socket_closed ≡ false

-- Connections are created under a number that no connection has, as an object is at an address that no
-- other has, and only a connection of the list is called. `closed` is called once the socket has posted it.
pub data Step (w : World) : World → Type 0 where
  connection_accepted :
      (asio : Asio) (i limit : ℕ) (banner : Bytes)
      → is_listed i w.connections ≡ false
      → Step w (Acceptor.accept_success asio w i limit banner)
  accept_failed : (ec : ErrorCode) → Step w (Acceptor.accept_failure w ec)
  header_read :
      (asio : Asio) (i n : ℕ) (ec : ErrorCode) (bytes : Bytes)
      → is_listed i w.connections ≡ true
      → Step w (header_completed (socket_owner asio i) w ec n bytes)
  payload_read :
      (asio : Asio) (i n : ℕ) (ec : ErrorCode) (bytes : Bytes)
      → is_listed i w.connections ≡ true
      → Step w (payload_completed (socket_owner asio i) w ec n bytes)
  packet_written :
      (asio : Asio) (i n : ℕ) (ec : ErrorCode)
      → is_listed i w.connections ≡ true
      → Step w (write_completed (socket_owner asio i) w ec n)
  login_waited :
      (i : ℕ) (ec : ErrorCode)
      → is_listed i w.connections ≡ true
      → Step w (LoginTimer.wait_completed (login_owner i) w ec)
  heartbeat_waited :
      (i : ℕ) (ec thrown : ErrorCode)
      → is_listed i w.connections ≡ true
      → Step w (HeartbeatTimer.wait_completed (heartbeat_owner i) w ec thrown)
  socket_closed :
      (i : ℕ)
      → is_listed i w.connections ≡ true
      → (w.connection_at i).socket.closed_signaled ≡ true
      → Step w (TcpConnection.closed w i)
  login_timer_stopped :
      (i : ℕ) → is_listed i w.connections ≡ true → Step w (TcpConnection.login_timer_stopped w i)
  heartbeat_timer_stopped :
      (i : ℕ)
      → is_listed i w.connections ≡ true
      → Step w (TcpConnection.heartbeat_timer_stopped w i)
  message_sent :
      (p : ℕ) (message : Option Bytes) (size : ℕ) → Step w (Port.send_message w p message size).0
  built_message_sent :
      (p : ℕ) (message : WritePacket) → Step w (Port.send_built_message w p message).0
  debug_sent : (p : ℕ) (text : Bytes) → Step w (Port.send_debug w p text).0
  number_set : (p n : ℕ) → Step w (put_port w p (Port.set_next_sequence_number (w.port_at p) n))
  session_ended : Step w (Acceptor.end_session w)
  stopped : Step w (Acceptor.stop w)

-- The states that steps lead to.
pub data Reachable (start : World) : World → Type 0 where
  begun : Reachable start start
  continued : (w w' : World) → Reachable start w → Step w w' → Reachable start w'
