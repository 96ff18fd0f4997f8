-- ===== src/Server/World.antt =====
-- The state of a running acceptor: the members of `Acceptor`, `Port` and `Tcp_connection` of
-- include/bc/soup/server. Connections and ports point to one another, so they stand in stores, and a
-- pointer is the number of an entry. A handler is a number too; what the user's handlers are told is
-- recorded in `calls`, the latest first.
use soupbintcp.Common.{ℕ, Bool, Option, none, some, List, ◌∷◌, Bytes, ◌==◌, if◌then◌else◌}
use soupbintcp.Types.{PacketError, LoginRejectReason, DisconnectReason}
use soupbintcp.Error.{ErrorCode}
use soupbintcp.LogicalPackets.{LoginAcceptedPacket, LoginRequestPacket}
use soupbintcp.ConnectionState.{ConnectionState}
use soupbintcp.HeartbeatTimer.{HeartbeatTimer}
use soupbintcp.LoginTimer.{LoginTimer}
use soupbintcp.Socket.{Socket}

-- What a handler can be told: the functions of `Acceptor_handler` and `Port_handler`. Endpoints and
-- the text that names an operation are left out; the setup of the listening socket is in Server.Listening.
pub data Event : Type 0 where
  accept_failed : ErrorCode → Event
  connection_accepted : Event
  login_requested : LoginRequestPacket → Event
  login_failed : LoginRejectReason → Event
  login_succeeded : LoginAcceptedPacket → Event
  unsequenced_data_arrived : Bytes → Event
  logout_requested : Event
  write_buffer_emptied : Event
  debug_arrived : Bytes → Event
  transport_failed : ErrorCode → Event
  protocol_violated : PacketError → Event
  connection_ended : DisconnectReason → Event

pub data Call : Type 0 where
  acceptor_call : Event → Call
  port_call : ℕ → Event → Call

pub record TcpConnection : Type 0 where
  pub port : Option ℕ
  pub handler : Option ℕ
  pub socket : Socket
  pub state : ConnectionState
  pub login_timer : LoginTimer
  pub heartbeat_timer : HeartbeatTimer
  pub socket_closed : Bool
  pub login_timer_stopped : Bool
  pub heartbeat_timer_stopped : Bool

pub record Port : Type 0 where
  pub handler : Option ℕ
  pub username : Bytes
  pub password : Bytes
  pub next_sequence_number : ℕ  -- uint64_t
  pub has_session_ended : Bool
  pub connection : Option ℕ

pub record World : Type 0 where
  pub session : Bytes
  pub ports : List ℕ
  pub connections : List ℕ
  pub port_at : ℕ → Port
  pub connection_at : ℕ → TcpConnection
  pub calls : List Call

-- What Asio answers when a connection starts its timers: what `expires_after` of the login timer and
-- the two calls of `expires_at` of the heartbeat timer throw, or success.
pub record Asio : Type 0 where
  pub login_expires : ErrorCode
  pub heartbeat_expires : ErrorCode
  pub heartbeat_expires_later : ErrorCode

abbrev pub update {ℓ} : {A : Type ℓ} → (ℕ → A) → ℕ → A → ℕ → A
update f i a j = if i == j then a else f j

abbrev pub put_connection : World → ℕ → TcpConnection → World
put_connection w i c = record w { connection_at = update w.connection_at i c }

abbrev pub put_port : World → ℕ → Port → World
put_port w p port = record w { port_at = update w.port_at p port }

abbrev pub call : World → Call → World
call w c = record w { calls = c ∷ w.calls }

abbrev pub call_acceptor : World → Event → World
call_acceptor w e = call w (acceptor_call e)

-- `if (handler_) handler_->…; else acceptor_handler_->…;`
abbrev pub call_either : World → Option ℕ → Event → World
call_either w none e = call w (acceptor_call e)
call_either w (some h) e = call w (port_call h e)

-- A call through a handler that is known to be set.
abbrev pub call_port : World → Option ℕ → Event → World
call_port w none e = w
call_port w (some h) e = call w (port_call h e)
