-- ===== src/Client/World.antt =====
-- The state of a client: the members of `Client`, `Connection` and `Tcp_connection` of
-- include/bc/soup/client. A connection is named by its number in the store; what the user's handlers
-- are told is recorded in `calls`, the latest first.
use soupbintcp.Common.{ℕ, Bool, List, ◌∷◌, Bytes, ◌==◌, if◌then◌else◌}
use soupbintcp.Types.{PacketError, LoginRejectReason, DisconnectReason}
use soupbintcp.Error.{ErrorCode}
use soupbintcp.LogicalPackets.{LoginAcceptedPacket, LoginRequestPacket}
use soupbintcp.ConnectionState.{ConnectionState}
use soupbintcp.HeartbeatTimer.{HeartbeatTimer}
use soupbintcp.LoginTimer.{LoginTimer}
use soupbintcp.ReconnectTimer.{ReconnectTimer}
use soupbintcp.Socket.{Socket}

-- What a connection's handler can be told: the functions of `Connection_handler`. Endpoints and the
-- text that names an operation are left out.
pub data Event : Type 0 where
  connecting_to : Event
  connect_failed : ErrorCode → Event
  connect_succeeded : Event
  logging_in : LoginRequestPacket → Event
  login_failed : LoginRejectReason → Event
  login_succeeded : LoginAcceptedPacket → Event
  write_buffer_emptied : Event
  debug_arrived : Bytes → Event
  transport_failed : ErrorCode → Event
  protocol_violated : PacketError → Event
  connection_ended : DisconnectReason → Event
  reconnect_scheduled : ℕ → Event

-- `sequenced_data` and `end_of_session` are the functions of `Client_handler`.
pub data Call : Type 0 where
  connection_call : ℕ → Event → Call
  sequenced_data : ℕ → Bytes → Call
  end_of_session : Call

pub record TcpConnection : Type 0 where
  pub socket : Socket
  pub state : ConnectionState
  pub login_timer : LoginTimer
  pub heartbeat_timer : HeartbeatTimer
  pub socket_closed : Bool
  pub login_timer_stopped : Bool
  pub heartbeat_timer_stopped : Bool

-- `connection_` is an optional: `link` is its value, which is read only while `connected` is true.
pub record Connection : Type 0 where
  pub username : Bytes
  pub password : Bytes
  pub session : Bytes
  pub next_sequence_number : ℕ  -- uint64_t
  pub has_session_ended : Bool
  pub connected : Bool
  pub link : TcpConnection
  pub reconnect_timer : ReconnectTimer
  pub reconnect_next_delay : ℕ  -- seconds

pub record World : Type 0 where
  pub write_packets_limit : ℕ
  pub connections : List ℕ
  pub connection_at : ℕ → Connection
  pub next_sequence_number : ℕ  -- uint64_t
  pub has_session_ended : Bool
  pub started : Bool
  pub calls : List Call

-- What Asio answers when a connection opens its socket or starts its timers.
pub record Asio : Type 0 where
  pub open_error : ErrorCode
  pub no_delay_error : ErrorCode
  pub login_expires : ErrorCode
  pub heartbeat_expires : ErrorCode
  pub heartbeat_expires_later : ErrorCode
  pub reconnect_expires : ErrorCode

abbrev pub put_connection : World → ℕ → Connection → World
put_connection w i c = record w { connection_at = λ j. if i == j then c else w.connection_at j }

abbrev pub put_link : World → ℕ → TcpConnection → World
put_link w i t = put_connection w i (record (w.connection_at i) { link = t })

abbrev pub call : World → Call → World
call w c = record w { calls = c ∷ w.calls }

-- `handler_->…` of connection `i`.
abbrev pub tell : World → ℕ → Event → World
tell w i e = call w (connection_call i e)
