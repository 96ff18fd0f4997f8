-- ===== src/Examples/Clients.antt =====
-- A client with two connections, of which one is logged in and the other has just connected.
use soupbintcp.Common.{ℕ, ◌≤◌, ◌≡◌, refl, true, false, List, [], ◌∷◌, ◌==◌, if◌then◌else◌, arith}
use soupbintcp.Types.{DisconnectReason}
use soupbintcp.Error.{success}
use soupbintcp.LogicalPackets.{write_login_accepted}
use soupbintcp.ConnectionState.{State, connected, logged_in}
use soupbintcp.HeartbeatTimer.{new_heartbeat_timer}
use soupbintcp.LoginTimer.{new_login_timer}
use soupbintcp.Socket.{new_socket}
use soupbintcp.Client.World.{World, Connection, TcpConnection, Asio}
use soupbintcp.Client.Session.Delivery.{IsBehind}
use soupbintcp.Client.Session.Order.{Packet, data_packet, acceptance, run, IsOrdered, run-IsOrdered}
use soupbintcp.Socket.Closing.{IsLawful}
use soupbintcp.Client.TcpConnection.{socket_owner}
use soupbintcp.Client.TcpConnection.Lawful.{socket_owner-IsLawful}
use soupbintcp.Client.Reconnect.{on_closed, is_retryable}
use soupbintcp.Client.Reconnect.Attempts.{
  IsConnecting, attempts, pause, told, attempts-IsConnecting,
}
use soupbintcp.Socket.{is_aborted, connect_completed}
use soupbintcp.Client.Reconnect
use soupbintcp.Client.Reconnect.LateConnect.{IsReopened, late_connect-IsReopened}
use soupbintcp.Error.{ErrorCode, system}
use soupbintcp.ConnectionState.{connecting, disconnected}

abbrev link_in : State → TcpConnection
link_in state = record {
  socket = new_socket true;
  state = record { state = state; reason = DisconnectReason.none };
  login_timer = new_login_timer 10;
  heartbeat_timer = new_heartbeat_timer 5;
  socket_closed = false;
  login_timer_stopped = true;
  heartbeat_timer_stopped = true;
}

abbrev connection_in : State → Connection
connection_in state = record {
  username = b'u' ∷ [];
  password = b'p' ∷ [];
  session = [];
  next_sequence_number = 4;
  has_session_ended = false;
  connected = true;
  link = link_in state;
  reconnect_timer = record { started = false; epoch = 0; waits = [] };
  reconnect_next_delay = 0;
}

abbrev state_of : ℕ → State
state_of i = if i == 0 then logged_in else connected

abbrev pub client : World
client = record {
  write_packets_limit = 100;
  connections = 0 ∷ 1 ∷ [];
  connection_at = λ i. connection_in (state_of i);
  next_sequence_number = 4;
  has_session_ended = false;
  started = true;
  calls = [];
}

abbrev pub asio : Asio
asio = record {
  open_error = success;
  no_delay_error = success;
  login_expires = success;
  heartbeat_expires = success;
  heartbeat_expires_later = success;
  reconnect_expires = success;
}

client-IsBehind : IsBehind client
client-IsBehind = record { behind = λ i e. omega arith }

-- Connection 0 gets a message, connection 1 its login and the same message, and connection 0 the next.
abbrev packets : List Packet
packets =
    data_packet 0 (7 ∷ [])
    ∷ acceptance asio 1
        (write_login_accepted (record { session = b's' ∷ []; next_sequence_number = 4 })) 30
    ∷ data_packet 1 (7 ∷ [])
    ∷ data_packet 0 (8 ∷ [])
    ∷ []

run-IsOrdered_example : (k : ℕ) × (k ≤ 4) × IsOrdered client k (run client packets)
run-IsOrdered_example = run-IsOrdered client packets client-IsBehind (omega arith) (omega arith)

abbrev pending : World
pending = record client {
  connection_at = λ i. record (connection_in connecting) {
    link = record (link_in connecting) {
      socket = record (new_socket true) { connect_pending = true };
    };
  };
}

-- A connection that is refused three times.
abbrev refusals : List ErrorCode
refusals = system 111 ∷ system 111 ∷ system 110 ∷ []

attempts-IsConnecting_example :
    IsConnecting (attempts asio 0 pending refusals) 0 (pause 3)
    × ((attempts asio 0 pending refusals).calls ≡ told 0 0 refusals [])
unfolding is_aborted new_socket
attempts-IsConnecting_example =
    attempts-IsConnecting asio 0 refl refl refl pending refusals
      (record {
        started = refl;
        present = refl;
        pending = refl;
        state = refl;
        login_stopped = refl;
        heartbeat_stopped = refl;
        resting = refl;
        holds = refl;
      })
      ((refl, refl), ((refl, refl), ((refl, refl), tt)))

late_connect-IsReopened_example :
    let shut = Reconnect.close pending 0 in
    let entered = connect_completed (socket_owner asio 0) shut success in
    ((shut.connection_at 0).link.state.state ≡ disconnected)
    × IsReopened pending entered 0
    × IsReopened pending (Reconnect.closed asio entered 0) 0
unfolding new_socket new_login_timer new_heartbeat_timer
late_connect-IsReopened_example = late_connect-IsReopened asio pending 0 refl (record {
  present = refl;
  state = refl;
  connect_pending = refl;
  read_pending = refl;
  write_pending = refl;
  closing = refl;
  fresh = refl;
  login_off = refl;
  heartbeat_off = refl;
  heartbeat_stopped = refl;
})

socket_owner-IsLawful_example : IsLawful (socket_owner asio 1)
socket_owner-IsLawful_example = socket_owner-IsLawful asio 1
