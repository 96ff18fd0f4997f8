-- ===== src/Examples/Protocols.antt =====
-- A server that sends two messages, and a client to which they come.
use soupbintcp.Common.{
  All, ◌+◌, ◌≡◌, refl, Bytes, some, List, [], ◌∷◌, ◌++◌, true, false, length, arith,
}
use soupbintcp.Types.{DisconnectReason}
use soupbintcp.LogicalPackets.{sequenced_data_type}
use soupbintcp.RwPackets.{ReadPacket, read_packet_type, read_payload_data}
use soupbintcp.RwPackets.Framing.{receive_many}
use soupbintcp.ConnectionState.{logged_in}
use soupbintcp.HeartbeatTimer.{new_heartbeat_timer}
use soupbintcp.LoginTimer.{new_login_timer}
use soupbintcp.ReconnectTimer.{new_reconnect_timer}
use soupbintcp.Socket.{new_socket}
use soupbintcp.Server.Port.Sending.{queue}
use soupbintcp.Server.World as ServerWorld
use soupbintcp.Client.World as ClientWorld
use soupbintcp.Protocol.Outbound.{send_all, stream, IsNone, IsReady}
use soupbintcp.Protocol.Inbound.{read_all, numbered, IsLevel, Carries}
use soupbintcp.Protocol.Messages.{messages_delivered, sent-received, IsSendable}
use soupbintcp.Error.{success}

abbrev port : ServerWorld.Port
port = record {
  handler = some 0;
  username = b'u' ∷ [];
  password = [];
  next_sequence_number = 5;
  has_session_ended = false;
  connection = some 0;
}

abbrev attached : ServerWorld.TcpConnection
attached = record {
  port = some 0;
  handler = some 0;
  socket = record (new_socket true) { is_open = true; write_packets_limit = 100 };
  state = record { state = logged_in; reason = DisconnectReason.none };
  login_timer = new_login_timer 30;
  heartbeat_timer = new_heartbeat_timer 15;
  socket_closed = false;
  login_timer_stopped = true;
  heartbeat_timer_stopped = false;
}

abbrev sender : ServerWorld.World
sender = record {
  session = b's' ∷ [];
  ports = 0 ∷ [];
  connections = 0 ∷ [];
  port_at = λ p. port;
  connection_at = λ i. attached;
  calls = [];
}

abbrev link : ClientWorld.TcpConnection
link = record {
  socket = record (new_socket true) { is_open = true; write_packets_limit = 100 };
  state = record { state = logged_in; reason = DisconnectReason.none };
  login_timer = new_login_timer 10;
  heartbeat_timer = new_heartbeat_timer 5;
  socket_closed = false;
  login_timer_stopped = true;
  heartbeat_timer_stopped = false;
}

abbrev receiver : ClientWorld.World
receiver = record {
  write_packets_limit = 100;
  connections = 0 ∷ [];
  connection_at = λ i. record {
    username = b'u' ∷ [];
    password = [];
    session = [];
    next_sequence_number = 5;
    has_session_ended = false;
    connected = true;
    link = link;
    reconnect_next_delay = 0;
    reconnect_timer = new_reconnect_timer;
  };
  next_sequence_number = 5;
  has_session_ended = false;
  started = true;
  calls = [];
}

abbrev asio : ClientWorld.Asio
asio = record {
  open_error = success;
  no_delay_error = success;
  login_expires = success;
  heartbeat_expires = success;
  heartbeat_expires_later = success;
  reconnect_expires = success;
}

abbrev texts : List Bytes
texts = (7 ∷ []) ∷ (8 ∷ 9 ∷ []) ∷ []

abbrev packet : Bytes → ReadPacket
packet text = record {
  header = 0 ∷ (length text + 1) ∷ sequenced_data_type ∷ [];
  payload = record { bytes = some text; size = length text };
}

abbrev arrived : List ReadPacket
arrived = packet (7 ∷ []) ∷ packet (8 ∷ 9 ∷ []) ∷ []

sender-idle : queue sender 0 ≡ []
unfolding new_socket
sender-idle = refl

sender-IsReady : IsReady sender 0 0 2
unfolding new_socket
sender-IsReady = record {
  attached = refl;
  running = refl;
  entered = refl;
  open_still = refl;
  room = omega arith;
}

texts-IsSendable : All IsSendable texts
texts-IsSendable = ((omega arith, omega arith), ((omega arith, omega arith), tt))

arrived-Carries :
    Carries arrived (receive_many 2 (stream (queue (send_all sender 0 texts).0 0) ++ (1 ∷ []))).0
unfolding Carries read_packet_type read_payload_data
arrived-Carries =
    rw
      (sent-received sender 0 0 texts (1 ∷ []) sender-IsReady sender-idle texts-IsSendable
        (omega arith))
      (refl, refl, (refl, refl, tt))

messages_delivered_example :
    All IsNone (send_all sender 0 texts).1
    × ((read_all asio receiver 0 arrived).calls ≡ numbered 5 texts ++ [])
    × IsLevel
        (read_all asio receiver 0 arrived)
        0
        ((send_all sender 0 texts).0.port_at 0).next_sequence_number
    × ((receive_many 2 (stream (queue (send_all sender 0 texts).0 0) ++ (1 ∷ []))).1 ≡ 1 ∷ [])
messages_delivered_example =
    messages_delivered sender 0 0 texts (1 ∷ []) asio receiver 0 arrived sender-IsReady sender-idle
      texts-IsSendable (omega arith)
      (record { entered = refl; running = refl; mine = refl; overall = refl }) arrived-Carries
