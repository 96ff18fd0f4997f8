-- ===== src/Examples/Logins.antt =====
-- A server with one account, to which one connection is logged in and a second one logs in.
use soupbintcp.Common.{
  ◌==◌, if◌then◌else◌, ℕ, ◌≡◌, ◌≢◌, ◌⊎◌, Bytes, Option, none, some, [], ◌∷◌, true, false, refl,
  arith, List,
}
use soupbintcp.Types.{WriteError, LoginRejectReason, DisconnectReason}
use soupbintcp.Error.{success}
use soupbintcp.LogicalPackets.{
  LoginRequestPacket, rejected_not_authorized, rejected_session_not_available, debug_type,
}
use soupbintcp.RwPackets.{WritePacket, empty_write_packet, wire_size}
use soupbintcp.ConnectionState.{logged_in, disconnecting}
use soupbintcp.HeartbeatTimer.{new_heartbeat_timer}
use soupbintcp.LoginTimer.{new_login_timer}
use soupbintcp.Socket
use soupbintcp.Socket.{Socket, header_stage}
use soupbintcp.Socket.Writing.{popped}
use soupbintcp.RwPackets.{default_read_packet}
use soupbintcp.Server.World.{World, Port, TcpConnection, Asio}
use soupbintcp.Server.Port.{send_message, on_login_request, accepted, rejected}
use soupbintcp.Server.Login.{find_port}
use soupbintcp.Server.Acceptor.{added, add_port, accept_success}
use soupbintcp.Server.Acceptor.Accounts.{add_port-found}
use soupbintcp.Server.Port.Answers.{IsResumed, IsLoggedIn, on_login_request-answers}
use soupbintcp.Server.Port.Sending.{IsSent, queue, send_message-IsSent}
use soupbintcp.Server.TcpConnection.{socket_owner}
use soupbintcp.Server.Run.{IsIdle, begun, continued, connection_accepted, message_sent}
use soupbintcp.Server.Run.Reached.{IsWired, Reachable-IsWired}
use soupbintcp.Server.TcpConnection.GracefulClose.{IsLeaving, shut, refusal_sent}

abbrev secret : Bytes
secret = b'p' ∷ b'1' ∷ []

abbrev account : Option ℕ → Port
account connection = record {
  handler = some 0;
  username = b'u' ∷ [];
  password = secret;
  next_sequence_number = 5;
  has_session_ended = false;
  connection = connection;
}

abbrev writing : List WritePacket → Socket
writing packets = record {
  is_open = true;
  read_packet = default_read_packet;
  write_packets = packets;
  write_packets_limit = 100;
  write_buffer_was_full = false;
  connect_pending = false;
  read_pending = false;
  write_pending = true;
  closing = false;
  closed_signaled = false;
  reading = header_stage;
}

abbrev banner : WritePacket
banner = empty_write_packet debug_type

abbrev entered : Option ℕ → TcpConnection
entered port = record {
  port = port;
  handler = port;
  socket = writing (banner ∷ []);
  state = record { state = logged_in; reason = DisconnectReason.none };
  login_timer = new_login_timer 30;
  heartbeat_timer = new_heartbeat_timer 15;
  socket_closed = false;
  login_timer_stopped = true;
  heartbeat_timer_stopped = false;
}

-- Connection 0 is logged in to port 0; the others are not logged in.
abbrev who : ℕ → Option ℕ
who i = if i == 0 then some 0 else none

abbrev server : World
server = record {
  session = b's' ∷ [];
  ports = 0 ∷ [];
  connections = 0 ∷ 1 ∷ [];
  port_at = λ p. account (some 0);
  connection_at = λ i. entered (who i);
  calls = [];
}

abbrev request : LoginRequestPacket
request = record { username = b'u' ∷ []; password = secret; session = []; next_sequence_number = 3 }

on_login_request-answers_example :
    (secret ≢ secret)
      × (on_login_request server 0 1 request ≡ (
        server,
        rejected LoginRejectReason.incorrect_password (record { reason = rejected_not_authorized }),
      ))
    ⊎ ((secret ≡ secret)
        × (request.session ≢ [])
        × (request.session ≢ server.session)
        × (on_login_request server 0 1 request ≡ (
          server,
          rejected LoginRejectReason.session_not_available
              (record { reason = rejected_session_not_available }),
        )))
    ⊎ ((secret ≡ secret)
        × ((request.session ≡ []) ⊎ (request.session ≡ server.session))
        × ((n : ℕ) × IsResumed 3 5 n
            × IsLoggedIn server 0 1 n (on_login_request server 0 1 request).0
            × ((on_login_request server 0 1 request).1
                ≡ accepted (record { session = server.session; next_sequence_number = n }))))
on_login_request-answers_example = on_login_request-answers server 0 1 request

send_message-IsSent_example :
    ((send_message server 0 (some secret) 2).1 ≡ WriteError.none)
      × IsSent server 0 0 secret 2 (send_message server 0 (some secret) 2).0
    ⊎ ((send_message server 0 (some secret) 2).1 ≢ WriteError.none)
      × (queue (send_message server 0 (some secret) 2).0 0 ≡ queue server 0)
      × ((send_message server 0 (some secret) 2).0.port_at ≡ server.port_at)
send_message-IsSent_example = send_message-IsSent server 0 0 secret 2 refl

abbrev vacant : World
vacant = record server { port_at = λ p. account none }

-- Connection 1 is refused while Asio writes the banner, behind which the rejection waits.
abbrev refused : TcpConnection
refused = record (entered none) {
  socket = writing (banner ∷ banner ∷ []);
  state = record { state = disconnecting; reason = DisconnectReason.access_denied };
}

abbrev refusing : World
refusing = record server { connection_at = λ i. refused }

abbrev pub asio : Asio
asio = record {
  login_expires = success;
  heartbeat_expires = success;
  heartbeat_expires_later = success;
}

refused-IsLeaving : IsLeaving refused
refused-IsLeaving = record {
  leaving = refl;
  unread = refl;
  unconnected = refl;
  writing = refl;
  live = refl;
  unsignaled = refl;
}

refusal_sent_example :
    ((Socket.write_completed
        (socket_owner asio 1)
        refusing
        success
        (wire_size banner)).connection_at
      1).socket
    ≡ popped (shut refused.socket) (banner ∷ [])
refusal_sent_example = refusal_sent asio 1 refusing banner (banner ∷ []) refused-IsLeaving refl

abbrev newcomer : Bytes
newcomer = b'n' ∷ []

add_port-found_example :
    let (w, result) = add_port server 1 newcomer secret (some 1) in
    (w ≡ server) × (result ≢ added 1)
    ⊎ (result ≡ added 1)
      × (find_port w.port_at w.ports newcomer ≡ some 1)
      × ((w.port_at 1).password ≡ secret)
      × (find_port w.port_at w.ports (b'u' ∷ [])
          ≡ find_port server.port_at server.ports (b'u' ∷ []))
add_port-found_example =
    add_port-found server 1 newcomer secret (b'u' ∷ []) (some 1) (omega arith, tt) (ground arith)

-- The server without its connections, which then accepts one and sends a message that no connection gets.
abbrev pub idle : World
idle = record server {
  connections = [];
  port_at = λ p. account none;
  connection_at = λ i. record (entered none) { socket = writing [] };
}

idle-IsIdle : IsIdle idle
idle-IsIdle = record {
  alone = refl;
  detached = λ p. refl;
  blank = λ i. refl;
  open_still = λ i. refl;
  unsignaled = λ i. refl;
  unclosed = λ i. refl;
}

abbrev one_accepted : World
one_accepted = accept_success asio idle 0 100 secret

Reachable-IsWired_example : IsWired (send_message one_accepted 0 (some secret) 2).0
Reachable-IsWired_example =
    Reachable-IsWired idle (send_message one_accepted 0 (some secret) 2).0 idle-IsIdle (
      continued one_accepted _ (continued idle _ begun (connection_accepted asio 0 100 secret refl))
        (message_sent 0 (some secret) 2))
