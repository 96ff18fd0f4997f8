-- ===== src/Server/Port.antt =====
-- include/bc/soup/server/port.h and src/server/port.cpp: an account of the server, to which at most
-- one connection is attached. A port is named by its number in the store.
pub mod Answers
pub mod Sending
pub mod Session
use soupbintcp.Common.{
  ℕ, ◌+◌, ◌%◌, Bool, true, false, not, ◌&&◌, Option, none, some, [], ◌∷◌, Bytes, bytes_eq, length,
  ltb, ◌==◌, if◌then◌else◌, is_some,
}
use soupbintcp.Constants.{u64_mod}
use soupbintcp.Types.{WriteError, LoginRejectReason}
use soupbintcp.LogicalPackets.{
  LoginAcceptedPacket, LoginRejectedPacket, LoginRejectedReason, LoginRequestPacket,
  rejected_not_authorized, rejected_session_not_available, sequenced_data_type, end_of_session_type,
}
use soupbintcp.RwPackets.{WritePacket, new_write_packet, empty_write_packet, write_payload_size}
use soupbintcp.Server.World.{World, Port, TcpConnection, put_port, put_connection}
use soupbintcp.Server.Link
use soupbintcp.Server.Link.{written}

-- `Port(username, password, handler)`.
unfoldable pub new_port : Bytes → Bytes → Option ℕ → Port
new_port username password handler = record {
  handler = handler;
  username = username;
  password = password;
  next_sequence_number = 1;
  has_session_ended = false;
  connection = none;
}

unfoldable pub set_handler : Port → ℕ → Port
set_handler port handler = record port { handler = some handler }

unfoldable pub set_next_sequence_number : Port → ℕ → Port
set_next_sequence_number port n = record port { next_sequence_number = n }

unfoldable pub is_handler_set : Port → Bool
is_handler_set port = is_some port.handler

-- To the connection of the port, if there is one.
unfoldable pub send_attached : World → Option ℕ → WritePacket → World × WriteError
send_attached w none packet = (w, WriteError.disconnected)
send_attached w (some i) packet = Link.send_packet w i packet

unfoldable pub send_packet : World → ℕ → WritePacket → World × WriteError
unfolding send_attached
send_packet w p packet =
    let port : Port = w.port_at p in
    if port.has_session_ended
    then (w, WriteError.session_ended)
    else send_attached w port.connection packet

-- `if (error == Write_error::none) ++next_sequence_number_;`
unfoldable pub count_message : World × WriteError → ℕ → World × WriteError
count_message (w, error) p =
    let port : Port = w.port_at p in
    let next = (port.next_sequence_number + 1) % u64_mod in
    (if written error then put_port w p (record port { next_sequence_number = next }) else w, error)

-- `send_message(data, size)`; a null pointer is `none`.
unfoldable pub send_message : World → ℕ → Option Bytes → ℕ → World × WriteError
send_message w p message size = if size == 0 then (w, WriteError.empty_buffer) else elim message [
  | none ↦ (w, WriteError.null_buffer)
  | some text ↦ count_message (send_packet w p (new_write_packet sequenced_data_type text size)) p
]

-- `send_message(Message&&)`. Behind a header the payload of a message has an address.
unfoldable pub send_built_message : World → ℕ → WritePacket → World × WriteError
send_built_message w p message =
    if write_payload_size message == 0
    then (w, WriteError.empty_buffer)
    else count_message (send_packet w p message) p

unfoldable pub send_debug : World → ℕ → Bytes → World × WriteError
send_debug w p text =
    if length text == 0 then (w, WriteError.empty_buffer) else elim (w.port_at p).connection [
      | none ↦ (w, WriteError.disconnected)
      | some i ↦ Link.send_debug_packet w i text
    ]

-- `expected<Login_accepted_packet, Login_reject>`, with the two fields of a `Login_reject`.
pub data LoginResult : Type 0 where
  accepted : LoginAcceptedPacket → LoginResult
  rejected : LoginRejectReason → LoginRejectedPacket → LoginResult

-- `if (connection_) connection_->supersede();`
unfoldable pub supersede_attached : World → Option ℕ → World
supersede_attached w none = w
supersede_attached w (some i) = Link.supersede w i

-- The number from which the messages of the port are counted on.
unfoldable pub rewind : ℕ → ℕ → ℕ
rewind requested next = if not (requested == 0) && ltb requested next then requested else next

-- `port = this; handler = handler_;` set the connection's members, since `process_login_request`
-- passes them by reference.
unfoldable pub attach : World → ℕ → ℕ → World
attach w p i =
    let port : Port = w.port_at p in
    let w' = put_port w p (record port { connection = some i }) in
    put_connection w' i (record (w'.connection_at i) { port = some p; handler = port.handler })

unfoldable pub on_login_request : World → ℕ → ℕ → LoginRequestPacket → World × LoginResult
unfolding supersede_attached rewind attach
on_login_request w p i request =
    let port : Port = w.port_at p in
    let w' = attach (supersede_attached w port.connection) p i in
    let next = rewind request.next_sequence_number port.next_sequence_number in
    if not (bytes_eq request.password port.password)
    then (
      w,
      rejected LoginRejectReason.incorrect_password (record { reason = rejected_not_authorized }),
    )
    else if not (bytes_eq request.session []) && not (bytes_eq request.session w.session)
    then (
      w,
      rejected LoginRejectReason.session_not_available
          (record { reason = rejected_session_not_available }),
    )
    else (
      put_port w' p (record (w'.port_at p) { next_sequence_number = next }),
      accepted (record { session = w.session; next_sequence_number = next }),
    )

unfoldable pub end_session : World → ℕ → World
end_session w p =
    let port : Port = w.port_at p in
    let w' = put_port w p (record port { has_session_ended = true }) in
    if port.has_session_ended then w else elim port.connection [
      | none ↦ w'
      | some i ↦ (Link.send_packet w' i (empty_write_packet end_of_session_type)).0
    ]

-- `if (connection_ == &connection) connection_ = nullptr;`
unfoldable pub on_closed : Port → ℕ → Port
on_closed port i = elim port.connection [
  | none ↦ port
  | some j ↦ if j == i then record port { connection = none } else port
]
