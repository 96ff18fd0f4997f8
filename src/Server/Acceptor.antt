-- ===== src/Server/Acceptor.antt =====
-- src/server/acceptor.cpp: the accounts of an acceptor, the connections that it accepts, and the end
-- of its session. The listening socket is in Server.Listening; `on_login_request` and `on_closed`
-- stand in Server.Login.
pub mod Accounts
use soupbintcp.Common.{
  ◌||◌, ℕ, Bool, true, false, not, ◌&&◌, Option, none, some, List, [], ◌∷◌, ◌++◌, Bytes, bytes_eq,
  length, ◌==◌, if◌then◌else◌,
}
use soupbintcp.Error.{Error, ErrorCode, make_error_code, failed, username_in_use}
use soupbintcp.Validate.{validate_username, validate_password}
use soupbintcp.Socket
use soupbintcp.Server.World.{
  call_acceptor, connection_accepted, accept_failed, World, Port, Asio, put_port,
}
use soupbintcp.Server.Link
use soupbintcp.Server.Port
use soupbintcp.Server.TcpConnection

-- `expected<Port*, std::error_code>`.
pub data AddResult : Type 0 where
  added : ℕ → AddResult
  refused : ErrorCode → AddResult

-- Whether a port of the list has the username.
unfoldable pub is_in_use : (ℕ → Port) → List ℕ → Bytes → Bool
is_in_use at [] username = false
is_in_use at (p ∷ ports) username = bytes_eq username (at p).username || is_in_use at ports username

-- `p` is the number of the new port.
unfoldable pub add_port : World → ℕ → Bytes → Bytes → Option ℕ → World × AddResult
add_port w p username password handler =
    let made = put_port w p (Port.new_port username password handler) in
    if failed (validate_username username)
    then (w, refused (validate_username username))
    else if failed (validate_password password)
    then (w, refused (validate_password password))
    else if is_in_use w.port_at w.ports username
    then (w, refused (make_error_code username_in_use))
    else (record made { ports = w.ports ++ p ∷ [] }, added p)

-- `is_handler_set`, for the acceptor's own handler and the ports of the list.
unfoldable pub are_handlers_set : (ℕ → Port) → List ℕ → Bool
are_handlers_set at [] = true
are_handlers_set at (p ∷ ports) = Port.is_handler_set (at p) && are_handlers_set at ports

-- The next `async_accept` is the listening socket's.
unfoldable pub accept_failure : World → ErrorCode → World
accept_failure w ec = call_acceptor w (accept_failed ec)

-- `accept_success`: `i` is the number of the new connection, `limit` is `write_packets_limit_`.
unfoldable pub accept_success : Asio → World → ℕ → ℕ → Bytes → World
accept_success asio w i limit debug_banner =
    let s = Socket.set_write_packets_limit (Socket.new_socket true) limit in
    let told : World = call_acceptor w connection_accepted in
    let listed : World = record told { connections = told.connections ++ i ∷ [] } in
    let made = TcpConnection.construct asio listed i s in
    if not (length debug_banner == 0) then (Link.send_debug_packet made i debug_banner).0 else made

-- The loops of `end_session` and `stop`.
unfoldable pub end_sessions : World → List ℕ → World
end_sessions w [] = w
end_sessions w (p ∷ ports) = end_sessions (Port.end_session w p) ports

unfoldable pub end_session : World → World
end_session w = end_sessions w w.ports

unfoldable pub close_each : World → List ℕ → World
close_each w [] = w
close_each w (i ∷ connections) = close_each (Link.close w i) connections

unfoldable pub stop : World → World
stop w = close_each w w.connections
