-- ===== src/Client/Reconnect.antt =====
-- How a connection of the client begins, ends and comes back: src/client/connection.cpp, and the end
-- of a connection in src/client/tcp_connection.cpp.
pub mod Delays
pub mod Attempts
pub mod LateConnect
use soupbintcp.Common.{ℕ, ◌*◌, min, Bool, true, false, not, ◌||◌, ◌==◌, if◌then◌else◌, Bytes}
use soupbintcp.Constants.{reconnect_initial_delay, reconnect_max_delay, reconnect_delay_multiplier}
use soupbintcp.Types.{DisconnectReason}
use soupbintcp.Error.{ErrorCode, failed}
use soupbintcp.Validate.{validate_username, validate_password, validate_session}
use soupbintcp.ReconnectTimer
use soupbintcp.Client.World.{
  World, TcpConnection, Connection, Asio, put_connection, put_link, tell, transport_failed,
  connection_ended, reconnect_scheduled,
}
use soupbintcp.Client.Link
use soupbintcp.Client.Link.{link}
use soupbintcp.Client.TcpConnection

unfoldable pub is_retryable : DisconnectReason → Bool
is_retryable DisconnectReason.peer_closed = true
is_retryable DisconnectReason.connect_failure = true
is_retryable DisconnectReason.transport_error = true
is_retryable DisconnectReason.login_timeout = true
is_retryable DisconnectReason.heartbeat_timeout = true
is_retryable DisconnectReason.none = false
is_retryable DisconnectReason.user_initiated = false
is_retryable DisconnectReason.superseded = false
is_retryable DisconnectReason.logout_request = false
is_retryable DisconnectReason.access_denied = false
is_retryable DisconnectReason.session_mismatch = false
is_retryable DisconnectReason.sequence_number_ahead_of_session = false
is_retryable DisconnectReason.sequence_number_too_low = false
is_retryable DisconnectReason.sequence_number_too_high = false
is_retryable DisconnectReason.protocol_violation = false
is_retryable DisconnectReason.unmanaged_abort = false

unfoldable pub set_username : Connection → Bytes → Connection × ErrorCode
set_username c username =
    let ec = validate_username username in
    (if failed ec then c else record c { username = username }, ec)

unfoldable pub set_password : Connection → Bytes → Connection × ErrorCode
set_password c password =
    let ec = validate_password password in
    (if failed ec then c else record c { password = password }, ec)

unfoldable pub set_session : Connection → Bytes → Connection × ErrorCode
set_session c session =
    let ec = validate_session session in
    (if failed ec then c else record c { session = session }, ec)

-- `Reconnect_timer::Handler`.
unfoldable pub reconnect_owner : Asio → ℕ → ReconnectTimer.Owner World
reconnect_owner asio i = record {
  get = λ w. (w.connection_at i).reconnect_timer;
  put = λ w t. put_connection w i (record (w.connection_at i) { reconnect_timer = t });
  reconnect_timer_error = λ w ec. tell w i (transport_failed ec);
  reconnect_timer_expired = λ w. TcpConnection.construct asio w i;
}

unfoldable pub connect : Asio → World → ℕ → World
connect asio w i =
    let c : Connection = w.connection_at i in
    if not w.started || (c.connected || c.reconnect_timer.started)
    then w
    else TcpConnection.construct asio w i

unfoldable pub close : World → ℕ → World
close w i =
    let w' = if (w.connection_at i).connected then Link.close w i else w in
    let c : Connection = w'.connection_at i in
    put_connection w' i (record c {
      reconnect_timer = ReconnectTimer.stop c.reconnect_timer;
      reconnect_next_delay = 0;
    })

-- The delay after the one of `n` seconds.
unfoldable pub next_delay : ℕ → ℕ
next_delay n =
    if n == 0
    then reconnect_initial_delay
    else min (n * reconnect_delay_multiplier) reconnect_max_delay

unfoldable pub schedule_reconnect : Asio → World → ℕ → World
schedule_reconnect asio w i =
    let c : Connection = w.connection_at i in
    let delay = c.reconnect_next_delay in
    let later = put_connection w i (record c { reconnect_next_delay = next_delay delay }) in
    ReconnectTimer.start (reconnect_owner asio i) (tell later i (reconnect_scheduled delay))
      asio.reconnect_expires

-- `Connection::on_closed`; `connection_.reset()` leaves no connection.
unfoldable pub on_closed : Asio → World → ℕ → DisconnectReason → World
on_closed asio w i reason =
    let reset = put_connection w i (record (w.connection_at i) { connected = false }) in
    let told = tell reset i (connection_ended reason) in
    if not w.started || not (is_retryable reason) then told else schedule_reconnect asio told i

unfoldable pub maybe_signal_closed : Asio → World → ℕ → World
maybe_signal_closed asio w i =
    let t : TcpConnection = link w i in
    if not t.socket_closed || not t.login_timer_stopped || not t.heartbeat_timer_stopped
    then w
    else on_closed asio w i t.state.reason

unfoldable pub closed : Asio → World → ℕ → World
closed asio w i =
    maybe_signal_closed asio (put_link w i (record (link w i) { socket_closed = true })) i

unfoldable pub login_timer_stopped : Asio → World → ℕ → World
login_timer_stopped asio w i =
    maybe_signal_closed asio (put_link w i (record (link w i) { login_timer_stopped = true })) i

unfoldable pub heartbeat_timer_stopped : Asio → World → ℕ → World
heartbeat_timer_stopped asio w i =
    maybe_signal_closed asio (put_link w i (record (link w i) { heartbeat_timer_stopped = true })) i
