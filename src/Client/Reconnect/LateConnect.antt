-- ===== src/Client/Reconnect/LateConnect.antt =====
-- A connection of the client that is closed after Asio has connected it, and before it hears of that.
use soupbintcp.Common.{ap, ◌∷◌, ℕ, ◌≡◌, ==_refl, refl, true, false, List, arith}
use soupbintcp.Types.{DisconnectReason}
use soupbintcp.Error.{success}
use soupbintcp.LogicalPackets.{LoginRequestPacket}
use soupbintcp.ConnectionState
use soupbintcp.ConnectionState.{connecting, connected, disconnected}
use soupbintcp.Socket
use soupbintcp.Socket.{connect_completed}
use soupbintcp.LoginTimer
use soupbintcp.LoginTimer.{LoginTimer}
use soupbintcp.RwPackets.{WritePacket}
use soupbintcp.HeartbeatTimer
use soupbintcp.Client.World.{
  TcpConnection, connect_succeeded, logging_in, connection_call, World, Asio, Call, put_link, tell,
}
use soupbintcp.Client.Link
use soupbintcp.Client.Link.{link}
use soupbintcp.Client.Session
use soupbintcp.Client.TcpConnection
use soupbintcp.Client.TcpConnection.{socket_owner, login_owner}
use soupbintcp.Client.Reconnect

-- A connection of which Asio holds the connect, and nothing else.
pub record IsPending (w : World) (i : ℕ) : Type 0 where
  pub present : (w.connection_at i).connected ≡ true
  pub state :
      (w.connection_at i).link.state ≡ record { state = connecting; reason = DisconnectReason.none }
  pub connect_pending : (w.connection_at i).link.socket.connect_pending ≡ true
  pub read_pending : (w.connection_at i).link.socket.read_pending ≡ false
  pub write_pending : (w.connection_at i).link.socket.write_pending ≡ false
  pub closing : (w.connection_at i).link.socket.closing ≡ false
  pub fresh : (w.connection_at i).link.socket.closed_signaled ≡ false
  pub login_off : (w.connection_at i).link.login_timer.started ≡ false
  pub heartbeat_off : (w.connection_at i).link.heartbeat_timer.started ≡ false
  pub heartbeat_stopped : (w.connection_at i).link.heartbeat_timer_stopped ≡ true

-- What `close` leaves.
record IsShut (w w' : World) (i : ℕ) : Type 0 where
  present : (w'.connection_at i).connected ≡ true
  state :
      (w'.connection_at i).link.state
      ≡ record { state = disconnected; reason = DisconnectReason.user_initiated }
  connect_pending : (w'.connection_at i).link.socket.connect_pending ≡ true
  read_pending : (w'.connection_at i).link.socket.read_pending ≡ false
  write_pending : (w'.connection_at i).link.socket.write_pending ≡ false
  closing : (w'.connection_at i).link.socket.closing ≡ true
  fresh : (w'.connection_at i).link.socket.closed_signaled ≡ false
  login_off : (w'.connection_at i).link.login_timer.started ≡ false
  calls : w'.calls ≡ w.calls

close-IsShut : (w : World) (i : ℕ) → IsPending w i → IsShut w (Reconnect.close w i) i
unfolding Reconnect.close Link.close Link.disconnect Link.disconnected ConnectionState.disconnect
    Socket.close Socket.maybe_signal_closed Socket.is_idle LoginTimer.stop HeartbeatTimer.stop
close-IsShut w i h = record {
  present = ground (arith, h, ==_refl i);
  state = ground (arith, h, ==_refl i);
  connect_pending = ground (arith, h, ==_refl i);
  read_pending = ground (arith, h, ==_refl i);
  write_pending = ground (arith, h, ==_refl i);
  closing = ground (arith, h, ==_refl i);
  fresh = ground (arith, h, ==_refl i);
  login_off = ground (arith, h, ==_refl i);
  calls = ground (arith, h, ==_refl i);
}

-- What the connect leaves that completes afterwards.
pub record IsReopened (w w' : World) (i : ℕ) : Type 0 where
  pub present : (w'.connection_at i).connected ≡ true
  pub state :
      (w'.connection_at i).link.state
      ≡ record { state = connected; reason = DisconnectReason.user_initiated }
  pub signaled : (w'.connection_at i).link.socket.closed_signaled ≡ true
  pub login_runs : (w'.connection_at i).link.login_timer_stopped ≡ false
  pub login_waits : (w'.connection_at i).link.login_timer.wait_pending ≡ true
  pub calls :
      (request : LoginRequestPacket) × (w'.calls
        ≡ connection_call i (logging_in request) ∷ connection_call i connect_succeeded ∷ w.calls)

-- A connection that enters on a socket that is closed, with its login timer and what has been told.
record IsEntering (w : World) (i : ℕ) (timer : LoginTimer) (calls : List Call) : Type 0 where
  present : (w.connection_at i).connected ≡ true
  state :
      (w.connection_at i).link.state
      ≡ record { state = connected; reason = DisconnectReason.user_initiated }
  login_runs : (w.connection_at i).link.login_timer_stopped ≡ false
  connect_pending : (w.connection_at i).link.socket.connect_pending ≡ false
  read_pending : (w.connection_at i).link.socket.read_pending ≡ false
  write_pending : (w.connection_at i).link.socket.write_pending ≡ false
  closing : (w.connection_at i).link.socket.closing ≡ true
  fresh : (w.connection_at i).link.socket.closed_signaled ≡ false
  login : (w.connection_at i).link.login_timer ≡ timer
  told : w.calls ≡ calls

start-IsEntering :
    (w : World) (i : ℕ) (timer : LoginTimer) (calls : List Call)
    → timer.started ≡ false
    → IsEntering w i timer calls
    → IsEntering
        (LoginTimer.start (login_owner i) w success)
        i
        (record timer { started = true; wait_pending = true })
        calls
unfolding LoginTimer.start login_owner
start-IsEntering w i timer calls off h = record {
  present = ground (arith, h, off, ==_refl i);
  state = ground (arith, h, off, ==_refl i);
  login_runs = ground (arith, h, off, ==_refl i);
  connect_pending = ground (arith, h, off, ==_refl i);
  read_pending = ground (arith, h, off, ==_refl i);
  write_pending = ground (arith, h, off, ==_refl i);
  closing = ground (arith, h, off, ==_refl i);
  fresh = ground (arith, h, off, ==_refl i);
  login = ground (arith, h, off, ==_refl i);
  told = ground (arith, h, off, ==_refl i);
}

read-IsEntering :
    (w : World) (i : ℕ) (timer : LoginTimer) (calls : List Call)
    → IsEntering w i timer calls
    → IsEntering
        (put_link w i (record (link w i) { socket = Socket.async_read (link w i).socket }))
        i
        timer
        calls
unfolding Socket.async_read
read-IsEntering w i timer calls h = record {
  present = ground (arith, h, ==_refl i);
  state = ground (arith, h, ==_refl i);
  login_runs = ground (arith, h, ==_refl i);
  connect_pending = ground (arith, h, ==_refl i);
  read_pending = ground (arith, h, ==_refl i);
  write_pending = ground (arith, h, ==_refl i);
  closing = ground (arith, h, ==_refl i);
  fresh = ground (arith, h, ==_refl i);
  login = ground (arith, h, ==_refl i);
  told = ground (arith, h, ==_refl i);
}

write-IsEntering :
    (w : World) (i : ℕ) (timer : LoginTimer) (calls : List Call) (packet : WritePacket)
    → IsEntering w i timer calls
    → IsEntering (Link.write_to_socket w i packet).0 i timer calls
unfolding Link.write_to_socket Socket.async_write
write-IsEntering w i timer calls packet h = record {
  present = ground (arith, h, ==_refl i);
  state = ground (arith, h, ==_refl i);
  login_runs = ground (arith, h, ==_refl i);
  connect_pending = ground (arith, h, ==_refl i);
  read_pending = ground (arith, h, ==_refl i);
  write_pending = ground (arith, h, ==_refl i);
  closing = ground (arith, h, ==_refl i);
  fresh = ground (arith, h, ==_refl i);
  login = ground (arith, h, ==_refl i);
  told = ground (arith, h, ==_refl i);
}

-- `connect_success` up to the start of its login timer.
abbrev arming : World → ℕ → World
arming w i =
    let t : TcpConnection = link w i in
    let entered = put_link w i (record t { state = ConnectionState.set_state t.state connected }) in
    let (asked, request) = Session.on_connect_success (tell entered i connect_succeeded) i in
    let told = tell asked i (logging_in request) in
    put_link told i (record (link told i) { login_timer_stopped = false })

abbrev asked_of : World → ℕ → LoginRequestPacket
asked_of w i = (Session.on_connect_success w i).1

arming-IsEntering :
    (w w' : World) (i : ℕ)
    → IsShut w w' i
    → IsEntering
        (arming
          (put_link w' i
            (record (link w' i) { socket = record (link w' i).socket { connect_pending = false } }))
          i)
        i
        (w'.connection_at i).link.login_timer
        (connection_call i (logging_in (asked_of w' i))
          ∷ connection_call i connect_succeeded
          ∷ w.calls)
unfolding Session.on_connect_success ConnectionState.set_state
arming-IsEntering w w' i h = record {
  present = ground (arith, h, ==_refl i);
  state = ground (arith, h, ==_refl i);
  login_runs = ground (arith, h, ==_refl i);
  connect_pending = ground (arith, h, ==_refl i);
  read_pending = ground (arith, h, ==_refl i);
  write_pending = ground (arith, h, ==_refl i);
  closing = ground (arith, h, ==_refl i);
  fresh = ground (arith, h, ==_refl i);
  login = ground (arith, h, ==_refl i);
  told = ground (arith, h, ==_refl i);
}

signal-IsReopened :
    (w w' : World) (i : ℕ) (timer : LoginTimer) (request : LoginRequestPacket)
    → timer.wait_pending ≡ true
    → IsEntering w' i timer
        (connection_call i (logging_in request) ∷ connection_call i connect_succeeded ∷ w.calls)
    → IsReopened w
        (put_link w' i
          (record (link w' i) { socket = Socket.maybe_signal_closed (link w' i).socket }))
        i
unfolding Socket.maybe_signal_closed Socket.is_idle
signal-IsReopened w w' i timer request waits h = record {
  present = ground (arith, h, ==_refl i);
  state = ground (arith, h, ==_refl i);
  signaled = ground (arith, h, ==_refl i);
  login_runs = ground (arith, h, ==_refl i);
  login_waits = ground (arith, h, waits, ==_refl i);
  calls = (request, ground (arith, h, ==_refl i));
}

connect_completed-IsReopened :
    (asio : Asio) (w w' : World) (i : ℕ)
    → asio.login_expires ≡ success
    → IsShut w w' i
    → IsReopened w (connect_completed (socket_owner asio i) w' success) i
unfolding connect_completed socket_owner TcpConnection.connect_success Socket.signal
connect_completed-IsReopened asio w w' i armed h =
    let timer : LoginTimer = record (link w' i).login_timer {
      started = true;
      wait_pending = true;
    } in
    rw armed (
      signal-IsReopened w _ i timer (asked_of w' i) refl (
        write-IsEntering _ i timer _ _ (
          read-IsEntering _ i timer _
            (start-IsEntering _ i _ _ h.login_off (arming-IsEntering w w' i h)))))

closed-IsReopened :
    (asio : Asio) (w w' : World) (i : ℕ)
    → IsReopened w w' i
    → IsReopened w (Reconnect.closed asio w' i) i
unfolding Reconnect.closed Reconnect.maybe_signal_closed
closed-IsReopened asio w w' i h = record {
  present = ground (arith, h, ==_refl i);
  state = ground (arith, h, ==_refl i);
  signaled = ground (arith, h, ==_refl i);
  login_runs = ground (arith, h, ==_refl i);
  login_waits = ground (arith, h, ==_refl i);
  calls = let (request, told) = h.calls in (request, ground (arith, h, told, ==_refl i));
}

-- Where a client's connection is connecting and has not been closed, Asio holds its connect and
-- nothing else of it, and its timers have not been started: `close` disconnects it; when the
-- connect then completes without an error, and Asio starts the login timer without an error, the
-- connection is in the state connected again with the reason user_initiated, its handler has been
-- told that it is connected and is logging in, its login timer runs, and its socket has signalled
-- `closed`; all this is still so behind the posted call of `closed`, so the handler is not told
-- of the end.
pub late_connect-IsReopened :
    (asio : Asio) (w : World) (i : ℕ)
    → asio.login_expires ≡ success
    → IsPending w i
    → let shut = Reconnect.close w i in
      let entered = connect_completed (socket_owner asio i) shut success in
      ((shut.connection_at i).link.state.state ≡ disconnected)
      × IsReopened w entered i
      × IsReopened w (Reconnect.closed asio entered i) i
late_connect-IsReopened asio w i armed h =
    let shut = close-IsShut w i h in
    let entered = connect_completed-IsReopened asio w _ i armed shut in
    (ap (λ s. s.state) shut.state, entered, closed-IsReopened asio w _ i entered)
