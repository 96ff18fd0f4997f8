-- ===== src/Server/Run/Reached.antt =====
-- Every state that a running acceptor reaches is sound.
use soupbintcp.Common.{ℕ, ◌≡◌, ◌≢◌, refl, true, none, some, arith}
use soupbintcp.ConnectionState.{disconnected}
use soupbintcp.Socket.Keeping as SocketKeeping
use soupbintcp.LoginTimer.Keeping as LoginKeeping
use soupbintcp.HeartbeatTimer.Keeping as HeartbeatKeeping
use soupbintcp.Server.World.{World, accept_failed}
use soupbintcp.Server.Port
use soupbintcp.Server.TcpConnection.{socket_owner, login_owner, heartbeat_owner}
use soupbintcp.Server.Acceptor
use soupbintcp.Server.Run.{is_listed, IsIdle, Step, Reachable, begun, continued}
use soupbintcp.Server.Run.Sound.{IsSound, IsQuiet-IsSound, put_port-IsQuiet}
use soupbintcp.Server.Run.Quiet.{call_either-IsQuiet}
use soupbintcp.Server.Run.Ports.{
  send_message-IsQuiet, send_built_message-IsQuiet, send_debug-IsQuiet,
  acceptor_end_session-IsQuiet, stop-IsQuiet,
}
use soupbintcp.Server.Run.Ends.{
  login_owner-Keeps, heartbeat_owner-Keeps, closed-IsSound, login_timer_stopped-IsSound,
  heartbeat_timer_stopped-IsSound,
}
use soupbintcp.Server.Run.Sockets.{Holds, socket_owner-Keeps}
use soupbintcp.Server.Run.Accepting.{accept_success-IsSound}

step-IsSound : (w w' : World) → IsSound w → Step w w' → IsSound w'
unfolding Acceptor.accept_failure Port.set_next_sequence_number
step-IsSound w _ h (Step.connection_accepted asio i limit banner new) =
    accept_success-IsSound asio w i limit banner h new
step-IsSound w _ h (Step.accept_failed ec) =
    IsQuiet-IsSound (call_either-IsQuiet w none (accept_failed ec)) h
step-IsSound w _ h (Step.header_read asio i n ec bytes listed) =
    (SocketKeeping.header_completed-I (socket_owner asio i) (Holds w.connections)
      (socket_owner-Keeps asio i w.connections listed) w ec n bytes
      (record { sound = h; listing = record { same = refl } })).sound
step-IsSound w _ h (Step.payload_read asio i n ec bytes listed) =
    (SocketKeeping.payload_completed-I (socket_owner asio i) (Holds w.connections)
      (socket_owner-Keeps asio i w.connections listed) w ec n bytes
      (record { sound = h; listing = record { same = refl } })).sound
step-IsSound w _ h (Step.packet_written asio i n ec listed) =
    (SocketKeeping.write_completed-I (socket_owner asio i) (Holds w.connections)
      (socket_owner-Keeps asio i w.connections listed) w ec n
      (record { sound = h; listing = record { same = refl } })).sound
step-IsSound w _ h (Step.login_waited i ec listed) =
    LoginKeeping.wait_completed-I (login_owner i) IsSound (login_owner-Keeps i) w ec h
step-IsSound w _ h (Step.heartbeat_waited i ec thrown listed) =
    HeartbeatKeeping.wait_completed-I (heartbeat_owner i) IsSound (heartbeat_owner-Keeps i) w ec
      thrown h
step-IsSound w _ h (Step.socket_closed i listed signaled) = closed-IsSound w i signaled h
step-IsSound w _ h (Step.login_timer_stopped i listed) = login_timer_stopped-IsSound w i h
step-IsSound w _ h (Step.heartbeat_timer_stopped i listed) = heartbeat_timer_stopped-IsSound w i h
step-IsSound w _ h (Step.message_sent p message size) =
    IsQuiet-IsSound (send_message-IsQuiet w p message size) h
step-IsSound w _ h (Step.built_message_sent p message) =
    IsQuiet-IsSound (send_built_message-IsQuiet w p message) h
step-IsSound w _ h (Step.debug_sent p text) = IsQuiet-IsSound (send_debug-IsQuiet w p text) h
step-IsSound w _ h (Step.number_set p n) = IsQuiet-IsSound (put_port-IsQuiet w p _ refl) h
step-IsSound w _ h Step.session_ended = IsQuiet-IsSound (acceptor_end_session-IsQuiet w) h
step-IsSound w _ h Step.stopped = IsQuiet-IsSound (stop-IsQuiet w) h

idle-IsSound : (w : World) → IsIdle w → IsSound w
idle-IsSound w h = record {
  single = record { single = λ i p at alive. let blank = h.blank i in ground arith };
  sane = λ i.
      let open_still = h.open_still i in
      let unsignaled = h.unsignaled i in
      let unclosed = h.unclosed i in
      record { closing = ground arith; signaled = ground arith; ended = ground arith };
  fresh = λ i p e at. let detached = h.detached p in ground arith;
  back = λ i p at. let detached = h.detached p in ground arith;
  live = λ i p at. let detached = h.detached p in ground arith;
}

Reachable-IsSound : (start w : World) → IsIdle start → Reachable start w → IsSound w
Reachable-IsSound start _ idle begun = idle-IsSound start idle
Reachable-IsSound start w idle (continued v _ before step) =
    step-IsSound v w (Reachable-IsSound start v idle before) step

-- The connections of one account that are not disconnected are one, and a port points to a connection
-- of the list that points back.
pub record IsWired (w : World) : Type 0 where
  pub alone :
      (i j p : ℕ)
      → (w.connection_at i).port ≡ some p
      → (w.connection_at j).port ≡ some p
      → (w.connection_at i).state.state ≢ disconnected
      → (w.connection_at j).state.state ≢ disconnected
      → i ≡ j
  pub listed : (i p : ℕ) → (w.port_at p).connection ≡ some i → is_listed i w.connections ≡ true
  pub returned : (i p : ℕ) → (w.port_at p).connection ≡ some i → (w.connection_at i).port ≡ some p

-- In every state that an acceptor reaches that has ports and no connection when it starts, by
-- accepted connections, completed reads, writes and waits, the posted calls of its sockets and
-- timers, and what the user asks of its ports and of it, in any order and with whatever bytes and
-- error codes: at most one connection of an account is not disconnected; and the connection that
-- a port points to is in the list of connections and points back to the port.
pub Reachable-IsWired : (start w : World) → IsIdle start → Reachable start w → IsWired w
Reachable-IsWired start w idle reached =
    let h = Reachable-IsSound start w idle reached in
    record {
      alone = λ i j p at_i at_j alive_i alive_j.
          let first = h.single.single i p at_i alive_i in
          let second = h.single.single j p at_j alive_j in ground (arith, first, second);
      listed = h.live;
      returned = h.back;
    }
