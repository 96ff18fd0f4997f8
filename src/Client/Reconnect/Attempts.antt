-- ===== src/Client/Reconnect/Attempts.antt =====
-- A connection of the client whose attempts to connect fail one after the other.
use soupbintcp.Common.{
  sym, ap, ◌∙◌, length, ◌∷◌, ℕ, zero, suc, ◌^◌, ◌+◌, ◌≡◌, ==_refl, refl, true, false, List, [], All,
  min, arith,
}
use soupbintcp.Constants.{reconnect_max_delay}
use soupbintcp.Types.{DisconnectReason}
use soupbintcp.Error.{ErrorCode, success, failed}
use soupbintcp.ConnectionState
use soupbintcp.ConnectionState.{connecting, disconnected}
use soupbintcp.Socket
use soupbintcp.Socket.{is_aborted, connect_completed}
use soupbintcp.ReconnectTimer
use soupbintcp.Client.World.{
  Call, connection_ended, reconnect_scheduled, connect_failed, connecting_to, connection_call,
  World, Asio,
}
use soupbintcp.Client.Link
use soupbintcp.Client.TcpConnection.{socket_owner, construct}
use soupbintcp.Client.Reconnect.{
  next_delay, is_retryable, maybe_signal_closed, closed, on_closed, schedule_reconnect,
  reconnect_owner,
}
use soupbintcp.Client.Reconnect.Delays.{delay_after, delay_after-doubles}

-- An attempt of a connection that fails: Asio completes the connect with an error, runs the posted
-- `closed`, and then the wait of the reconnect timer, which begins the next attempt.
unfoldable pub attempt : Asio → ℕ → World → ErrorCode → World
attempt asio i w ec =
    let ended = closed asio (connect_completed (socket_owner asio i) w ec) i in
    ReconnectTimer.wait_completed (reconnect_owner asio i) ended
      (ended.connection_at i).reconnect_timer.epoch success

-- A connection that waits for its connect, with the delay that it holds.
pub record IsConnecting (w : World) (i delay : ℕ) : Type 0 where
  pub started : w.started ≡ true
  pub present : (w.connection_at i).connected ≡ true
  pub pending : (w.connection_at i).link.socket.connect_pending ≡ true
  pub state :
      (w.connection_at i).link.state ≡ record { state = connecting; reason = DisconnectReason.none }
  pub login_stopped : (w.connection_at i).link.login_timer_stopped ≡ true
  pub heartbeat_stopped : (w.connection_at i).link.heartbeat_timer_stopped ≡ true
  pub resting : (w.connection_at i).reconnect_timer.started ≡ false
  pub holds : (w.connection_at i).reconnect_next_delay ≡ delay

-- What is known once the connect has failed.
record IsFailed (w w' : World) (i delay : ℕ) (ec : ErrorCode) : Type 0 where
  started : w'.started ≡ true
  reason : (w'.connection_at i).link.state.reason ≡ DisconnectReason.connect_failure
  login_stopped : (w'.connection_at i).link.login_timer_stopped ≡ true
  heartbeat_stopped : (w'.connection_at i).link.heartbeat_timer_stopped ≡ true
  resting : (w'.connection_at i).reconnect_timer.started ≡ false
  holds : (w'.connection_at i).reconnect_next_delay ≡ delay
  told : w'.calls ≡ connection_call i (connect_failed ec) ∷ w.calls

connect-IsFailed :
    (asio : Asio) (w : World) (i delay : ℕ) (ec : ErrorCode)
    → IsConnecting w i delay
    → failed ec ≡ true
    → is_aborted ec ≡ false
    → IsFailed w (connect_completed (socket_owner asio i) w ec) i delay ec
unfolding connect_completed socket_owner Socket.signal Link.handle_connect_failure Link.disconnect
    Link.disconnected ConnectionState.disconnect
connect-IsFailed asio w i delay ec h bad real =
    let s = h.state in
    record {
      started = ground (arith, h, ==_refl i);
      reason = ground (arith, h, ==_refl i);
      login_stopped = ground (arith, h, ==_refl i);
      heartbeat_stopped = ground (arith, h, ==_refl i);
      resting = ground (arith, h, ==_refl i);
      holds = ground (arith, h, ==_refl i);
      told = ground (arith, h, ==_refl i);
    }

-- The end of a connection that has failed.
closed-lem :
    (asio : Asio) (w w' : World) (i delay : ℕ) (ec : ErrorCode)
    → asio.reconnect_expires ≡ success
    → IsFailed w w' i delay ec
    → let ended = closed asio w' i in
      (ended.started ≡ true)
      × ((ended.connection_at i).reconnect_timer.started ≡ true)
      × ((ended.connection_at i).reconnect_next_delay ≡ next_delay delay)
      × (ended.calls
          ≡ connection_call i (reconnect_scheduled delay)
            ∷ connection_call i (connection_ended DisconnectReason.connect_failure)
            ∷ connection_call i (connect_failed ec)
            ∷ w.calls)
unfolding closed maybe_signal_closed on_closed is_retryable schedule_reconnect ReconnectTimer.start
    reconnect_owner
closed-lem asio w w' i delay ec armed h = ground (arith, h, ==_refl i)

-- The next attempt, once the wait is over.
again-IsConnecting :
    (asio : Asio) (w : World) (i delay : ℕ)
    → asio.open_error ≡ success
    → asio.no_delay_error ≡ success
    → w.started ≡ true
    → (w.connection_at i).reconnect_timer.started ≡ true
    → (w.connection_at i).reconnect_next_delay ≡ delay
    → let w' =
        ReconnectTimer.wait_completed
          (reconnect_owner asio i)
          w
          (w.connection_at i).reconnect_timer.epoch
          success in
      IsConnecting w' i delay × (w'.calls ≡ connection_call i connecting_to ∷ w.calls)
unfolding ReconnectTimer.wait_completed ReconnectTimer.on_expiry reconnect_owner construct
    ConnectionState.new_connection_state Socket.open_socket Socket.async_connect Socket.new_socket
    Socket.set_write_packets_limit
again-IsConnecting asio w i delay opened quick started on held = (
  record {
    started = ground (arith, ==_refl i, ==_refl (w.connection_at i).reconnect_timer.epoch);
    present = ground (arith, ==_refl i, ==_refl (w.connection_at i).reconnect_timer.epoch);
    pending = ground (arith, ==_refl i, ==_refl (w.connection_at i).reconnect_timer.epoch);
    state = ground (arith, ==_refl i, ==_refl (w.connection_at i).reconnect_timer.epoch);
    login_stopped = ground (arith, ==_refl i, ==_refl (w.connection_at i).reconnect_timer.epoch);
    heartbeat_stopped =
        ground (arith, ==_refl i, ==_refl (w.connection_at i).reconnect_timer.epoch);
    resting = ground (arith, ==_refl i, ==_refl (w.connection_at i).reconnect_timer.epoch);
    holds = ground (arith, ==_refl i, ==_refl (w.connection_at i).reconnect_timer.epoch);
  },
  ground (arith, ==_refl i, ==_refl (w.connection_at i).reconnect_timer.epoch),
)

-- The seconds to wait after so many attempts that have failed.
abbrev pub pause : ℕ → ℕ
pause zero = 0
pause (suc k) = min (2 ^ k) reconnect_max_delay

pause-delay_after : (k : ℕ) → pause k ≡ delay_after k
unfolding delay_after
pause-delay_after zero = refl
pause-delay_after (suc k) = sym (delay_after-doubles k)

pause-next_delay : (k : ℕ) → next_delay (pause k) ≡ pause (suc k)
unfolding delay_after
pause-next_delay k = ap next_delay (pause-delay_after k) ∙ sym (pause-delay_after (suc k))

-- The attempts that fail with these errors, one after the other.
unfoldable pub attempts : Asio → ℕ → World → List ErrorCode → World
attempts asio i w [] = w
attempts asio i w (ec ∷ errors) = attempts asio i (attempt asio i w ec) errors

-- What the handler is told of them after `k` others, the latest first.
abbrev pub told : ℕ → ℕ → List ErrorCode → List Call → List Call
told i k [] calls = calls
told i k (ec ∷ errors) calls = told i (suc k) errors (
    connection_call i connecting_to
    ∷ connection_call i (reconnect_scheduled (pause k))
    ∷ connection_call i (connection_ended DisconnectReason.connect_failure)
    ∷ connection_call i (connect_failed ec)
    ∷ calls)

-- An error of a connect that has not been cancelled.
abbrev pub IsFailure : ErrorCode → Type 0
IsFailure ec = (failed ec ≡ true) × (is_aborted ec ≡ false)

module _ (asio : Asio) (i : ℕ) (opened : asio.open_error ≡ success)
    (quick : asio.no_delay_error ≡ success) (armed : asio.reconnect_expires ≡ success) where
  attempt-IsConnecting :
      (w : World) (k : ℕ) (ec : ErrorCode)
      → IsConnecting w i (pause k)
      → IsFailure ec
      → IsConnecting (attempt asio i w ec) i (pause (suc k))
        × ((attempt asio i w ec).calls ≡ told i k (ec ∷ []) w.calls)
  unfolding attempt
  attempt-IsConnecting w k ec h (bad, real) =
      let over = connect-IsFailed asio w i (pause k) ec h bad real in
      let (started, on, held, calls) = closed-lem asio w _ i (pause k) ec armed over in
      let (next, more) =
        again-IsConnecting asio _ i (pause (suc k)) opened quick started on
          (held ∙ pause-next_delay k) in
      (next, more ∙ ap (◌∷◌ (connection_call i connecting_to)) calls)

  attempts-lem :
      (errors : List ErrorCode) (w : World) (k : ℕ)
      → IsConnecting w i (pause k)
      → All IsFailure errors
      → IsConnecting (attempts asio i w errors) i (pause (k + length errors))
        × ((attempts asio i w errors).calls ≡ told i k errors w.calls)
  unfolding attempts
  attempts-lem [] w k h bad = let none_more : k + 0 ≡ k = omega arith in (rw none_more h, refl)
  attempts-lem (ec ∷ errors) w k h bad =
      let (next, calls) = attempt-IsConnecting w k ec h bad.0 in
      let (last, rest) = attempts-lem errors (attempt asio i w ec) (suc k) next bad.1 in
      let count : k + suc (length errors) ≡ suc k + length errors = omega arith in
      (rw count last, rest ∙ ap (told i (suc k) errors) calls)

  -- Where a client is started, Asio opens its sockets and starts its reconnect timers without an
  -- error, and a connection waits for its first connect and holds no delay: when Asio completes
  -- its connects with errors, none of which is a cancellation, one attempt after the other, each
  -- followed by the posted `closed` and by the wait of the reconnect timer, the connection waits
  -- for the connect of the next attempt, and its handler has been told of each failure, of the
  -- end, of the delay of the next attempt and of its begin; the first of these delays is 0, and
  -- the one after k + 1 failures is 2 ^ k seconds, but 30 at most.
  pub attempts-IsConnecting :
      (w : World) (errors : List ErrorCode)
      → IsConnecting w i 0
      → All IsFailure errors
      → IsConnecting (attempts asio i w errors) i (pause (length errors))
        × ((attempts asio i w errors).calls ≡ told i 0 errors w.calls)
  attempts-IsConnecting w errors h bad =
      let none_before : 0 + length errors ≡ length errors = omega arith in
      rw none_before at (attempts-lem errors w 0 h bad)
