-- ===== src/Examples/Timers.antt =====
-- Timers of their own, without a connection around them, and the state of a connection.
use soupbintcp.Common.{ℕ, ◌≡◌, ◌<◌, true, false, [], ◌∷◌, refl, arith, All}
use soupbintcp.Types.{DisconnectReason}
use soupbintcp.Error.{ErrorCode, success, operation_aborted}
use soupbintcp.ConnectionState.{is_closing, new_connection_state, logged_in}
use soupbintcp.ConnectionState.Laws.{run, IsClosed, initiates, disconnects, first_reason_wins}
use soupbintcp.HeartbeatTimer
use soupbintcp.HeartbeatTimer.{HeartbeatTimer}
use soupbintcp.HeartbeatTimer.Laws.{IsSilent, expire, overdue, silence_detected}
use soupbintcp.HeartbeatTimer.Stopping
use soupbintcp.LoginTimer
use soupbintcp.LoginTimer.{LoginTimer}
use soupbintcp.LoginTimer.Laws
use soupbintcp.ReconnectTimer
use soupbintcp.ReconnectTimer.{ReconnectTimer}
use soupbintcp.ReconnectTimer.Laws.{IsPast, restart_forgets}

-- A heartbeat timer whose callbacks do nothing but stop it when silence is reported.
abbrev heartbeat_owner : HeartbeatTimer.Owner HeartbeatTimer
heartbeat_owner = record {
  get = λ t. t;
  put = λ t s. s;
  heartbeat_timer_error = λ t ec. t;
  heartbeat_send_due = λ t. t;
  heartbeat_receive_timeout = λ t. HeartbeatTimer.stop t;
}

abbrev beating : HeartbeatTimer
beating = record {
  timeout = 5;
  no_receive_period = 0;
  receive_count = 0;
  send_count = 2;
  started = true;
  wait_pending = true;
  stopped_signaled = false;
}

beating-IsSilent : IsSilent beating 0
beating-IsSilent = record { started = refl; waiting = refl; unheard = refl; silence = refl }

abbrev waits : ℕ → HeartbeatTimer
waits k = expire heartbeat_owner (λ t s. refl) (λ t. refl) k beating

abbrev told : HeartbeatTimer
told = HeartbeatTimer.stop (overdue heartbeat_owner (λ t s. refl) (λ t. refl) (waits 4))

silence_detected_example :
    ((k : ℕ) → k < 5 → IsSilent (waits k) k)
    × (HeartbeatTimer.wait_completed heartbeat_owner (waits 4) success success
        ≡ HeartbeatTimer.maybe_signal_stopped told)
silence_detected_example =
    silence_detected heartbeat_owner (λ t s. refl) (λ t. refl) beating beating-IsSilent
      (omega arith)

heartbeat_stop-wait_example :
    (HeartbeatTimer.stop beating ≡ record beating { started = false })
    × (HeartbeatTimer.wait_completed heartbeat_owner
          (HeartbeatTimer.stop beating)
          operation_aborted
          success
        ≡ HeartbeatTimer.Stopping.finished heartbeat_owner (λ t s. refl) beating)
heartbeat_stop-wait_example =
    HeartbeatTimer.Stopping.heartbeat_stop-wait heartbeat_owner (λ t s. refl) beating
      operation_aborted success refl refl refl

-- A login timer that stops itself when it expires.
abbrev login_owner : LoginTimer.Owner LoginTimer
login_owner = record {
  get = λ t. t;
  put = λ t s. s;
  login_timer_error = λ t ec. t;
  login_timer_expired = λ t. LoginTimer.stop t;
}

abbrev idle : LoginTimer
idle = record { timeout = 30; started = false; wait_pending = false; stopped_signaled = false }

abbrev waiting : LoginTimer
waiting = record { timeout = 30; started = true; wait_pending = true; stopped_signaled = false }

login_stop-wait_example :
    (LoginTimer.stop waiting ≡ record waiting { started = false })
    × (LoginTimer.wait_completed login_owner (LoginTimer.stop waiting) operation_aborted
        ≡ LoginTimer.Laws.finished login_owner (λ t s. refl) waiting)
login_stop-wait_example =
    LoginTimer.Laws.login_stop-wait login_owner (λ t s. refl) waiting operation_aborted refl refl
      refl

-- A reconnect timer whose expiry changes nothing else.
abbrev reconnect_owner : ReconnectTimer.Owner ReconnectTimer
reconnect_owner = record {
  get = λ t. t;
  put = λ t s. s;
  reconnect_timer_error = λ t ec. t;
  reconnect_timer_expired = λ t. t;
}

abbrev cancelled : ReconnectTimer
cancelled = record { started = false; epoch = 2; waits = 2 ∷ 1 ∷ [] }

abbrev restarted : ReconnectTimer
restarted = ReconnectTimer.start reconnect_owner cancelled success

restart_forgets_example :
    IsPast restarted
    × All
        (λ e.
          (ec : ErrorCode)
          → ReconnectTimer.wait_completed reconnect_owner restarted e ec ≡ restarted)
        (2 ∷ 1 ∷ [])
    × (ReconnectTimer.wait_completed reconnect_owner restarted restarted.epoch success
        ≡ record restarted { started = false })
restart_forgets_example =
    restart_forgets reconnect_owner (λ t s. refl) cancelled refl (omega arith)
      (omega arith, (omega arith, tt))

first_reason_wins_example :
    IsClosed
      (run (new_connection_state logged_in) (
        initiates DisconnectReason.access_denied
        ∷ disconnects DisconnectReason.unmanaged_abort
        ∷ disconnects DisconnectReason.user_initiated
        ∷ []))
      DisconnectReason.access_denied
unfolding new_connection_state is_closing
first_reason_wins_example =
    first_reason_wins (new_connection_state logged_in) (initiates DisconnectReason.access_denied)
      (disconnects DisconnectReason.unmanaged_abort
        ∷ disconnects DisconnectReason.user_initiated
        ∷ [])
      refl refl (cc)
