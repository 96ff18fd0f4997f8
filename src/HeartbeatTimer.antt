-- ===== src/HeartbeatTimer.antt =====
-- include/bc/soup/heartbeat_timer.h and src/heartbeat_timer.cpp. The timer lives in a connection `W`,
-- its handler; an `Owner` says where, and what the handler's callbacks do to the connection.
-- `wait_pending` stands for the wait that Asio holds, and `stopped_signaled` for the posted call of
-- `heartbeat_timer_stopped`. What Asio answers is an argument: `expires_at` may throw, and a wait
-- completes with an error code.
pub mod Keeping
pub mod Laws
pub mod Stopping
use soupbintcp.Common.{ℕ, ◌+◌, ◌%◌, Bool, true, false, not, ◌&&◌, leb, ◌==◌, if◌then◌else◌}
use soupbintcp.Constants.{heartbeat_period, u32_mod}
use soupbintcp.Error.{ErrorCode, failed}

pub record HeartbeatTimer : Type 0 where
  pub timeout : ℕ  -- seconds
  pub no_receive_period : ℕ  -- seconds
  pub receive_count : ℕ  -- uint32_t
  pub send_count : ℕ  -- uint32_t
  pub started : Bool
  pub wait_pending : Bool
  pub stopped_signaled : Bool

pub record Owner (W : Type 0) : Type 0 where
  pub get : W → HeartbeatTimer
  pub put : W → HeartbeatTimer → W
  pub heartbeat_timer_error : W → ErrorCode → W
  pub heartbeat_send_due : W → W
  pub heartbeat_receive_timeout : W → W

unfoldable pub new_heartbeat_timer : ℕ → HeartbeatTimer
new_heartbeat_timer timeout = record {
  timeout = timeout;
  no_receive_period = 0;
  receive_count = 0;
  send_count = 0;
  started = false;
  wait_pending = false;
  stopped_signaled = false;
}

unfoldable pub increment_receive_count : HeartbeatTimer → HeartbeatTimer
increment_receive_count t = record t { receive_count = (t.receive_count + 1) % u32_mod }

unfoldable pub increment_send_count : HeartbeatTimer → HeartbeatTimer
increment_send_count t = record t { send_count = (t.send_count + 1) % u32_mod }

unfoldable pub maybe_signal_stopped : HeartbeatTimer → HeartbeatTimer
maybe_signal_stopped t =
    if not t.started && (not t.stopped_signaled && not t.wait_pending)
    then record t { stopped_signaled = true }
    else t

-- An exception of `cancel` is swallowed.
unfoldable pub stop : HeartbeatTimer → HeartbeatTimer
unfolding maybe_signal_stopped
stop t = if not t.started then t else maybe_signal_stopped (record t { started = false })

module _ {W : Type 0} (o : Owner W) where
  open o use {get, put}

  -- `thrown` is what `expires_at` throws, or success.
  unfoldable pub schedule : W → ErrorCode → W
  schedule w thrown =
      if failed thrown
      then o.heartbeat_timer_error w thrown
      else put w (record (get w) { wait_pending = true })

  unfoldable pub start : W → ErrorCode → ErrorCode → W
  start w thrown thrown_later =
      let w' = put w (record (get w) { started = true }) in
      if (get w).started
      then w
      else if failed thrown
      then o.heartbeat_timer_error w' thrown
      else schedule w' thrown_later

  -- The last part of `on_expiry`: what is due to be sent, and the next wait.
  unfoldable pub send_and_schedule : W → ErrorCode → W
  send_and_schedule w thrown =
      let t : HeartbeatTimer = get w in
      let w' =
        if t.send_count == 0 then o.heartbeat_send_due w else put w (record t { send_count = 0 }) in
      if not (get w').started then w' else schedule w' thrown

  unfoldable pub on_expiry : W → ErrorCode → ErrorCode → W
  on_expiry w ec thrown =
      let t : HeartbeatTimer = get w in
      let period = t.no_receive_period + heartbeat_period in
      let silent = put w (record t { no_receive_period = period }) in
      let heard = put w (record t { no_receive_period = 0; receive_count = 0 }) in
      if not t.started
      then w
      else if failed ec
      then o.heartbeat_timer_error w ec
      else if t.receive_count == 0
      then if leb t.timeout period
        then o.heartbeat_receive_timeout silent
        else send_and_schedule silent thrown
      else send_and_schedule heard thrown

  -- The completion handler given to `async_wait`.
  unfoldable pub wait_completed : W → ErrorCode → ErrorCode → W
  wait_completed w ec thrown =
      let w' = on_expiry (put w (record (get w) { wait_pending = false })) ec thrown in
      put w' (maybe_signal_stopped (get w'))
