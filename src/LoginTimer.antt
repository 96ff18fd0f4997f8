-- ===== src/LoginTimer.antt =====
-- include/bc/soup/login_timer.h and src/login_timer.cpp. The conventions are those of the heartbeat
-- timer: the connection `W` is the handler, and Asio's answers are arguments.
pub mod Keeping
pub mod Laws
use soupbintcp.Common.{ℕ, Bool, true, false, not, ◌&&◌, if◌then◌else◌}
use soupbintcp.Error.{ErrorCode, failed}

pub record LoginTimer : Type 0 where
  pub timeout : ℕ  -- seconds
  pub started : Bool
  pub wait_pending : Bool
  pub stopped_signaled : Bool

pub record Owner (W : Type 0) : Type 0 where
  pub get : W → LoginTimer
  pub put : W → LoginTimer → W
  pub login_timer_error : W → ErrorCode → W
  pub login_timer_expired : W → W

unfoldable pub new_login_timer : ℕ → LoginTimer
new_login_timer timeout = record {
  timeout = timeout;
  started = false;
  wait_pending = false;
  stopped_signaled = false;
}

unfoldable pub maybe_signal_stopped : LoginTimer → LoginTimer
maybe_signal_stopped t =
    if not t.started && (not t.stopped_signaled && not t.wait_pending)
    then record t { stopped_signaled = true }
    else t

-- An exception of `cancel` is swallowed.
unfoldable pub stop : LoginTimer → LoginTimer
unfolding maybe_signal_stopped
stop t = if not t.started then t else maybe_signal_stopped (record t { started = false })

module _ {W : Type 0} (o : Owner W) where
  open o use {get, put}

  -- `thrown` is what `expires_after` throws, or success.
  unfoldable pub start : W → ErrorCode → W
  start w thrown =
      let w' = put w (record (get w) { started = true }) in
      if (get w).started
      then w
      else if failed thrown
      then o.login_timer_error w' thrown
      else put w' (record (get w') { wait_pending = true })

  unfoldable pub on_expiry : W → ErrorCode → W
  on_expiry w ec =
      if not (get w).started
      then w
      else if failed ec
      then o.login_timer_error w ec
      else o.login_timer_expired w

  -- The completion handler given to `async_wait`.
  unfoldable pub wait_completed : W → ErrorCode → W
  wait_completed w ec =
      let w' = on_expiry (put w (record (get w) { wait_pending = false })) ec in
      put w' (maybe_signal_stopped (get w'))
