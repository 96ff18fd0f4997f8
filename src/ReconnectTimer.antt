-- ===== src/ReconnectTimer.antt =====
-- include/bc/soup/reconnect_timer.h and src/reconnect_timer.cpp. The client's connection `W` is the
-- handler. Waits that were cancelled may still complete, so Asio may hold several: `waits` has the
-- epoch that each completion handler captured, the latest first.
pub mod Laws
use soupbintcp.Common.{ℕ, ◌+◌, ◌%◌, Bool, true, false, not, List, [], ◌∷◌, ◌==◌, if◌then◌else◌}
use soupbintcp.Constants.{u32_mod}
use soupbintcp.Error.{ErrorCode, failed}

pub record ReconnectTimer : Type 0 where
  pub started : Bool
  pub epoch : ℕ  -- uint32_t
  pub waits : List ℕ

pub record Owner (W : Type 0) : Type 0 where
  pub get : W → ReconnectTimer
  pub put : W → ReconnectTimer → W
  pub reconnect_timer_error : W → ErrorCode → W
  pub reconnect_timer_expired : W → W

unfoldable pub new_reconnect_timer : ReconnectTimer
new_reconnect_timer = record { started = false; epoch = 0; waits = [] }

-- An exception of `cancel` is swallowed.
unfoldable pub stop : ReconnectTimer → ReconnectTimer
stop t = if not t.started then t else record t { started = false }

module _ {W : Type 0} (o : Owner W) where
  open o use {get, put}

  -- `thrown` is what `expires_after` throws, or success. The delay goes to Asio.
  unfoldable pub start : W → ErrorCode → W
  start w thrown =
      let t : ReconnectTimer = get w in
      let epoch = (t.epoch + 1) % u32_mod in
      if t.started
      then w
      else if failed thrown
      then o.reconnect_timer_error (put w (record t { started = false })) thrown
      else put w (record t { started = true; epoch = epoch; waits = epoch ∷ t.waits })

  unfoldable pub on_expiry : W → ErrorCode → W
  on_expiry w ec =
      let w' = put w (record (get w) { started = false }) in
      if not (get w).started
      then w
      else if failed ec
      then o.reconnect_timer_error w' ec
      else o.reconnect_timer_expired w'

  -- The completion handler given to `async_wait`, with the epoch that it captured.
  unfoldable pub wait_completed : W → ℕ → ErrorCode → W
  wait_completed w epoch ec = if not (epoch == (get w).epoch) then w else on_expiry w ec
