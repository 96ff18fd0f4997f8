-- ===== src/HeartbeatTimer/Keeping.antt =====
-- What the callbacks of an owner keep, its heartbeat timer keeps.
use soupbintcp.Common.{◌+◌, true, arith}
use soupbintcp.Constants.{heartbeat_period}
use soupbintcp.Error.{ErrorCode}
use soupbintcp.HeartbeatTimer.{
  HeartbeatTimer, Owner, schedule, start, send_and_schedule, on_expiry, wait_completed,
}

pub record Keeps {W : Type 0} (o : Owner W) (I : W → Type 0) : Type 0 where
  pub put_keeps : (w : W) (t : HeartbeatTimer) → I w → I (o.put w t)
  pub heartbeat_timer_error_keeps :
      (w : W) (ec : ErrorCode) → I w → I (o.heartbeat_timer_error w ec)
  pub heartbeat_send_due_keeps : (w : W) → I w → I (o.heartbeat_send_due w)
  pub heartbeat_receive_timeout_keeps : (w : W) → I w → I (o.heartbeat_receive_timeout w)

module _ {W : Type 0} (o : Owner W) (I : W → Type 0) (law : Keeps o I) where
  open o use {get, put}

  schedule-I : (w : W) (thrown : ErrorCode) → I w → I (schedule o w thrown)
  unfolding schedule
  schedule-I w thrown h = ground (
    arith,
    law.heartbeat_timer_error_keeps w thrown h,
    law.put_keeps w (record (get w) { wait_pending = true }) h,
  )

  pub start-I : (w : W) (thrown thrown_later : ErrorCode) → I w → I (start o w thrown thrown_later)
  unfolding start
  start-I w thrown thrown_later h =
      let started = law.put_keeps w (record (get w) { started = true }) h in
      ground
        (arith, law.heartbeat_timer_error_keeps _ thrown started, schedule-I _ thrown_later started)

  send_and_schedule-I : (w : W) (thrown : ErrorCode) → I w → I (send_and_schedule o w thrown)
  unfolding send_and_schedule
  send_and_schedule-I w thrown h =
      let due = law.heartbeat_send_due_keeps w h in
      let zero_sent = law.put_keeps w (record (get w) { send_count = 0 }) h in
      ground (arith, schedule-I _ thrown due, schedule-I _ thrown zero_sent)

  on_expiry-I : (w : W) (ec thrown : ErrorCode) → I w → I (on_expiry o w ec thrown)
  unfolding on_expiry
  on_expiry-I w ec thrown h =
      let t : HeartbeatTimer = get w in
      let silent =
        law.put_keeps w (record t { no_receive_period = t.no_receive_period + heartbeat_period })
          h in
      let heard = law.put_keeps w (record t { no_receive_period = 0; receive_count = 0 }) h in
      ground (
        arith,
        law.heartbeat_timer_error_keeps w ec h,
        law.heartbeat_receive_timeout_keeps _ silent,
        send_and_schedule-I _ thrown silent,
        send_and_schedule-I _ thrown heard,
      )

  pub wait_completed-I : (w : W) (ec thrown : ErrorCode) → I w → I (wait_completed o w ec thrown)
  unfolding wait_completed
  wait_completed-I w ec thrown h = law.put_keeps _ _ (on_expiry-I _ ec thrown (law.put_keeps w _ h))
