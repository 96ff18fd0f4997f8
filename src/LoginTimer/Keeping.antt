-- ===== src/LoginTimer/Keeping.antt =====
-- What the callbacks of an owner keep, its login timer keeps.
use soupbintcp.Common.{true, arith}
use soupbintcp.Error.{ErrorCode}
use soupbintcp.LoginTimer.{LoginTimer, Owner, start, on_expiry, wait_completed}

pub record Keeps {W : Type 0} (o : Owner W) (I : W → Type 0) : Type 0 where
  pub put_keeps : (w : W) (t : LoginTimer) → I w → I (o.put w t)
  pub login_timer_error_keeps : (w : W) (ec : ErrorCode) → I w → I (o.login_timer_error w ec)
  pub login_timer_expired_keeps : (w : W) → I w → I (o.login_timer_expired w)

module _ {W : Type 0} (o : Owner W) (I : W → Type 0) (law : Keeps o I) where
  open o use {get, put}

  pub start-I : (w : W) (thrown : ErrorCode) → I w → I (start o w thrown)
  unfolding start
  start-I w thrown h =
      let started = law.put_keeps w (record (get w) { started = true }) h in
      ground (
        arith,
        law.login_timer_error_keeps _ thrown started,
        law.put_keeps _
            (record (get (put w (record (get w) { started = true }))) { wait_pending = true })
            started,
      )

  on_expiry-I : (w : W) (ec : ErrorCode) → I w → I (on_expiry o w ec)
  unfolding on_expiry
  on_expiry-I w ec h =
      ground (arith, law.login_timer_error_keeps w ec h, law.login_timer_expired_keeps w h)

  pub wait_completed-I : (w : W) (ec : ErrorCode) → I w → I (wait_completed o w ec)
  unfolding wait_completed
  wait_completed-I w ec h = law.put_keeps _ _ (on_expiry-I _ ec (law.put_keeps w _ h))
