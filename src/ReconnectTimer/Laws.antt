-- ===== src/ReconnectTimer/Laws.antt =====
-- Waits of the reconnect timer that were cancelled do not reconnect.
use soupbintcp.Common.{
  ℕ, ◌+◌, ◌%◌, ◌≤◌, ◌<◌, ◌≡◌, refl, true, false, List, [], ◌∷◌, All, arith, ◌==◌, ==_refl,
}
use native.Mathlib.Nat.{le_refl}
use soupbintcp.Constants.{u32_mod}
use soupbintcp.Error.{ErrorCode, success}
use soupbintcp.ReconnectTimer.{ReconnectTimer, Owner, start, on_expiry, wait_completed}

-- No wait that Asio holds is from a later epoch.
abbrev pub IsPast : ReconnectTimer → Type 0
IsPast t = All (λ e. e ≤ t.epoch) t.waits

module _ {W : Type 0} (o : Owner W)
    (get-put : (w : W) (t : ReconnectTimer) → o.get (o.put w t) ≡ t) where
  open o use {get, put}

  weaken :
      (waits : List ℕ) (epoch : ℕ) → All (λ e. e ≤ epoch) waits → All (λ e. e ≤ epoch + 1) waits
  weaken [] epoch h = tt
  weaken (e ∷ waits) epoch h = (omega arith, weaken waits epoch h.1)

  stale :
      (w : W) (waits : List ℕ) (epoch : ℕ)
      → All (λ e. e ≤ epoch) waits
      → (get w).epoch ≡ epoch + 1
      → All (λ e. (ec : ErrorCode) → wait_completed o w e ec ≡ w) waits
  unfolding wait_completed
  stale w [] epoch h now = tt
  stale w (e ∷ waits) epoch h now =
      let past : (e == (get w).epoch) ≡ false = ground arith in
      (λ ec. rw past, stale w waits epoch h.1 now)

  live :
      (w : W)
      → (get w).started ≡ true
      → wait_completed o w (get w).epoch success
        ≡ o.reconnect_timer_expired (put w (record (get w) { started = false }))
  unfolding wait_completed on_expiry
  live w on = rw (==_refl (get w).epoch, on)

  restarted_timer : W → ReconnectTimer
  restarted_timer w = record {
    started = true;
    epoch = (get w).epoch + 1;
    waits = ((get w).epoch + 1) ∷ (get w).waits;
  }

  start-eq :
      (w : W)
      → (get w).started ≡ false
      → (get w).epoch + 1 < u32_mod
      → start o w success ≡ put w (restarted_timer w)
  unfolding start restarted_timer
  start-eq w off few =
      let next : ((get w).epoch + 1) % u32_mod ≡ (get w).epoch + 1 = omega arith in rw (off, next)

  -- A timer that was started again, fewer than 2 ^ 32 - 1 times in all: the completions of the waits
  -- from before change nothing, whatever their error code, and that of the new wait calls
  -- `reconnect_timer_expired` on the connection whose timer is no longer started.
  pub restart_forgets :
      (w : W)
      → (get w).started ≡ false
      → (get w).epoch + 1 < u32_mod
      → IsPast (get w)
      → let restarted = start o w success in
        IsPast (get restarted)
        × All (λ e. (ec : ErrorCode) → wait_completed o restarted e ec ≡ restarted) (get w).waits
        × (wait_completed o restarted (get restarted).epoch success
            ≡ o.reconnect_timer_expired
                (put restarted (record (get restarted) { started = false })))
  restart_forgets w off few past =
      let t : ReconnectTimer = restarted_timer w in
      let e : get (put w t) ≡ t = get-put w t in
      rw (start-eq w off few) (
        rw e (unfold restarted_timer in (le_refl _, weaken (get w).waits (get w).epoch past)),
        stale (put w t) (get w).waits (get w).epoch past (rw e (unfold restarted_timer in refl)),
        live (put w t) (rw e (unfold restarted_timer in refl)),
      )
