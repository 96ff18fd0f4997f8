-- ===== src/HeartbeatTimer/Laws.antt =====
-- When the heartbeat timer reports silence, and how it stops.
use soupbintcp.Common.{
  ℕ, zero, suc, ◌+◌, ◌≤◌, ◌<◌, ◌≡◌, refl, ◌∙◌, true, false, Bool-cases, inl, inr, arith, ◌==◌, ◌*◌,
  ◌-◌, ==_iff, leb,
}
use soupbintcp.Constants.{heartbeat_period}
use soupbintcp.Error.{success}
use soupbintcp.HeartbeatTimer.{
  HeartbeatTimer, Owner, maybe_signal_stopped, schedule, send_and_schedule, on_expiry,
  wait_completed,
}

abbrev waiting : HeartbeatTimer → HeartbeatTimer
waiting t = record t { wait_pending = true }

-- A timer that has been started and waits, with `period` seconds of silence behind it.
pub record IsSilent (t : HeartbeatTimer) (period : ℕ) : Type 0 where
  pub started : t.started ≡ true
  pub waiting : t.wait_pending ≡ true
  pub unheard : t.receive_count ≡ 0
  pub silence : t.no_receive_period ≡ period

module _ {W : Type 0} (o : Owner W) (get-put : (w : W) (t : HeartbeatTimer) → o.get (o.put w t) ≡ t)
    (sends : (w : W) → o.get (o.heartbeat_send_due w) ≡ o.get w) where
  open o use {get, put}

  -- The sequence of `k` waits that complete without an error.
  pub expire : ℕ → W → W
  expire zero w = w
  expire (suc k) w = expire k (wait_completed o w success success)

  send_and_schedule-get :
      (w : W)
      → (get w).started ≡ true
      → get (send_and_schedule o w success) ≡ record (get w) { send_count = 0; wait_pending = true }
  unfolding send_and_schedule schedule
  send_and_schedule-get w on = elim (Bool-cases ((get w).send_count == 0)) [
    | inl e ↦ rw (e, sends w, on, get-put, (==_iff _ 0).0 e)
    | inr e ↦ rw (e, get-put w, on) (get-put _ _)
  ]

  on_expiry_silent :
      (w : W)
      → (get w).started ≡ true
      → (get w).receive_count ≡ 0
      → (get w).no_receive_period + heartbeat_period < (get w).timeout
      → on_expiry o w success success
        ≡ send_and_schedule o
            (put w
              (record (get w) { no_receive_period = (get w).no_receive_period + heartbeat_period }))
            success
  unfolding on_expiry
  on_expiry_silent w on unheard below =
      let early : leb (get w).timeout ((get w).no_receive_period + heartbeat_period) ≡ false =
        ground arith in
      rw (on, unheard, early)

  -- What a wait that completes in silence, below the timeout, makes of the timer.
  silent_wait :
      (w : W)
      → (get w).started ≡ true
      → (get w).receive_count ≡ 0
      → (get w).no_receive_period + heartbeat_period < (get w).timeout
      → get (wait_completed o w success success) ≡ record (get w) {
        no_receive_period = (get w).no_receive_period + heartbeat_period;
        send_count = 0;
        wait_pending = true;
      }
  unfolding wait_completed maybe_signal_stopped
  silent_wait w on unheard below =
      let idle : HeartbeatTimer = record (get w) { wait_pending = false } in
      let w' : W = put w idle in
      let e : get w' ≡ idle = get-put w idle in
      let t : HeartbeatTimer = record idle {
        no_receive_period = (get w).no_receive_period + heartbeat_period;
      } in
      rw (
        wait_completed,
        on_expiry_silent w' (rw e on) (rw e unheard) (rw e below),
        e,
        send_and_schedule-get (put w' t) (rw (get-put w' t) on),
        get-put w' t,
        get-put,
        on,
      )

  expire-IsSilent :
      (k : ℕ) (w : W) (period : ℕ)
      → IsSilent (get w) period
      → period + k * heartbeat_period < (get w).timeout
      → IsSilent (get (expire k w)) (period + k * heartbeat_period)
        × ((get (expire k w)).timeout ≡ (get w).timeout)
  unfolding expire
  expire-IsSilent zero w period h below = (
    record {
      started = h.started;
      waiting = h.waiting;
      unheard = h.unheard;
      silence = omega (arith, h);
    },
    refl,
  )
  expire-IsSilent (suc k) w period h below =
      let w' : W = wait_completed o w success success in
      let e = silent_wait w h.started h.unheard (omega (arith, h)) in
      let h' : IsSilent (get w') (period + heartbeat_period) = rw e (record {
        started = h.started;
        waiting = refl;
        unheard = h.unheard;
        silence = omega (arith, h);
      }) in
      let same : (get w').timeout ≡ (get w).timeout = rw e in
      let (ih, ih_timeout) =
        expire-IsSilent k w' (period + heartbeat_period) h' (omega (arith, same)) in
      let sum : period + heartbeat_period + k * heartbeat_period
          ≡ period + suc k * heartbeat_period =
        omega arith in
      (rw sum at ih, ih_timeout ∙ same)

  -- The timer of a connection that is told of silence: one more period of silence, and no wait.
  abbrev pub overdue : W → W
  overdue w =
      let quiet = put w (record (get w) { wait_pending = false }) in
      put quiet (record (get quiet) {
        no_receive_period = (get quiet).no_receive_period + heartbeat_period;
      })

  late_wait :
      (w : W)
      → (get w).started ≡ true
      → (get w).receive_count ≡ 0
      → (get w).timeout ≤ (get w).no_receive_period + heartbeat_period
      → let told = o.heartbeat_receive_timeout (overdue w) in
        wait_completed o w success success ≡ put told (maybe_signal_stopped (get told))
  unfolding wait_completed on_expiry
  late_wait w on unheard late =
      let quiet = put w (record (get w) { wait_pending = false }) in
      let e = get-put w (record (get w) { wait_pending = false }) in
      let due : leb (get w).timeout ((get w).no_receive_period + heartbeat_period) ≡ true =
        ground arith in
      rw (wait_completed, on_expiry, overdue, e, on, unheard, due)

  -- A timer that has begun to wait reports no silence in fewer waits than its timeout has seconds, if
  -- nothing is received: it goes on waiting. The wait that completes the timeout calls
  -- `heartbeat_receive_timeout`, and then signals the stop if that call stopped the timer.
  pub silence_detected :
      (w : W)
      → IsSilent (get w) 0
      → 0 < (get w).timeout
      → ((k : ℕ) → k < (get w).timeout → IsSilent (get (expire k w)) k)
        × (let last = expire ((get w).timeout - 1) w in
            let told = o.heartbeat_receive_timeout (overdue last) in
            wait_completed o last success success ≡ put told (maybe_signal_stopped (get told)))
  silence_detected w h positive =
      (early, late_wait last s.started s.unheard (omega (arith, same, s.silence)))
    where
      early : (k : ℕ) → k < (get w).timeout → IsSilent (get (expire k w)) k
      early k below =
          let sum : 0 + k * heartbeat_period ≡ k = omega arith in
          rw sum at ((expire-IsSilent k w 0 h (omega arith)).0)

      last : W
      last = expire ((get w).timeout - 1) w

      s : IsSilent (get last) ((get w).timeout - 1)
      s = early ((get w).timeout - 1) (omega arith)

      same : (get last).timeout ≡ (get w).timeout
      same = (expire-IsSilent ((get w).timeout - 1) w 0 h (omega arith)).1
