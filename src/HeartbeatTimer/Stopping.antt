-- ===== src/HeartbeatTimer/Stopping.antt =====
-- How the heartbeat timer stops: at once, or when the wait that Asio holds completes.
use soupbintcp.Common.{◌≡◌, true, false, arith}
use soupbintcp.Error.{ErrorCode}
use soupbintcp.HeartbeatTimer.{
  HeartbeatTimer, Owner, maybe_signal_stopped, stop, on_expiry, wait_completed,
}

-- The stop is signalled only of a timer that is stopped and that no wait will call.
abbrev pub IsQuiet : HeartbeatTimer → Type 0
IsQuiet t = t.stopped_signaled ≡ true → (t.started ≡ false) × (t.wait_pending ≡ false)

pub stop-IsQuiet : (t : HeartbeatTimer) → IsQuiet t → IsQuiet (stop t)
unfolding stop maybe_signal_stopped
stop-IsQuiet t h = ground arith

module _ {W : Type 0} (o : Owner W)
    (get-put : (w : W) (t : HeartbeatTimer) → o.get (o.put w t) ≡ t) where
  open o use {get, put}

  -- What is left of a timer that has told its owner that it stopped.
  abbrev pub finished : HeartbeatTimer → HeartbeatTimer
  finished t = record t { started = false; wait_pending = false; stopped_signaled = true }

  -- A stop of a started timer is signalled at once if Asio holds no wait. If it holds one, the stop
  -- is signalled when that wait completes, with whatever error code, and no callback is made.
  stop_signals :
      (w : W)
      → (get w).started ≡ true
      → (get w).stopped_signaled ≡ false
      → ((get w).wait_pending ≡ false → stop (get w) ≡ finished (get w))
        × ((get w).wait_pending ≡ true
            → (stop (get w) ≡ record (get w) { started = false })
              × ((ec thrown : ErrorCode)
                  → let stopping = put w (stop (get w)) in
                    let quiet = put stopping (record (get stopping) { wait_pending = false }) in
                    wait_completed o stopping ec thrown ≡ put quiet (finished (get w))))
  unfolding stop maybe_signal_stopped wait_completed on_expiry
  stop_signals w on fresh =
      (λ h. ground arith, λ h. (ground arith, λ ec thrown. last_wait h ec thrown))
    where
      last_wait :
          (get w).wait_pending ≡ true
          → (ec thrown : ErrorCode)
          → let stopping = put w (stop (get w)) in
            let quiet = put stopping (record (get stopping) { wait_pending = false }) in
            wait_completed o stopping ec thrown ≡ put quiet (finished (get w))
      last_wait h ec thrown =
          let held : HeartbeatTimer = record (get w) { started = false } in
          let e : stop (get w) ≡ held = ground arith in
          let idle : HeartbeatTimer = record held { wait_pending = false } in
          let t : get (put (put w held) idle) ≡ idle = get-put _ _ in
          rw (e, wait_completed, on_expiry, get-put w held, t) (ground arith)

  -- A stop of a started timer while Asio holds a wait is not signalled yet; when that wait completes,
  -- with whatever error code, the stop is signalled and no callback is made.
  pub heartbeat_stop-wait :
      (w : W) (ec thrown : ErrorCode)
      → (get w).started ≡ true
      → (get w).stopped_signaled ≡ false
      → (get w).wait_pending ≡ true
      → let stopping = put w (stop (get w)) in
        let quiet = put stopping (record (get stopping) { wait_pending = false }) in
        (stop (get w) ≡ record (get w) { started = false })
        × (wait_completed o stopping ec thrown ≡ put quiet (finished (get w)))
  heartbeat_stop-wait w ec thrown on fresh held =
      let (stopped, last) = (stop_signals w on fresh).1 held in (stopped, last ec thrown)
