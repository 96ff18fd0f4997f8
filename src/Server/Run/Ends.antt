-- ===== src/Server/Run/Ends.antt =====
-- The timers of a connection in a running acceptor, and its end.
use soupbintcp.Common.{
  ℕ, ◌≡◌, ◌≢◌, refl, true, Bool-cases, Option, none, some, inl, inr, List, [], ◌∷◌, arith,
}
use soupbintcp.Types.{DisconnectReason}
use soupbintcp.ConnectionState.{disconnected}
use soupbintcp.LoginTimer.Keeping as LoginKeeping
use soupbintcp.HeartbeatTimer.Keeping as HeartbeatKeeping
use soupbintcp.Server.World.{World, TcpConnection, connection_ended}
use soupbintcp.Server.Port
use soupbintcp.Server.Login
use soupbintcp.Server.Login.{remove}
use soupbintcp.Server.TcpConnection.{
  detach, maybe_signal_closed, closed, login_timer_stopped, heartbeat_timer_stopped, login_owner,
  heartbeat_owner, heartbeat_send_due,
}
use soupbintcp.Server.Run.{is_listed}
use soupbintcp.Server.Run.Sound.{IsSound, IsQuiet-IsSound, put_connection-IsQuiet}
use soupbintcp.Server.Run.Quiet.{
  aside-Goes, call_either-IsQuiet, put_login_timer-Goes, put_heartbeat_timer-Goes,
  disconnect-IsQuiet, handle_transport_error-IsQuiet, write_to_socket-IsQuiet,
}

pub login_owner-Keeps : (i : ℕ) → LoginKeeping.Keeps (login_owner i) IsSound
unfolding login_owner
login_owner-Keeps i = record {
  put_keeps = λ w t h. IsQuiet-IsSound (put_connection-IsQuiet w i _ (put_login_timer-Goes _ t)) h;
  login_timer_error_keeps = λ w ec h. IsQuiet-IsSound (handle_transport_error-IsQuiet w i ec) h;
  login_timer_expired_keeps = λ w h. IsQuiet-IsSound (disconnect-IsQuiet w i _) h;
}

pub heartbeat_owner-Keeps : (i : ℕ) → HeartbeatKeeping.Keeps (heartbeat_owner i) IsSound
unfolding heartbeat_owner heartbeat_send_due
heartbeat_owner-Keeps i = record {
  put_keeps =
      λ w t h. IsQuiet-IsSound (put_connection-IsQuiet w i _ (put_heartbeat_timer-Goes _ t)) h;
  heartbeat_timer_error_keeps = λ w ec h. IsQuiet-IsSound (handle_transport_error-IsQuiet w i ec) h;
  heartbeat_send_due_keeps = λ w h. IsQuiet-IsSound (write_to_socket-IsQuiet w i _) h;
  heartbeat_receive_timeout_keeps = λ w h. IsQuiet-IsSound (disconnect-IsQuiet w i _) h;
}

is_listed-remove :
    (i k : ℕ) (list : List ℕ) → k ≢ i → is_listed k list ≡ true → is_listed k (remove i list) ≡ true
unfolding remove
is_listed-remove i k [] other h = h
is_listed-remove i k (j ∷ list) other h = let rest = is_listed-remove i k list other in ground arith

-- Once detached, no port points to a connection that has ended.
detach-forgets :
    (w : World) (i p : ℕ) (o : Option ℕ)
    → IsSound w
    → (w.connection_at i).port ≡ o
    → ((detach w i o).port_at p).connection ≢ some i
unfolding detach Port.on_closed
detach-forgets w i p none h e at = let old = h.back i p in ground arith
detach-forgets w i p (some q) h e at = let old = h.back i p in ground arith

-- And else it points where it pointed before.
detach-others :
    (w : World) (i k p : ℕ) (o : Option ℕ)
    → ((detach w i o).port_at p).connection ≡ some k
    → (w.port_at p).connection ≡ some k
unfolding detach Port.on_closed
detach-others w i k p none e = e
detach-others w i k p (some q) e = ground arith

detach-keeps :
    (w : World) (i k p : ℕ) (o : Option ℕ)
    → k ≢ i
    → (w.port_at p).connection ≡ some k
    → ((detach w i o).port_at p).connection ≡ some k
unfolding detach Port.on_closed
detach-keeps w i k p none other e = e
detach-keeps w i k p (some q) other e = ground arith

detach-same :
    (w : World) (i : ℕ) (o : Option ℕ)
    → ((detach w i o).connection_at ≡ w.connection_at)
      × ((detach w i o).connections ≡ w.connections)
unfolding detach
detach-same w i none = (refl, refl)
detach-same w i (some p) = (refl, refl)

-- A disconnected connection is removed, and told of.
on_closed-IsSound :
    (w : World) (i : ℕ) (handler : Option ℕ) (reason : DisconnectReason)
    → IsSound w
    → (w.connection_at i).state.state ≡ disconnected
    → IsSound (Login.on_closed (detach w i (w.connection_at i).port) i handler reason)
unfolding Login.on_closed
on_closed-IsSound w i handler reason h gone =
    let o = (w.connection_at i).port in
    let w' : World = detach w i o in
    let (same, list) = detach-same w i o in
    let removed : IsSound (record w' { connections = remove i w'.connections }) = record {
      single = record {
        single = λ k p at alive.
            detach-keeps w i k p o (λ e. alive (rw (e, same) gone))
              (h.single.single k p (rw same at at) (rw same at alive));
      };
      sane = λ k. rw same (h.sane k);
      fresh = λ k p e at. h.fresh k p (rw same at e) (detach-others w i k p o at);
      back = λ k p at. rw same (h.back k p (detach-others w i k p o at));
      live = λ k p at. rw list (
          is_listed-remove i k w.connections (λ e. detach-forgets w i p o h refl (rw e at at))
            (h.live k p (detach-others w i k p o at)));
    } in
    IsQuiet-IsSound (call_either-IsQuiet _ handler (connection_ended reason)) removed

maybe_signal_closed-IsSound : (w : World) (i : ℕ) → IsSound w → IsSound (maybe_signal_closed w i)
unfolding maybe_signal_closed
maybe_signal_closed-IsSound w i h =
    let c : TcpConnection = w.connection_at i in
    elim (Bool-cases c.socket_closed) [
      | inr still_open ↦ rw still_open h
      | inl ended ↦
          let told = on_closed-IsSound w i c.handler c.state.reason h ((h.sane i).ended ended) in
          ground (arith, h, told)
    ]

-- Each part of a connection that ends.
pub closed-IsSound :
    (w : World) (i : ℕ)
    → (w.connection_at i).socket.closed_signaled ≡ true
    → IsSound w
    → IsSound (closed w i)
unfolding closed
closed-IsSound w i signaled h =
    let gone = (h.sane i).closing ((h.sane i).signaled signaled) in
    maybe_signal_closed-IsSound _ i (
      IsQuiet-IsSound (put_connection-IsQuiet w i _ (aside-Goes _ _ refl refl refl (λ e. inr gone)))
        h)

pub login_timer_stopped-IsSound :
    (w : World) (i : ℕ) → IsSound w → IsSound (login_timer_stopped w i)
unfolding login_timer_stopped
login_timer_stopped-IsSound w i h =
    maybe_signal_closed-IsSound _ i (
      IsQuiet-IsSound (put_connection-IsQuiet w i _ (aside-Goes _ _ refl refl refl (λ e. inl e))) h)

pub heartbeat_timer_stopped-IsSound :
    (w : World) (i : ℕ) → IsSound w → IsSound (heartbeat_timer_stopped w i)
unfolding heartbeat_timer_stopped
heartbeat_timer_stopped-IsSound w i h =
    maybe_signal_closed-IsSound _ i (
      IsQuiet-IsSound (put_connection-IsQuiet w i _ (aside-Goes _ _ refl refl refl (λ e. inl e))) h)
