-- ===== src/ConnectionState/Laws.antt =====
-- The reason of a disconnect: the first one given stays.
use soupbintcp.Common.{◌≡◌, ◌≢◌, true, false, List, [], ◌∷◌, arith}
use soupbintcp.Types.{DisconnectReason}
use soupbintcp.ConnectionState.{
  ConnectionState, disconnected, is_closing, initiate_disconnect, disconnect,
}

-- What the owners of a connection state do to it.
pub data Action : Type 0 where
  initiates disconnects : DisconnectReason → Action

abbrev pub act : ConnectionState → Action → ConnectionState
act c (initiates r) = (initiate_disconnect c r).0
act c (disconnects r) = (disconnect c r).0

pub run : ConnectionState → List Action → ConnectionState
run c [] = c
run c (a ∷ actions) = run (act c a) actions

-- A connection that is closing with a reason.
abbrev pub IsClosed : ConnectionState → DisconnectReason → Type 0
IsClosed c r = (is_closing c ≡ true) × (c.reason ≡ r)

act-IsClosed :
    (c : ConnectionState) (a : Action) {r : DisconnectReason}
    → r ≢ DisconnectReason.none
    → IsClosed c r
    → IsClosed (act c a) r
unfolding initiate_disconnect disconnect is_closing
act-IsClosed c (initiates s) some_reason h = ground arith
act-IsClosed c (disconnects s) some_reason h = ground arith

run-IsClosed :
    (c : ConnectionState) (actions : List Action) {r : DisconnectReason}
    → r ≢ DisconnectReason.none
    → IsClosed c r
    → IsClosed (run c actions) r
unfolding run
run-IsClosed c [] some_reason h = h
run-IsClosed c (a ∷ actions) some_reason h =
    run-IsClosed (act c a) actions some_reason (act-IsClosed c a some_reason h)

abbrev pub reason_of : Action → DisconnectReason
reason_of (initiates r) = r
reason_of (disconnects r) = r

-- The first reason given to an open connection, pending or observed, is its reason from then on,
-- whatever sequence of `initiate_disconnect` and `disconnect` follows, and it stays closing.
pub first_reason_wins :
    (c : ConnectionState) (a : Action) (actions : List Action)
    → is_closing c ≡ false
    → c.reason ≡ DisconnectReason.none
    → reason_of a ≢ DisconnectReason.none
    → IsClosed (run c (a ∷ actions)) (reason_of a)
unfolding run
first_reason_wins c a actions live fresh some_reason =
    run-IsClosed (act c a) actions some_reason (first c a live fresh)
  where
    first :
        (c : ConnectionState) (a : Action)
        → is_closing c ≡ false
        → c.reason ≡ DisconnectReason.none
        → IsClosed (act c a) (reason_of a)
    first c (initiates r) live fresh = unfold initiate_disconnect is_closing in ground arith
    first c (disconnects r) live fresh = unfold disconnect is_closing in ground arith

-- `disconnect` reports a change exactly when the connection was not disconnected, and `initiate_disconnect` exactly when
-- it was not closing; where they report none, nothing has changed.
pub reports_change :
    (c : ConnectionState) (r : DisconnectReason)
    → ((disconnect c r).0.state ≡ disconnected)
      × ((disconnect c r).1 ≡ false → (disconnect c r).0 ≡ c)
      × ((disconnect (disconnect c r).0 r).1 ≡ false)
      × ((initiate_disconnect c r).1 ≡ false
          → ((initiate_disconnect c r).0 ≡ c) × (is_closing c ≡ true))
unfolding disconnect initiate_disconnect is_closing
reports_change c r = (ground arith, (λ h. ground arith), ground arith, (λ h. ground arith))
