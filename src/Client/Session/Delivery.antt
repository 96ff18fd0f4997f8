-- ===== src/Client/Session/Delivery.antt =====
-- The messages that a client delivers, whatever connections they come over: each number once, and in
-- order.
use soupbintcp.Common.{
  ℕ, ◌+◌, ◌≤◌, ◌≢◌, ◌<◌, ◌≡◌, ◌⊎◌, refl, ap, ◌∙◌, true, inl, inr, Bool-cases, false, Bool, List, [],
  ◌∷◌, Bytes, arith,
}
use soupbintcp.Constants.{u64_mod}
use soupbintcp.Types.{DisconnectReason}
use soupbintcp.ConnectionState
use soupbintcp.ConnectionState.{
  set_state, state_eq, State, connecting, connected, logged_in, disconnecting, disconnected,
}
use soupbintcp.LogicalPackets.{default_login_accepted, read_login_accepted, LoginAcceptedPacket}
use soupbintcp.HeartbeatTimer
use soupbintcp.LoginTimer
use soupbintcp.HeartbeatTimer.{HeartbeatTimer}
use soupbintcp.Error.{ErrorCode}
use soupbintcp.Client.World.{
  World, TcpConnection, Asio, Call, Event, login_succeeded, tell, transport_failed, sequenced_data,
  connection_call, end_of_session, put_link,
}
use soupbintcp.Client.Link
use soupbintcp.Client.Link.{link}
use soupbintcp.Client.Session.{on_login_success, on_sequenced_data, client_on_sequenced_data}
use soupbintcp.Client.TcpConnection.{
  process_sequenced_data, process_login_accepted, login_judged, heartbeat_owner,
}

-- A connection that has connected and is not closing.
abbrev pub has_entered : State → Bool
has_entered connected = true
has_entered logged_in = true
has_entered _ = false

-- No such connection is ahead of the client.
pub record IsBehind (w : World) : Type 0 where
  pub behind :
      (i : ℕ)
      → has_entered (link w i).state.state ≡ true
      → (w.connection_at i).next_sequence_number ≤ w.next_sequence_number

-- A message that is taken is the next one of the client.
pub process_sequenced_data-IsBehind :
    (w : World) (i : ℕ) (text : Bytes)
    → IsBehind w
    → w.next_sequence_number + 1 < u64_mod
    → IsBehind (process_sequenced_data w i text).0
      × (((process_sequenced_data w i text).0.calls ≡ w.calls)
            × ((process_sequenced_data w i text).0.next_sequence_number ≡ w.next_sequence_number)
          ⊎ ((process_sequenced_data w i text).0.calls
              ≡ sequenced_data w.next_sequence_number text ∷ w.calls)
            × ((process_sequenced_data w i text).0.next_sequence_number
                ≡ w.next_sequence_number + 1))
unfolding process_sequenced_data on_sequenced_data client_on_sequenced_data
process_sequenced_data-IsBehind w i text h few =
    let b = h.behind i in
    (record { behind = λ j e. let c = h.behind j in ground arith }, ground arith)

-- The numbers of the messages that the client's handler got, the latest first.
unfoldable pub delivered : List Call → List ℕ
delivered [] = []
delivered (sequenced_data n text ∷ calls) = n ∷ delivered calls
delivered (connection_call i e ∷ calls) = delivered calls
delivered (end_of_session ∷ calls) = delivered calls

-- A step that delivers nothing and lets no connection enter.
record IsSilent (w w' : World) : Type 0 where
  number : w'.next_sequence_number ≡ w.next_sequence_number
  calls : delivered w'.calls ≡ delivered w.calls
  numbers :
      (j : ℕ) → (w'.connection_at j).next_sequence_number ≡ (w.connection_at j).next_sequence_number
  states :
      (j : ℕ)
      → has_entered (link w' j).state.state ≡ true
      → has_entered (link w j).state.state ≡ true

disconnected-state :
    (t : TcpConnection) (r : DisconnectReason) → (Link.disconnected t r).state.state ≡ disconnected
unfolding Link.disconnected ConnectionState.disconnect
disconnected-state t r = ground arith

disconnect-IsSilent :
    (w : World) (i : ℕ) (r : DisconnectReason) → IsSilent w (Link.disconnect w i r)
unfolding Link.disconnect
disconnect-IsSilent w i r =
    let e = disconnected-state (link w i) r in
    record {
      number = refl;
      calls = refl;
      numbers = λ j. ground arith;
      states = λ j h. ground arith;
    }

trans : {u v w : World} → IsSilent u v → IsSilent v w → IsSilent u w
trans a b = record {
  number = b.number ∙ a.number;
  calls = b.calls ∙ a.calls;
  numbers = λ j. b.numbers j ∙ a.numbers j;
  states = λ j h. a.states j (b.states j h);
}

timed-IsSilent :
    (w : World) (i : ℕ) (t : HeartbeatTimer)
    → IsSilent w (put_link w i (record (link w i) { heartbeat_timer = t }))
timed-IsSilent w i t = record {
  number = refl;
  calls = refl;
  numbers = λ j. ground arith;
  states = λ j h. ground arith;
}

tell-IsSilent : (w : World) (i : ℕ) (e : Event) → IsSilent w (tell w i e)
unfolding delivered
tell-IsSilent w i e = record { number = refl; calls = refl; numbers = λ j. refl; states = λ j h. h }

error-IsSilent :
    (w : World) (i : ℕ) (ec : ErrorCode) → IsSilent w (Link.handle_transport_error w i ec)
unfolding Link.handle_transport_error
error-IsSilent w i ec =
    trans (tell-IsSilent w i (transport_failed ec))
      (disconnect-IsSilent (tell w i (transport_failed ec)) i DisconnectReason.transport_error)

start-IsSilent :
    (w : World) (i : ℕ) (thrown later : ErrorCode)
    → IsSilent w (HeartbeatTimer.start (heartbeat_owner i) w thrown later)
unfolding HeartbeatTimer.start HeartbeatTimer.schedule heartbeat_owner
start-IsSilent w i thrown later =
    let t : HeartbeatTimer = record (link w i).heartbeat_timer { started = true } in
    let w' : World = put_link w i (record (link w i) { heartbeat_timer = t }) in
    let on : IsSilent w w' = timed-IsSilent w i t in
    let same : IsSilent w w = record {
      number = refl;
      calls = refl;
      numbers = λ j. refl;
      states = λ j h. h;
    } in
    let waits : HeartbeatTimer = record (link w' i).heartbeat_timer { wait_pending = true } in
    ground (
      arith,
      same,
      trans on (error-IsSilent w' i thrown),
      trans on (error-IsSilent w' i later),
      trans on (timed-IsSilent w' i waits),
    )

silent-IsBehind : {w w' : World} → IsSilent w w' → IsBehind w → IsBehind w'
silent-IsBehind s h = record {
  behind = λ j e. omega (arith, h.behind j (s.states j e), s.number, s.numbers j);
}

-- A login that is taken or not, of a client that knows its next number.
on_login_success-IsBehind :
    (v : World) (i : ℕ) (response : LoginAcceptedPacket)
    → IsBehind v
    → v.next_sequence_number ≢ 0
    → has_entered (link v i).state.state ≡ true
    → IsBehind (on_login_success v i response).0
      × ((on_login_success v i response).0.next_sequence_number ≡ v.next_sequence_number)
      × ((on_login_success v i response).0.calls ≡ v.calls)
unfolding on_login_success
on_login_success-IsBehind v i response h known entered =
    let b = h.behind i entered in
    (record { behind = λ j e. let c = h.behind j in ground arith }, ground arith, ground arith)

login_judged-IsSilent :
    (asio : Asio) (v : World) (i : ℕ) (response : LoginAcceptedPacket) (reason : DisconnectReason)
    → IsSilent v (login_judged asio v i response reason)
unfolding login_judged
login_judged-IsSilent asio v i response reason =
    let told : World = tell v i (login_succeeded response) in
    let armed : World =
      put_link told i (record (link told i) { heartbeat_timer_stopped = false }) in
    let arms : IsSilent told armed = record {
      number = refl;
      calls = refl;
      numbers = λ j. ground arith;
      states = λ j h. ground arith;
    } in
    ground (
      arith,
      trans (trans (tell-IsSilent v i (login_succeeded response)) arms)
          (start-IsSilent armed i asio.heartbeat_expires asio.heartbeat_expires_later),
      disconnect-IsSilent v i reason,
    )

put_link-IsBehind :
    (w : World) (i : ℕ) (t : TcpConnection)
    → IsBehind w
    → has_entered (link w i).state.state ≡ true
    → IsBehind (put_link w i t)
put_link-IsBehind w i t h entered =
    let b = h.behind i entered in record { behind = λ j e. let c = h.behind j in ground arith }

taken-IsBehind :
    (asio : Asio) (w : World) (i : ℕ) (response : LoginAcceptedPacket) (t : TcpConnection)
    → IsBehind w
    → w.next_sequence_number ≢ 0
    → has_entered (link w i).state.state ≡ true
    → has_entered t.state.state ≡ true
    → let (u, reason) = on_login_success (put_link w i t) i response in
      let final = login_judged asio u i response reason in
      IsBehind final
      × (final.next_sequence_number ≡ w.next_sequence_number)
      × (delivered final.calls ≡ delivered w.calls)
taken-IsBehind asio w i response t h known entered stays =
    let v : World = put_link w i t in
    let b : IsBehind v = put_link-IsBehind w i t h entered in
    let at : has_entered (link v i).state.state ≡ true = ground (arith, stays) in
    let (u, reason) = on_login_success v i response in
    let (b', number, calls) = on_login_success-IsBehind v i response b known at in
    let s = login_judged-IsSilent asio u i response reason in
    (silent-IsBehind s b', s.number ∙ number, s.calls ∙ ap delivered calls)

-- An answer to a login delivers no message, leaves the client's number as it is, if that is known,
-- and keeps every connection from being ahead of it.
pub process_login_accepted-IsBehind :
    (asio : Asio) (w : World) (i : ℕ) (bytes : Bytes) (size : ℕ)
    → IsBehind w
    → w.next_sequence_number ≢ 0
    → IsBehind (process_login_accepted asio w i bytes size).0
      × ((process_login_accepted asio w i bytes size).0.next_sequence_number
          ≡ w.next_sequence_number)
      × (delivered (process_login_accepted asio w i bytes size).0.calls ≡ delivered w.calls)
unfolding process_login_accepted
process_login_accepted-IsBehind asio w i bytes size h known =
    elim (Bool-cases (state_eq (link w i).state.state connected)) [
      | inl e ↦
          let t : TcpConnection = record (link w i) {
            login_timer = LoginTimer.stop (link w i).login_timer;
            state = set_state (link w i).state logged_in;
          } in
          let entered : has_entered (link w i).state.state ≡ true = ground arith in
          let taken =
            taken-IsBehind asio w i (read_login_accepted default_login_accepted bytes) t h known
              entered (unfold set_state in refl) in
          ground (arith, taken, h)
      | inr e ↦ ground (arith, h)
    ]
