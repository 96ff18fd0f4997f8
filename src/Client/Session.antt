-- ===== src/Client/Session.antt =====
-- The session of a connection and of its client: what src/client/connection.cpp and
-- src/client/client.cpp do when a connection is made, logged in or gets data.
pub mod Delivery
pub mod Order
use soupbintcp.Common.{
  ℕ, ◌+◌, ◌%◌, Bool, true, false, not, ◌&&◌, [], ◌∷◌, Bytes, bytes_eq, ltb, ◌==◌, if◌then◌else◌,
}
use soupbintcp.Constants.{u64_mod}
use soupbintcp.Types.{DisconnectReason}
use soupbintcp.LogicalPackets.{LoginAcceptedPacket, LoginRequestPacket}
use soupbintcp.Client.World.{
  World, Connection, put_connection, call, sequenced_data, end_of_session,
}

-- `Client::on_sequenced_data`. The source asserts that a number that is not too low is the next one.
unfoldable pub client_on_sequenced_data : World → ℕ → Bytes → World
client_on_sequenced_data w sequence_number text =
    if ltb sequence_number w.next_sequence_number
    then w
    else call (record w { next_sequence_number = (sequence_number + 1) % u64_mod })
        (sequenced_data sequence_number text)

-- `Client::on_end_of_session`.
unfoldable pub client_on_end_of_session : World → World
client_on_end_of_session w =
    if w.has_session_ended then w else call (record w { has_session_ended = true }) end_of_session

-- `Connection::on_connect_success`.
unfoldable pub on_connect_success : World → ℕ → World × LoginRequestPacket
on_connect_success w i =
    let c : Connection = w.connection_at i in
    (
      put_connection w i (record c { next_sequence_number = w.next_sequence_number }),
      record {
        username = c.username;
        password = c.password;
        session = c.session;
        next_sequence_number = w.next_sequence_number;
      },
    )

-- The end of `on_login_success`.
resume : World → ℕ → LoginAcceptedPacket → World × DisconnectReason
resume w i response = (
  put_connection w i (record (w.connection_at i) {
    session = response.session;
    next_sequence_number = response.next_sequence_number;
    reconnect_next_delay = 0;
  }),
  DisconnectReason.none,
)

-- `Connection::on_login_success`; `DisconnectReason.none` says that the login is taken.
unfoldable pub on_login_success : World → ℕ → LoginAcceptedPacket → World × DisconnectReason
unfolding resume
on_login_success w i response =
    let c : Connection = w.connection_at i in
    let number = response.next_sequence_number in
    if not (bytes_eq c.session []) && not (bytes_eq response.session c.session)
    then (w, DisconnectReason.session_mismatch)
    else if not (c.next_sequence_number == 0)
    then if ltb number c.next_sequence_number
      then (w, DisconnectReason.sequence_number_too_low)
      else if ltb c.next_sequence_number number
      then (w, DisconnectReason.sequence_number_too_high)
      else resume w i response
    else if w.next_sequence_number == 0
    then resume (record w { next_sequence_number = number }) i response
    else if ltb w.next_sequence_number number
    then (w, DisconnectReason.sequence_number_ahead_of_session)
    else resume w i response

-- `Connection::on_sequenced_data`.
unfoldable pub on_sequenced_data : World → ℕ → Bytes → World
on_sequenced_data w i text =
    let c : Connection = w.connection_at i in
    let next = (c.next_sequence_number + 1) % u64_mod in
    client_on_sequenced_data (put_connection w i (record c { next_sequence_number = next }))
      c.next_sequence_number text

-- `Connection::on_end_of_session`.
unfoldable pub on_end_of_session : World → ℕ → World
on_end_of_session w i =
    let c : Connection = w.connection_at i in
    if c.has_session_ended
    then w
    else client_on_end_of_session (put_connection w i (record c { has_session_ended = true }))
