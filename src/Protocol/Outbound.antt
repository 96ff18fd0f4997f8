-- ===== src/Protocol/Outbound.antt =====
-- The messages that a port sends one after the other, and the bytes that they become.
use soupbintcp.Common.{
  ℕ, ◌+◌, ◌<◌, ◌≤◌, false, ◌≡◌, refl, sym, ap, inl, inr, some, List, [], ◌∷◌, ◌++◌, append_assoc,
  append-nil, map, Bytes, length, length-append, All, arith,
}
use soupbintcp.Constants.{u64_mod}
use soupbintcp.Types.{WriteError}
use soupbintcp.LogicalPackets.{sequenced_data_type}
use soupbintcp.RwPackets.{WritePacket, write_packet_type, new_write_packet, wire_data}
use soupbintcp.RwPackets.Framing.{Outgoing, wires}
use soupbintcp.Server.World.{World}
use soupbintcp.Server.Port.{send_message, count_message, send_packet}
use soupbintcp.Server.Link
use soupbintcp.Socket.{async_write}
use soupbintcp.ConnectionState.{logged_in}
use soupbintcp.Server.Port.Sending.{queue, send_message-IsSent}

-- `send_message` for each text, until one reports an error.
unfoldable pub send_all : World → ℕ → List Bytes → World × List WriteError
send_all w p [] = (w, [])
send_all w p (text ∷ texts) =
    let (sent, error) = send_message w p (some text) (length text) in
    let (last, errors) = send_all sent p texts in (last, error ∷ errors)

abbrev pub IsNone : WriteError → Type 0
IsNone e = e ≡ WriteError.none

abbrev pub message_packet : Bytes → WritePacket
message_packet text = new_write_packet sequenced_data_type text (length text)

-- What messages without an error leave behind.
pub record IsQueued (w : World) (p i : ℕ) (texts : List Bytes) (w' : World) : Type 0 where
  pub queued : queue w' i ≡ queue w i ++ map message_packet texts
  pub next : (w'.port_at p).next_sequence_number ≡ (w.port_at p).next_sequence_number + length texts
  pub kept : (w'.port_at p).connection ≡ some i

pub send_all-IsQueued :
    (w : World) (p i : ℕ) (texts : List Bytes)
    → (w.port_at p).connection ≡ some i
    → (w.port_at p).next_sequence_number + length texts < u64_mod
    → All IsNone (send_all w p texts).1
    → IsQueued w p i texts (send_all w p texts).0
unfolding send_all
send_all-IsQueued w p i [] attached few sent = record {
  queued = sym (append-nil _);
  next = omega arith;
  kept = attached;
}
send_all-IsQueued w p i (text ∷ texts) attached few sent =
    elim (send_message-IsSent w p i text (length text) attached) [
      | inl (_, s) ↦
          let w' : World = (send_message w p (some text) (length text)).0 in
          let number : (w'.port_at p).next_sequence_number
              ≡ (w.port_at p).next_sequence_number + 1 =
            omega (arith, s.next) in
          let rest = send_all-IsQueued w' p i texts s.kept (omega (arith, number)) sent.1 in
          record {
            queued = rw (rest.queued, s.queued, append_assoc);
            next = omega (arith, rest.next, number);
            kept = rest.kept;
          }
      | inr (failed, _, _) ↦ absurd (failed sent.0)
    ]

-- The bytes of packets one after the other.
pub stream : List WritePacket → Bytes
stream [] = []
stream (packet ∷ packets) = wire_data packet ++ stream packets

abbrev pub outgoing : Bytes → Outgoing
outgoing text = (sequenced_data_type, text)

pub stream-messages :
    (texts : List Bytes) → stream (map message_packet texts) ≡ wires (map outgoing texts)
unfolding stream
stream-messages [] = refl
stream-messages (text ∷ texts) =
    ap (λ s. wire_data (message_packet text) ++ s) (stream-messages texts)

-- A port with an open session, the connection of which is logged in, is not closing and has room for
-- `n` packets.
pub record IsReady (w : World) (p i n : ℕ) : Type 0 where
  pub attached : (w.port_at p).connection ≡ some i
  pub running : (w.port_at p).has_session_ended ≡ false
  pub entered : (w.connection_at i).state.state ≡ logged_in
  pub open_still : (w.connection_at i).socket.closing ≡ false
  pub room : length (queue w i) + n ≤ (w.connection_at i).socket.write_packets_limit

send_message-IsReady :
    (w : World) (p i n : ℕ) (text : Bytes)
    → IsReady w p i (n + 1)
    → 0 < length text
    → IsNone (send_message w p (some text) (length text)).1
      × IsReady (send_message w p (some text) (length text)).0 p i n
unfolding send_message count_message send_packet Link.send_packet async_write new_write_packet
    write_packet_type
send_message-IsReady w p i n text h some_text = (
  ground arith,
  record {
    attached = ground arith;
    running = ground arith;
    entered = ground arith;
    open_still = ground arith;
    room = ground (arith, length-append (queue w i) (message_packet text ∷ []));
  },
)

-- A port that is ready sends its messages without an error.
pub send_all-IsNone :
    (w : World) (p i : ℕ) (texts : List Bytes)
    → IsReady w p i (length texts)
    → All (λ text. 0 < length text) texts
    → All IsNone (send_all w p texts).1
unfolding send_all
send_all-IsNone w p i [] h some_texts = tt
send_all-IsNone w p i (text ∷ texts) h some_texts =
    let (sent, ready) =
      send_message-IsReady w p i (length texts) text
        (record {
          attached = h.attached;
          running = h.running;
          entered = h.entered;
          open_still = h.open_still;
          room = omega (arith, h.room);
        })
        some_texts.0 in
    (
      sent,
      send_all-IsNone (send_message w p (some text) (length text)).0 p i texts ready some_texts.1,
    )
