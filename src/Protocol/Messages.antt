-- ===== src/Protocol/Messages.antt =====
-- From a port of the server to the handler of a client.
use soupbintcp.Common.{ℕ, ◌+◌, ◌<◌, ◌≡◌, refl, List, [], ◌∷◌, ◌++◌, map, Bytes, length, All, arith}
use soupbintcp.Constants.{u64_mod, u16_mod, packet_type_length}
use soupbintcp.RwPackets.{ReadPacket}
use soupbintcp.RwPackets.Framing.{Outgoing, receive_many, receive_many-wires}
use soupbintcp.Server.World as ServerWorld
use soupbintcp.Server.Port.Sending.{queue}
use soupbintcp.Client.World as ClientWorld
use soupbintcp.Client.World.{Asio}
use soupbintcp.Protocol.Outbound.{
  IsReady, send_all-IsNone, send_all, send_all-IsQueued, IsNone, outgoing, stream, stream-messages,
}
use soupbintcp.Protocol.Inbound.{read_all, read_all-IsLevel, Carries, numbered, IsLevel}

-- A message that is not empty and fits a packet.
abbrev pub IsSendable : Bytes → Type 0
IsSendable text = (0 < length text) × (length text + packet_type_length < u16_mod)

All-outgoing :
    (texts : List Bytes)
    → All IsSendable texts
    → All (λ (o : Outgoing). length o.1 + packet_type_length < u16_mod) (map outgoing texts)
All-outgoing [] h = tt
All-outgoing (text ∷ texts) h = (h.0.1, All-outgoing texts h.1)

All-positive : (texts : List Bytes) → All IsSendable texts → All (λ text. 0 < length text) texts
All-positive [] h = tt
All-positive (text ∷ texts) h = (h.0.0, All-positive texts h.1)

length-map : (texts : List Bytes) → length (map outgoing texts) ≡ length texts
length-map [] = refl
length-map (text ∷ texts) = omega (arith, length-map texts)

-- What a receiver makes of the bytes of the messages that a port has sent.
pub sent-received :
    (w : ServerWorld.World) (p i : ℕ) (texts : List Bytes) (rest : Bytes)
    → IsReady w p i (length texts)
    → queue w i ≡ []
    → All IsSendable texts
    → (w.port_at p).next_sequence_number + length texts < u64_mod
    → receive_many (length texts) (stream (queue (send_all w p texts).0 i) ++ rest)
      ≡ (map outgoing texts, rest)
sent-received w p i texts rest ready idle sendable few =
    let sent = send_all-IsNone w p i texts ready (All-positive texts sendable) in
    let s = send_all-IsQueued w p i texts ready.attached few sent in
    rw (s.queued, idle, stream-messages texts, ← length-map texts)
      (receive_many-wires (map outgoing texts) rest (All-outgoing texts sendable))

-- A port of a server with an open session sends messages over a connection that is logged in, is not
-- closing, has room for them and on which nothing waits; no message is empty or longer than 65534
-- bytes, and their numbers stay below 2 ^ 64. A connection of a client, which is logged in and
-- expects the number of the port next, gets packets of the types and payloads that a receiver makes
-- of the bytes. Then each message is sent without an error, the client's handler is told of exactly
-- these messages, in order, each with the number that it had at the port, both ends agree on the next
-- number, and the bytes behind the messages are left to the receiver.
pub messages_delivered :
    (w : ServerWorld.World) (p i : ℕ) (texts : List Bytes) (rest : Bytes) (asio : Asio)
    (v : ClientWorld.World) (j : ℕ) (packets : List ReadPacket)
    → IsReady w p i (length texts)
    → queue w i ≡ []
    → All IsSendable texts
    → (w.port_at p).next_sequence_number + length texts < u64_mod
    → IsLevel v j (w.port_at p).next_sequence_number
    → Carries packets
        (receive_many (length texts) (stream (queue (send_all w p texts).0 i) ++ rest)).0
    → All IsNone (send_all w p texts).1
      × ((read_all asio v j packets).calls
          ≡ numbered (w.port_at p).next_sequence_number texts ++ v.calls)
      × IsLevel
          (read_all asio v j packets)
          j
          ((send_all w p texts).0.port_at p).next_sequence_number
      × ((receive_many (length texts) (stream (queue (send_all w p texts).0 i) ++ rest)).1 ≡ rest)
messages_delivered w p i texts rest asio v j packets ready idle sendable few level carries =
    let received = sent-received w p i texts rest ready idle sendable few in
    let sent = send_all-IsNone w p i texts ready (All-positive texts sendable) in
    let s = send_all-IsQueued w p i texts ready.attached few sent in
    let (last, calls) =
      read_all-IsLevel asio v j (w.port_at p).next_sequence_number packets texts level few
        (rw received at carries) in
    (sent, calls, rw s.next last, rw received)
