-- ===== src/Protocol/Inbound.antt =====
-- The messages that a connection of the client reads one after the other.
use soupbintcp.Common.{
  ℕ, ◌+◌, ◌<◌, ◌≡◌, refl, false, List, [], ◌∷◌, ◌++◌, append_assoc, map, Bytes, length, arith,
}
use soupbintcp.Constants.{u64_mod}
use soupbintcp.LogicalPackets.{sequenced_data_type}
use soupbintcp.RwPackets.{ReadPacket, read_packet_type, read_payload_data}
use soupbintcp.ConnectionState.{logged_in, is_closing}
use soupbintcp.Socket
use soupbintcp.Client.World.{World, Asio, put_link, Call, sequenced_data}
use soupbintcp.Client.Link.{link}
use soupbintcp.Client.Session.{on_sequenced_data, client_on_sequenced_data}
use soupbintcp.Client.TcpConnection.{process_packet, process_sequenced_data, read_success}
use soupbintcp.RwPackets.Framing.{Outgoing}
use soupbintcp.Protocol.Outbound.{outgoing}
use soupbintcp.Types.{PacketError}
use soupbintcp.Socket.{Socket}
use native.Mathlib.Nat.{add-zero}

-- `read_success` for each packet.
unfoldable pub read_all : Asio → World → ℕ → List ReadPacket → World
read_all asio v j [] = v
read_all asio v j (packet ∷ packets) = read_all asio (read_success asio v j packet) j packets

-- Packets of the given types and payloads.
unfoldable pub Carries : List ReadPacket → List Outgoing → Type 0
Carries [] [] = Unit
Carries [] (o ∷ outgoing) = ⊥
Carries (packet ∷ packets) [] = ⊥
Carries (packet ∷ packets) ((packet_type, text) ∷ outgoing) =
    (read_packet_type packet ≡ packet_type)
    × (read_payload_data packet ≡ text)
    × Carries packets outgoing

-- The calls for texts with the numbers from `n` on, the latest first.
pub numbered : ℕ → List Bytes → List Call
numbered n [] = []
numbered n (text ∷ texts) = numbered (n + 1) texts ++ sequenced_data n text ∷ []

-- A connection that is logged in, and the next message of which is the next one of the client.
pub record IsLevel (v : World) (j n : ℕ) : Type 0 where
  pub entered : (link v j).state.state ≡ logged_in
  pub running : (v.connection_at j).has_session_ended ≡ false
  pub mine : (v.connection_at j).next_sequence_number ≡ n
  pub overall : v.next_sequence_number ≡ n

process_packet-sequenced :
    (asio : Asio) (v : World) (j : ℕ) (packet : ReadPacket) (text : Bytes)
    → read_packet_type packet ≡ sequenced_data_type
    → read_payload_data packet ≡ text
    → process_packet asio v j packet ≡ process_sequenced_data v j text
unfolding process_packet
process_packet-sequenced asio v j packet text typed filled = rw (typed, filled)

process_sequenced_data-IsLevel :
    (v : World) (j n : ℕ) (text : Bytes)
    → IsLevel v j n
    → n + 1 < u64_mod
    → let w = (process_sequenced_data v j text).0 in
      IsLevel w j (n + 1)
      × (w.calls ≡ sequenced_data n text ∷ v.calls)
      × ((process_sequenced_data v j text).1 ≡ PacketError.none)
unfolding process_sequenced_data on_sequenced_data client_on_sequenced_data
process_sequenced_data-IsLevel v j n text h few = (
  record {
    entered = ground arith;
    running = ground arith;
    mine = ground arith;
    overall = ground arith;
  },
  ground arith,
  ground arith,
)

-- A connection that is logged in reads on.
read_success-logged_in :
    (asio : Asio) (v : World) (j : ℕ) (packet : ReadPacket)
    → (link v j).state.state ≡ logged_in
    → (link (process_packet asio v j packet).0 j).state.state ≡ logged_in
    → (process_packet asio v j packet).1 ≡ PacketError.none
    → read_success asio v j packet
      ≡ put_link
          (process_packet asio v j packet).0
          j
          (record (link (process_packet asio v j packet).0 j) {
            socket = Socket.async_read (link (process_packet asio v j packet).0 j).socket;
          })
unfolding read_success is_closing
read_success-logged_in asio v j packet before after fine = rw (fine, before, after)

IsLevel-read :
    (v : World) (j n : ℕ) (s : Socket)
    → IsLevel v j n
    → IsLevel (put_link v j (record (link v j) { socket = s })) j n
IsLevel-read v j n s h = record {
  entered = ground arith;
  running = ground arith;
  mine = ground arith;
  overall = h.overall;
}

read_success-IsLevel :
    (asio : Asio) (v : World) (j n : ℕ) (packet : ReadPacket) (text : Bytes)
    → IsLevel v j n
    → n + 1 < u64_mod
    → read_packet_type packet ≡ sequenced_data_type
    → read_payload_data packet ≡ text
    → IsLevel (read_success asio v j packet) j (n + 1)
      × ((read_success asio v j packet).calls ≡ sequenced_data n text ∷ v.calls)
read_success-IsLevel asio v j n packet text h few typed filled =
    let same = process_packet-sequenced asio v j packet text typed filled in
    let (level, calls, fine) = process_sequenced_data-IsLevel v j n text h few in
    let w : World = (process_sequenced_data v j text).0 in
    let e =
      read_success-logged_in asio v j packet h.entered (rw same level.entered) (rw same fine) in
    rw (e, same) (IsLevel-read w j (n + 1) _ level, calls)

-- Messages that arrive in order are handed to the client's handler with the numbers from the next one
-- on.
pub read_all-IsLevel :
    (asio : Asio) (v : World) (j n : ℕ) (packets : List ReadPacket) (texts : List Bytes)
    → IsLevel v j n
    → n + length texts < u64_mod
    → Carries packets (map outgoing texts)
    → IsLevel (read_all asio v j packets) j (n + length texts)
      × ((read_all asio v j packets).calls ≡ numbered n texts ++ v.calls)
unfolding read_all Carries numbered
read_all-IsLevel asio v j n [] [] h few carries = (rw (add-zero n) h, refl)
read_all-IsLevel asio v j n [] (text ∷ texts) h few carries = elim carries [ ]
read_all-IsLevel asio v j n (packet ∷ packets) [] h few carries = elim carries [ ]
read_all-IsLevel asio v j n (packet ∷ packets) (text ∷ texts) h few (typed, filled, carries) =
    let (level, calls) = read_success-IsLevel asio v j n packet text h (omega arith) typed filled in
    let (last, all_calls) =
      read_all-IsLevel asio (read_success asio v j packet) j (n + 1) packets texts level
        (omega arith) carries in
    let count : n + 1 + length texts ≡ n + length (text ∷ texts) = omega arith in
    (rw count at last, rw (all_calls, calls, append_assoc))
