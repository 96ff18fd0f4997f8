-- ===== src/RwPackets/Framing.antt =====
-- What a receiver makes of the bytes of packets written one after the other. `receive` reads a packet
-- off a stream as `Socket` does: a header, then as many payload bytes as `resize_payload` made room
-- for. The sender's packet is built by `Write_packet(packet_type, payload_data, payload_size)`.
use soupbintcp.Common.{
  ℕ, zero, suc, ◌+◌, ◌-◌, ◌%◌, ◌/◌, ◌*◌, ◌≤◌, ◌<◌, ◌≡◌, refl, sym, ap, ◌∙◌, some, List, [], ◌∷◌,
  ◌++◌, append-nil, append_assoc, Bytes, length, take, drop, replicate, length-take, length-append,
  take-all, take-append, drop-append, drop-all, length-replicate, All, arith, ltb, if◌then◌else◌,
}
use soupbintcp.Constants.{packet_type_length, packet_header_length, u16_mod}
use soupbintcp.Packing.Integral.{pack_u16, unpack_u16, unpack_u16-pack_u16}
use soupbintcp.RwPackets.{
  ReadPacket, ReadResizeResult, resized, empty_payload, malformed_header, contents, new_buffer,
  default_buffer, default_read_packet, header_size, read_packet_size, read_packet_type,
  resize_read_payload, read_payload_size, read_payload_data, sized_write_packet, set_payload,
  new_write_packet, wire_data,
}

header_room : (n : ℕ) → packet_header_length + n ≡ suc (suc (suc n))
header_room n = omega arith

-- The header and the payload in the buffer of a packet.
set_payload-sized :
    (packet_type n : ℕ) (text : Bytes)
    → length text ≡ n
    → contents (set_payload (sized_write_packet packet_type n) text).packet.bytes
      ≡ pack_u16 ((packet_type_length + n) % u16_mod) ++ packet_type ∷ text
unfolding set_payload sized_write_packet pack_u16
set_payload-sized packet_type n text e = rw (
  header_room n,
  header_room (length text),
  drop-all {A = ℕ} (length text) (replicate n 0) (omega (arith, length-replicate {A = ℕ} n 0)),
  append-nil text,
)

-- The bytes on the wire, where the packet size does not wrap around.
pub wire_data-new :
    (packet_type size : ℕ) (payload : Bytes)
    → size ≤ length payload
    → size % u16_mod + packet_type_length < u16_mod
    → wire_data (new_write_packet packet_type payload size)
      ≡ pack_u16 (packet_type_length + size % u16_mod)
        ++ packet_type ∷ take (size % u16_mod) payload
unfolding wire_data new_write_packet
wire_data-new packet_type size payload h fits =
    let n : ℕ = size % u16_mod in
    let text : Bytes = take n payload in
    let len : length text ≡ n = omega (arith, length-take n payload) in
    let small : (packet_type_length + n) % u16_mod ≡ packet_type_length + n = omega arith in
    rw
      (
        set_payload-sized packet_type n text len,
        small,
        unpack_u16-pack_u16 (packet_type_length + n) (packet_type ∷ text) (omega arith),
      )
      (unfold pack_u16 in take-all _ _ (omega (arith, len)))

-- A packet as the receiver sees it: its type and its payload.
pub data Received : Type 0 where
  got : ℕ → Bytes → Bytes → Received
  malformed : Received
  waiting : Received

abbrev receive_payload : ReadPacket → Bytes → Received
receive_payload q s =
    let n = read_payload_size q in
    let filled : ReadPacket = record q { payload = record q.payload { bytes = some (take n s) } } in
    if ltb (length s) n
    then waiting
    else got (read_packet_type filled) (read_payload_data filled) (drop n s)

abbrev after_header : ReadPacket → ReadResizeResult → Bytes → Received
after_header q resized s = receive_payload q s
after_header q empty_payload s = got (read_packet_type q) (read_payload_data q) s
after_header q malformed_header s = malformed

-- The packet that a stream begins with and what follows it, a header that is refused, or too few
-- bytes yet.
pub receive : Bytes → Received
unfolding default_read_packet header_size resize_read_payload read_payload_size read_packet_type
    read_payload_data
receive s =
    let n = header_size default_read_packet in
    let (q, result) = resize_read_payload (record default_read_packet { header = take n s }) in
    if ltb (length s) n then waiting else after_header q result (drop n s)

-- `resize_payload` behind a header that announces `n` bytes of payload.
abbrev pub resized_to : ReadPacket → ℕ → ReadPacket × ReadResizeResult
resized_to p zero = (record p { payload = default_buffer }, empty_payload)
resized_to p (suc m) = (record p { payload = new_buffer (suc m) }, resized)

pub resize-resized_to :
    (p : ReadPacket) (n : ℕ) → read_packet_size p ≡ suc n → resize_read_payload p ≡ resized_to p n
unfolding resize_read_payload read_packet_size
resize-resized_to p zero e = rw e
resize-resized_to p (suc m) e = rw e (ground arith)

-- The receiver on a header and the payload that it announces.
receive-header :
    (a b packet_type n : ℕ) (text rest : Bytes)
    → a * 256 + b ≡ suc n
    → length text ≡ n
    → receive (a ∷ b ∷ packet_type ∷ (text ++ rest)) ≡ got packet_type text rest
unfolding receive
receive-header a b packet_type zero [] rest e len =
    rw
      (resize-resized_to (record default_read_packet { header = a ∷ b ∷ packet_type ∷ [] }) zero
        (unfold read_packet_size unpack_u16 in e))
      (ground arith)
receive-header a b packet_type zero (c ∷ text) rest e len = absurd (omega arith)
receive-header a b packet_type (suc m) text rest e len =
    rw
      (resize-resized_to (record default_read_packet { header = a ∷ b ∷ packet_type ∷ [] }) (suc m)
        (unfold read_packet_size unpack_u16 in e))
      (unfold new_buffer in
        rw (take-append (suc m) text rest (sym len), drop-append (suc m) text rest (sym len))
          (ground (arith, length-append text rest)))

-- A receiver gets the type of a packet that was written, and of its payload the bytes that its length
-- modulo 2 ^ 16 counts, if that number is at most 65534; what follows the packet is left for later.
-- So a payload of at most 65534 bytes arrives whole.
pub receive-wire_data :
    (packet_type size : ℕ) (payload rest : Bytes)
    → size ≤ length payload
    → size % u16_mod + packet_type_length < u16_mod
    → receive (wire_data (new_write_packet packet_type payload size) ++ rest)
      ≡ got packet_type (take (size % u16_mod) payload) rest
receive-wire_data packet_type size payload rest h fits =
    let n : ℕ = size % u16_mod in
    rw (wire_data-new packet_type size payload h fits) (
      unfold pack_u16 in
      receive-header ((packet_type_length + n) / 256 % 256) ((packet_type_length + n) % 256)
        packet_type n (take n payload) rest (omega arith) (omega (arith, length-take n payload)))

-- A payload whose length is 65535 modulo 2 ^ 16 makes the packet size wrap around to 0: two bytes
-- are written, and a receiver that reads any byte after them refuses the header.
pub receive_wrapped :
    (packet_type size : ℕ) (payload : Bytes) (c : ℕ) (rest : Bytes)
    → size ≤ length payload
    → size % u16_mod ≡ u16_mod - 1
    → (wire_data (new_write_packet packet_type payload size) ≡ 0 ∷ 0 ∷ [])
      × (receive (wire_data (new_write_packet packet_type payload size) ++ c ∷ rest) ≡ malformed)
receive_wrapped packet_type size payload c rest h wraps = (wire, rw wire header)
  where
    wire : wire_data (new_write_packet packet_type payload size) ≡ 0 ∷ 0 ∷ []
    wire =
        let n : ℕ = size % u16_mod in
        let text : Bytes = take n payload in
        let len : length text ≡ n = omega (arith, length-take n payload) in
        let zero_size : (packet_type_length + n) % u16_mod ≡ 0 = omega arith in
        unfold wire_data new_write_packet in
        rw (set_payload-sized packet_type n text len, zero_size)
          (unfold pack_u16 unpack_u16 in refl)

    header : receive (0 ∷ 0 ∷ c ∷ rest) ≡ malformed
    header = unfold receive resize_read_payload read_packet_size unpack_u16 in ground arith

-- A packet to send: its type and its payload.
abbrev pub Outgoing : Type 0
Outgoing = ℕ × Bytes

-- The bytes of packets written one after the other.
abbrev pub wires : List Outgoing → Bytes
wires [] = []
wires ((packet_type, payload) ∷ packets) =
    wire_data (new_write_packet packet_type payload (length payload)) ++ wires packets

-- What a receiver gets off a stream in `k` packets at most, and the bytes that it has not used.
pub receive_many : ℕ → Bytes → List Outgoing × Bytes
receive_many zero s = ([], s)
receive_many (suc k) s = elim (receive s) [
  | got packet_type payload rest ↦
      let (packets, unread) = receive_many k rest in ((packet_type, payload) ∷ packets, unread)
  | malformed ↦ ([], s)
  | waiting ↦ ([], s)
]

receive_many-got :
    (k packet_type : ℕ) (s payload rest : Bytes)
    → receive s ≡ got packet_type payload rest
    → receive_many (suc k) s
      ≡ ((packet_type, payload) ∷ (receive_many k rest).0, (receive_many k rest).1)
unfolding receive_many
receive_many-got k packet_type s payload rest e = rw (e, receive_many)

-- Packets whose payloads have at most 65534 bytes each arrive in order and whole, and no byte behind
-- them is used.
pub receive_many-wires :
    (packets : List Outgoing) (rest : Bytes)
    → All (λ (p : Outgoing). length p.1 + packet_type_length < u16_mod) packets
    → receive_many (length packets) (wires packets ++ rest) ≡ (packets, rest)
receive_many-wires [] rest h = unfold receive_many in refl
receive_many-wires ((packet_type, payload) ∷ packets) rest h =
    let n : ℕ = length payload in
    let whole : take (n % u16_mod) payload ≡ payload =
      take-all (n % u16_mod) payload (omega arith) in
    let first_packet : receive (wires ((packet_type, payload) ∷ packets) ++ rest)
        ≡ got packet_type payload (wires packets ++ rest) =
      rw append_assoc (
        receive-wire_data packet_type n payload (wires packets ++ rest) (omega arith) (omega arith)
        ∙ ap (λ p. got packet_type p (wires packets ++ rest)) whole) in
    receive_many-got (length packets) packet_type _ payload (wires packets ++ rest) first_packet
    ∙ ap (λ (r : List Outgoing × Bytes). ((packet_type, payload) ∷ r.0, r.1))
        (receive_many-wires packets rest h.1)
