-- ===== src/RwPackets.antt =====
-- include/bc/soup/rw_packets.h and src/rw_packets.cpp: the buffers of packets read and written. A
-- packet on the wire is its size (two bytes, counted from the type on), its type (one byte) and its
-- payload.
pub mod Framing
pub mod Resize
use soupbintcp.Common.{
  ℕ, ◌+◌, ◌-◌, ◌%◌, ◌≡◌, Option, none, some, List, [], ◌∷◌, ◌++◌, Bytes, length, take, drop,
  replicate, get_elem?, ltb, ◌==◌, if◌then◌else◌,
}
use soupbintcp.Constants.{
  u64_mod, packet_size_length, packet_type_length, packet_header_length, u16_mod,
}
use soupbintcp.Packing.Integral.{pack_u16, unpack_u16}

-- `Buffer`: an owned array of bytes, or no array.
pub record Buffer : Type 0 where
  pub bytes : Option Bytes
  pub size : ℕ

unfoldable pub default_buffer : Buffer
default_buffer = record { bytes = none; size = 0 }

-- `Buffer(size)`: `make_unique` clears the array.
unfoldable pub new_buffer : ℕ → Buffer
new_buffer size = record { bytes = some (replicate size 0); size = size }

-- The bytes from `data()` on; there are none where there is no array.
abbrev pub contents : Option Bytes → Bytes
contents none = []
contents (some s) = s

-- `data_[i]`, of which the program reads none out of range.
abbrev byte_at : ℕ → Bytes → ℕ
byte_at i s = elim (get_elem? s i) [ none ↦ 0 | some c ↦ c ]

-- `std::memcpy` and `pack` to `data() + offset`.
unfoldable pub overwrite : ℕ → Bytes → Bytes → Bytes
overwrite offset text s = take offset s ++ (text ++ drop (offset + length text) s)

-- `clone`.
unfoldable pub clone_buffer : Buffer → Buffer
unfolding default_buffer new_buffer overwrite
clone_buffer b = elim b.bytes [
  | none ↦ default_buffer
  | some s ↦ record (new_buffer b.size) {
    bytes = some (overwrite 0 (take b.size s) (contents (new_buffer b.size).bytes));
  }
]

-- The move constructor: the new buffer and what is left of the old one.
unfoldable pub move_buffer : Buffer → Buffer × Buffer
unfolding default_buffer
move_buffer other = (record { bytes = other.bytes; size = other.size }, default_buffer)

-- `Read_packet`: the header of three bytes, and the payload.
pub record ReadPacket : Type 0 where
  pub header : Bytes
  pub payload : Buffer

unfoldable pub default_read_packet : ReadPacket
unfolding default_buffer
default_read_packet = record { header = replicate packet_header_length 0; payload = default_buffer }

-- The move constructor: the new packet and what is left of the old one.
unfoldable pub move_read_packet : ReadPacket → ReadPacket × ReadPacket
unfolding move_buffer
move_read_packet other =
    let (payload, rest) = move_buffer other.payload in
    (
      record { header = other.header; payload = payload },
      record { header = replicate packet_header_length 0; payload = rest },
    )

unfoldable pub header_size : ReadPacket → ℕ
header_size p = length p.header

unfoldable pub read_packet_size : ReadPacket → ℕ
read_packet_size p = unpack_u16 p.header

unfoldable pub read_packet_type : ReadPacket → ℕ
read_packet_type p = byte_at packet_size_length p.header

pub data ReadResizeResult : Type 0 where
  resized empty_payload malformed_header : ReadResizeResult

-- `Read_packet::resize_payload`.
unfoldable pub resize_read_payload : ReadPacket → ReadPacket × ReadResizeResult
unfolding default_buffer new_buffer read_packet_size
resize_read_payload p =
    let q : ReadPacket = record p { payload = default_buffer } in
    let packet_size = read_packet_size q in
    if ltb packet_size packet_type_length
    then (q, malformed_header)
    else if packet_size == packet_type_length
    then (q, empty_payload)
    else (record q { payload = new_buffer (packet_size - packet_type_length) }, resized)

unfoldable pub read_payload_size : ReadPacket → ℕ
read_payload_size p = p.payload.size

unfoldable pub read_payload_data : ReadPacket → Bytes
read_payload_data p = contents p.payload.bytes

-- `Write_packet`: the whole packet stands in one buffer.
pub record WritePacket : Type 0 where
  pub packet : Buffer

unfoldable pub default_write_packet : WritePacket
unfolding default_buffer
default_write_packet = record { packet = default_buffer }

-- `Write_packet(packet_type, payload_size)`. The size is computed as a `uint16_t`.
unfoldable pub sized_write_packet : ℕ → ℕ → WritePacket
unfolding new_buffer overwrite
sized_write_packet packet_type payload_size =
    let buffer : Buffer = new_buffer (packet_header_length + payload_size) in
    let packet_size = (packet_type_length + payload_size) % u16_mod in
    let s : Bytes = overwrite 0 (pack_u16 packet_size) (contents buffer.bytes) in
    record {
      packet = record buffer { bytes = some (overwrite packet_size_length (packet_type ∷ []) s) };
    }

-- `Write_packet(packet_type)`.
unfoldable pub empty_write_packet : ℕ → WritePacket
unfolding sized_write_packet
empty_write_packet packet_type = sized_write_packet packet_type 0

-- A write through `payload_data()`.
unfoldable pub set_payload : WritePacket → Bytes → WritePacket
unfolding overwrite
set_payload p text = record {
  packet = record p.packet {
    bytes = some (overwrite packet_header_length text (contents p.packet.bytes));
  };
}

-- `Write_packet(packet_type, payload_data, payload_size)`. The caller's size is a `size_t`, which is
-- converted to `uint16_t`; that many bytes are copied.
unfoldable pub new_write_packet : ℕ → Bytes → ℕ → WritePacket
unfolding sized_write_packet set_payload
new_write_packet packet_type payload size =
    let payload_size = size % u16_mod in
    set_payload (sized_write_packet packet_type payload_size) (take payload_size payload)

unfoldable pub clone_write_packet : WritePacket → WritePacket
unfolding clone_buffer default_write_packet
clone_write_packet p = record default_write_packet { packet = clone_buffer p.packet }

unfoldable pub write_packet_size : WritePacket → ℕ
write_packet_size p = unpack_u16 (contents p.packet.bytes)

unfoldable pub write_packet_type : WritePacket → ℕ
write_packet_type p = byte_at packet_size_length (contents p.packet.bytes)

-- `payload_size()` and `payload_capacity()` are `size_t`: a packet size of 0 wraps around.
unfoldable pub write_payload_size : WritePacket → ℕ
unfolding write_packet_size
write_payload_size p = (write_packet_size p + u64_mod - packet_type_length) % u64_mod

unfoldable pub payload_capacity : WritePacket → ℕ
payload_capacity p = (p.packet.size + u64_mod - packet_header_length) % u64_mod

pub data WriteResizeResult : Type 0 where
  resized no_capacity : WriteResizeResult

-- `Write_packet::resize_payload`.
unfoldable pub resize_write_payload : WritePacket → ℕ → WritePacket × WriteResizeResult
unfolding payload_capacity overwrite
resize_write_payload p payload_size =
    let packet_size = (packet_type_length + payload_size) % u16_mod in
    if ltb (payload_capacity p) payload_size then (p, no_capacity) else (
      record {
        packet = record p.packet {
          bytes = some (overwrite 0 (pack_u16 packet_size) (contents p.packet.bytes));
        };
      },
      WriteResizeResult.resized,
    )

-- The bytes handed to the socket: `size()` of them from `data()` on.
unfoldable pub wire_size : WritePacket → ℕ
unfolding write_packet_size
wire_size p = packet_size_length + write_packet_size p

unfoldable pub wire_data : WritePacket → Bytes
unfolding wire_size
wire_data p = take (wire_size p) (contents p.packet.bytes)
