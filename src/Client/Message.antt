-- ===== src/Client/Message.antt =====
-- include/bc/soup/client/message.h: a message that the user builds in place, which is a packet of its type.
use soupbintcp.Common.{ℕ, Bytes}
use soupbintcp.LogicalPackets.{unsequenced_data_type}
use soupbintcp.RwPackets.{
  WritePacket, WriteResizeResult, default_write_packet, sized_write_packet, new_write_packet,
  resize_write_payload, set_payload, write_payload_size,
}
use soupbintcp.RwPackets

pub record Message : Type 0 where
  pub packet : WritePacket

unfoldable pub default_message : Message
default_message = record { packet = default_write_packet }

unfoldable pub sized_message : ℕ → Message
sized_message payload_size = record {
  packet = sized_write_packet unsequenced_data_type payload_size;
}

unfoldable pub new_message : Bytes → ℕ → Message
new_message payload_data payload_size = record {
  packet = new_write_packet unsequenced_data_type payload_data payload_size;
}

-- The packet, and what is left of the message.
unfoldable pub release_packet : Message → WritePacket × Message
release_packet m = (m.packet, record { packet = default_write_packet })

unfoldable pub resize_payload : Message → ℕ → Message × WriteResizeResult
resize_payload m payload_size =
    let (packet, result) = resize_write_payload m.packet payload_size in
    (record { packet = packet }, result)

-- What the user writes at `payload_data`.
unfoldable pub fill : Message → Bytes → Message
fill m payload = record { packet = set_payload m.packet payload }

unfoldable pub payload_size : Message → ℕ
payload_size m = write_payload_size m.packet

unfoldable pub payload_capacity : Message → ℕ
payload_capacity m = RwPackets.payload_capacity m.packet
