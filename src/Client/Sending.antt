-- ===== src/Client/Sending.antt =====
-- Sending over the connections of a client: `send_message`, `send_packet` and what they call in
-- src/client/client.cpp and src/client/connection.cpp.
use soupbintcp.Common.{
  ℕ, not, Option, none, some, List, [], ◌∷◌, Bytes, length, ◌==◌, if◌then◌else◌,
}
use soupbintcp.Types.{WriteError}
use soupbintcp.LogicalPackets.{unsequenced_data_type, logout_request_type}
use soupbintcp.RwPackets.{
  WritePacket, clone_write_packet, new_write_packet, empty_write_packet, write_payload_size,
}
use soupbintcp.Client.World.{World, Connection}
use soupbintcp.Client.Link
use soupbintcp.Client.Merge.{priority_error}

-- `Connection::send_packet`.
unfoldable pub send_on : World → ℕ → WritePacket → World × WriteError
send_on w i packet =
    let c : Connection = w.connection_at i in
    if c.has_session_ended
    then (w, WriteError.session_ended)
    else if not c.connected
    then (w, WriteError.disconnected)
    else Link.send_packet w i packet

-- `Connection::send_message(data, size)`; a null pointer is `none`.
unfoldable pub send_message_on : World → ℕ → Option Bytes → ℕ → World × WriteError
send_message_on w i message size =
    if size == 0 then (w, WriteError.empty_buffer) else elim message [
      | none ↦ (w, WriteError.null_buffer)
      | some text ↦ send_on w i (new_write_packet unsequenced_data_type text size)
    ]

-- `Connection::send_logout_request`.
unfoldable pub send_logout_request_on : World → ℕ → World × WriteError
send_logout_request_on w i =
    if not (w.connection_at i).connected
    then (w, WriteError.disconnected)
    else Link.send_packet w i (empty_write_packet logout_request_type)

-- `Connection::send_debug`.
unfoldable pub send_debug_on : World → ℕ → Bytes → World × WriteError
send_debug_on w i text =
    if length text == 0
    then (w, WriteError.empty_buffer)
    else if not (w.connection_at i).connected
    then (w, WriteError.disconnected)
    else Link.send_debug_packet w i text

-- The loop of `send_multiple`: copies to all connections but the last, which gets the packet itself.
unfoldable pub send_each : World → List ℕ → WritePacket → World × List WriteError
send_each w [] packet = (w, [])
send_each w (i ∷ []) packet = let (w', error) = send_on w i packet in (w', error ∷ [])
send_each w (i ∷ j ∷ connections) packet =
    let (w', error) = send_on w i (clone_write_packet packet) in
    let (last, errors) = send_each w' (j ∷ connections) packet in (last, error ∷ errors)

-- `send_two` sends the packet itself first.
unfoldable pub send_two : World → ℕ → ℕ → WritePacket → World × WriteError
send_two w i j packet =
    let (w', error1) = send_on w i packet in
    let (last, error2) = send_on w' j (clone_write_packet packet) in
    (last, priority_error (error1 ∷ error2 ∷ []))

unfoldable pub send_multiple : World → List ℕ → WritePacket → World × WriteError
send_multiple w [] packet = (w, WriteError.disconnected)
send_multiple w (i ∷ connections) packet =
    let (last, errors) = send_each w (i ∷ connections) packet in (last, priority_error errors)

-- `send_packet` for the connections of the list.
unfoldable pub send_over : World → List ℕ → WritePacket → World × WriteError
send_over w (i ∷ []) packet = send_on w i packet
send_over w (i ∷ j ∷ []) packet = send_two w i j packet
send_over w [] packet = send_multiple w [] packet
send_over w (i ∷ j ∷ k ∷ connections) packet = send_multiple w (i ∷ j ∷ k ∷ connections) packet

unfoldable pub send_packet : World → WritePacket → World × WriteError
send_packet w packet =
    if w.has_session_ended then (w, WriteError.session_ended) else send_over w w.connections packet

unfoldable pub send_message : World → Option Bytes → ℕ → World × WriteError
send_message w message size = if size == 0 then (w, WriteError.empty_buffer) else elim message [
  | none ↦ (w, WriteError.null_buffer)
  | some text ↦ send_packet w (new_write_packet unsequenced_data_type text size)
]

-- `send_message(Message&&)`.
unfoldable pub send_built_message : World → WritePacket → World × WriteError
send_built_message w message =
    if write_payload_size message == 0 then (w, WriteError.empty_buffer) else send_packet w message
