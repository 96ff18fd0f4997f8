-- ===== src/Socket.antt =====
-- include/bc/soup/socket.h and src/socket.cpp: packets over an Asio socket. The socket lives in a
-- connection `W`, its handler; an `Owner` says where, and what the handler's callbacks do to the
-- connection. Asio's operations are seen by what the socket records of them: `connect_pending`,
-- `read_pending` and `write_pending` say that Asio holds a completion handler, `reading` says which
-- of the two reads it is, and `closed_signaled` stands for the posted call of `closed`. What Asio
-- answers is an argument: an error code, the number of bytes, and for a read the bytes.
pub mod Closing
pub mod Keeping
pub mod Reading
pub mod Writing
use soupbintcp.Common.{
  ℕ, Bool, true, false, not, ◌&&◌, Option, some, List, [], ◌∷◌, ◌++◌, Bytes, length, ltb, ◌==◌,
  if◌then◌else◌,
}
use soupbintcp.Types.{PacketError, WriteError}
use soupbintcp.Error.{ErrorCode, success, system, end_of_file, operation_aborted, canceled, failed}
use soupbintcp.RwPackets.{
  ReadPacket, ReadResizeResult, WritePacket, default_read_packet, move_read_packet, header_size,
  resize_read_payload, read_payload_size, wire_size,
}

-- Which read Asio holds.
pub data ReadStage : Type 0 where
  header_stage payload_stage : ReadStage

pub record Socket : Type 0 where
  pub is_open : Bool
  pub read_packet : ReadPacket
  pub write_packets : List WritePacket
  pub write_packets_limit : ℕ
  pub write_buffer_was_full : Bool
  pub connect_pending : Bool
  pub read_pending : Bool
  pub write_pending : Bool
  pub closing : Bool
  pub closed_signaled : Bool
  pub reading : ReadStage

pub record Owner (W : Type 0) : Type 0 where
  pub get : W → Socket
  pub put : W → Socket → W
  pub connect_failure : W → ErrorCode → W
  pub connect_success : W → W
  pub read_failure : W → ErrorCode → W
  pub read_violation : W → PacketError → W  -- `read_failure(Packet_error)`
  pub read_success : W → ReadPacket → W
  pub read_aborted : W → W
  pub read_end_of_file : W → W
  pub write_failure : W → ErrorCode → W
  pub write_success : W → WritePacket → W
  pub write_buffer_empty : W → W

-- `is_open` is false for a socket made from an executor, and true for one that was accepted.
unfoldable pub new_socket : Bool → Socket
new_socket is_open = record {
  is_open = is_open;
  read_packet = default_read_packet;
  write_packets = [];
  write_packets_limit = 100;
  write_buffer_was_full = false;
  connect_pending = false;
  read_pending = false;
  write_pending = false;
  closing = false;
  closed_signaled = false;
  reading = header_stage;
}

unfoldable pub set_write_packets_limit : Socket → ℕ → Socket
set_write_packets_limit s limit = record s { write_packets_limit = limit }

-- `ec` is what Asio's `open` reports.
unfoldable pub open_socket : Socket → ErrorCode → Socket × ErrorCode
open_socket s ec = (if failed ec then s else record s { is_open = true }, ec)

unfoldable pub is_idle : Socket → Bool
is_idle s = not s.connect_pending && (not s.read_pending && not s.write_pending)

unfoldable pub maybe_signal_closed : Socket → Socket
unfolding is_idle
maybe_signal_closed s =
    if s.closing && (not s.closed_signaled && is_idle s)
    then record s { closed_signaled = true }
    else s

-- Asio's socket is closed whatever error its `close` reports.
unfoldable pub close : Socket → Socket
close s = maybe_signal_closed (record s { closing = true; is_open = false })

unfoldable pub async_connect : Socket → Socket
async_connect s = if s.closing then s else record s { connect_pending = true }

unfoldable pub read_header : Socket → Socket
read_header s = record s { read_pending = true; reading = header_stage }

unfoldable pub read_payload : Socket → Socket
read_payload s = record s { read_pending = true; reading = payload_stage }

unfoldable pub async_read : Socket → Socket
unfolding read_header
async_read s = if s.closing then s else read_header (record s { read_packet = default_read_packet })

-- Asio gets the bytes of the first packet of the list, which stays there until it is sent.
unfoldable pub write_packet : Socket → Socket
write_packet s = record s { write_pending = true }

unfoldable pub async_write : Socket → WritePacket → Socket × WriteError
unfolding write_packet
async_write s packet =
    let size = length s.write_packets in
    let s' : Socket = record s { write_packets = s.write_packets ++ packet ∷ [] } in
    if s.closing
    then (s, WriteError.disconnected)
    else if size == s.write_packets_limit
    then (record s { write_buffer_was_full = true }, WriteError.buffer_full)
    else (if size == 0 then write_packet s' else s', WriteError.none)

-- `ec == asio::error::operation_aborted` and `ec == asio::error::eof`.
abbrev pub is_aborted : ErrorCode → Bool
is_aborted (system n) = n == canceled
is_aborted _ = false

abbrev pub is_end_of_file : ErrorCode → Bool
is_end_of_file end_of_file = true
is_end_of_file _ = false

-- `write_packets_.pop_front()`.
abbrev pub pop_front : List WritePacket → List WritePacket
pop_front [] = []
pop_front (packet ∷ packets) = packets

module _ {W : Type 0} (o : Owner W) where
  open o use {get, put}

  -- `maybe_signal_closed()` at the end of a completion handler.
  unfoldable pub signal : W → W
  signal w = put w (maybe_signal_closed (get w))

  -- The completion handler given to `async_connect`.
  unfoldable pub connect_completed : W → ErrorCode → W
  connect_completed w ec =
      let w' = put w (record (get w) { connect_pending = false }) in
      signal (
        if failed ec
        then if not (is_aborted ec) then o.connect_failure w' ec else w'
        else o.connect_success w')

  -- The error branch of `header_received` and `payload_received`.
  unfoldable pub read_error : W → ErrorCode → W
  read_error w ec =
      if is_aborted ec
      then o.read_aborted w
      else if is_end_of_file ec
      then o.read_end_of_file w
      else o.read_failure w ec

  -- The packet read is moved out of the socket before the handler gets it.
  unfoldable pub deliver : W → W
  deliver w =
      let s : Socket = get w in
      let (packet, rest) = move_read_packet s.read_packet in
      o.read_success (put w (record s { read_packet = rest })) packet

  -- The `switch` of `header_received`.
  unfoldable pub header_resized : W → ReadResizeResult → W
  header_resized w ReadResizeResult.resized = put w (read_payload (get w))
  header_resized w ReadResizeResult.empty_payload = deliver w
  header_resized w ReadResizeResult.malformed_header =
      o.read_violation w PacketError.malformed_header

  unfoldable pub header_received : W → ErrorCode → ℕ → W
  header_received w ec n =
      let s : Socket = get w in
      let (packet, result) = resize_read_payload s.read_packet in
      if failed ec
      then read_error w ec
      else if not (n == header_size s.read_packet)
      then o.read_failure w (system canceled)
      else header_resized (put w (record s { read_packet = packet })) result

  unfoldable pub payload_received : W → ErrorCode → ℕ → W
  payload_received w ec n =
      if failed ec
      then read_error w ec
      else if not (n == read_payload_size (get w).read_packet)
      then o.read_failure w (system canceled)
      else deliver w

  -- The completion handlers given to `asio::async_read`. Asio has put the bytes into the packet.
  unfoldable pub header_completed : W → ErrorCode → ℕ → Bytes → W
  header_completed w ec n bytes =
      let s : Socket = get w in
      let packet : ReadPacket = record s.read_packet { header = bytes } in
      signal
        (header_received (put w (record s { read_pending = false; read_packet = packet })) ec n)

  unfoldable pub payload_completed : W → ErrorCode → ℕ → Bytes → W
  payload_completed w ec n bytes =
      let s : Socket = get w in
      let packet : ReadPacket = record s.read_packet {
        payload = record s.read_packet.payload { bytes = some bytes };
      } in
      signal
        (payload_received (put w (record s { read_pending = false; read_packet = packet })) ec n)

  -- The end of `packet_sent`, once the handler knows of the packet.
  unfoldable pub next_packet : W → List WritePacket → W
  next_packet w [] =
      if (get w).write_buffer_was_full
      then o.write_buffer_empty (put w (record (get w) { write_buffer_was_full = false }))
      else w
  next_packet w (packet ∷ packets) = put w (write_packet (get w))

  -- `packet_sent` where the write has succeeded, with the packets of the list.
  unfoldable pub front_sent : W → ℕ → List WritePacket → W
  front_sent w n [] = w
  front_sent w n (packet ∷ packets) =
      let told = o.write_success w packet in
      let rest = pop_front (get told).write_packets in
      if not (n == wire_size packet)
      then o.write_failure w (system canceled)
      else next_packet (put told (record (get told) { write_packets = rest })) rest

  unfoldable pub packet_sent : W → ErrorCode → ℕ → W
  packet_sent w ec n =
      if failed ec
      then if not (is_aborted ec) then o.write_failure w ec else w
      else front_sent w n (get w).write_packets

  -- The completion handler given to `asio::async_write`.
  unfoldable pub write_completed : W → ErrorCode → ℕ → W
  write_completed w ec n =
      signal (packet_sent (put w (record (get w) { write_pending = false })) ec n)
