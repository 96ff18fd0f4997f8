-- ===== src/Socket/Closing.antt =====
-- When `closed` is signalled: once, and only when Asio holds no completion handler of the socket.
-- The owner of the socket is destroyed after that call, so a handler that Asio still held would run
-- on a destroyed object.
use soupbintcp.Common.{ℕ, ◌≡◌, true, false, Bytes, [], ◌∷◌, List, some, arith}
use soupbintcp.Types.{PacketError}
use soupbintcp.Error.{ErrorCode, system, canceled}
use soupbintcp.RwPackets.{ReadPacket, ReadResizeResult, WritePacket, resize_read_payload}
use soupbintcp.Socket.{
  Socket, Owner, is_idle, maybe_signal_closed, close, async_connect, read_header, read_payload,
  async_read, write_packet, async_write, signal, connect_completed, read_error, deliver,
  header_resized, header_received, payload_received, header_completed, payload_completed,
  next_packet, front_sent, packet_sent, write_completed, pop_front,
}

-- Once `closed` is signalled the socket is closing and Asio holds nothing of it.
pub record IsSettled (s : Socket) : Type 0 where
  pub closing : s.closed_signaled ≡ true → s.closing ≡ true
  pub idle : s.closed_signaled ≡ true → is_idle s ≡ true

maybe_signal_closed-IsSettled : {s : Socket} → IsSettled s → IsSettled (maybe_signal_closed s)
unfolding maybe_signal_closed is_idle
maybe_signal_closed-IsSettled h = ground arith

-- What the owner asks of its socket keeps that.
pub requests-IsSettled :
    (s : Socket) (packet : WritePacket)
    → IsSettled s
    → IsSettled (close s)
      × IsSettled (async_connect s)
      × IsSettled (async_read s)
      × IsSettled (async_write s packet).0
unfolding close maybe_signal_closed is_idle async_connect async_read read_header async_write
    write_packet
requests-IsSettled s packet h = (ground arith, ground arith, ground arith, ground arith)

pending_fresh : (s : Socket) → IsSettled s → is_idle s ≡ false → s.closed_signaled ≡ false
pending_fresh s h busy = ground arith

-- An owner whose callbacks keep the socket settled, all but `write_success`.
pub record IsKeeping {W : Type 0} (o : Owner W) : Type 0 where
  pub get-put : (w : W) (s : Socket) → o.get (o.put w s) ≡ s
  pub connect_failure_keeps :
      (w : W) (ec : ErrorCode) → IsSettled (o.get w) → IsSettled (o.get (o.connect_failure w ec))
  pub connect_success_keeps :
      (w : W) → IsSettled (o.get w) → IsSettled (o.get (o.connect_success w))
  pub read_failure_keeps :
      (w : W) (ec : ErrorCode) → IsSettled (o.get w) → IsSettled (o.get (o.read_failure w ec))
  pub read_violation_keeps :
      (w : W) (e : PacketError) → IsSettled (o.get w) → IsSettled (o.get (o.read_violation w e))
  pub read_success_keeps :
      (w : W) (p : ReadPacket) → IsSettled (o.get w) → IsSettled (o.get (o.read_success w p))
  pub read_aborted_keeps : (w : W) → IsSettled (o.get w) → IsSettled (o.get (o.read_aborted w))
  pub read_end_of_file_keeps :
      (w : W) → IsSettled (o.get w) → IsSettled (o.get (o.read_end_of_file w))
  pub write_failure_keeps :
      (w : W) (ec : ErrorCode) → IsSettled (o.get w) → IsSettled (o.get (o.write_failure w ec))
  pub write_buffer_empty_keeps :
      (w : W) → IsSettled (o.get w) → IsSettled (o.get (o.write_buffer_empty w))

-- An owner whose callbacks keep the socket settled; `write_success` does not touch it.
pub record IsLawful {W : Type 0} (o : Owner W) : Type 0 where
  pub keeping : IsKeeping o
  pub write_success_untouched : (w : W) (p : WritePacket) → o.get (o.write_success w p) ≡ o.get w

module _ {W : Type 0} (o : Owner W) (law : IsKeeping o) where
  open o use {get, put}

  put-IsSettled : (w : W) {s : Socket} → IsSettled s → IsSettled (get (put w s))
  put-IsSettled w {s} h = rw (law.get-put w s) h

  signal-IsSettled : (w : W) → IsSettled (get w) → IsSettled (get (signal o w))
  unfolding signal
  signal-IsSettled w h = put-IsSettled w (maybe_signal_closed-IsSettled h)

  read_error-IsSettled :
      (w : W) (ec : ErrorCode) → IsSettled (get w) → IsSettled (get (read_error o w ec))
  unfolding read_error
  read_error-IsSettled w ec h = ground (
    arith,
    law.read_aborted_keeps w h,
    law.read_end_of_file_keeps w h,
    law.read_failure_keeps w ec h,
  )

  deliver-IsSettled : (w : W) → IsSettled (get w) → IsSettled (get (deliver o w))
  unfolding deliver
  deliver-IsSettled w h =
      law.read_success_keeps _ _ (put-IsSettled w (unfold is_idle in ground arith))

  -- A handler that has just been called was not signalled away before.
  header_resized-IsSettled :
      (w : W) (r : ReadResizeResult)
      → IsSettled (get w)
      → (get w).closed_signaled ≡ false
      → IsSettled (get (header_resized o w r))
  unfolding header_resized
  header_resized-IsSettled w ReadResizeResult.resized h fresh =
      put-IsSettled w (unfold read_payload in ground arith)
  header_resized-IsSettled w ReadResizeResult.empty_payload h fresh = deliver-IsSettled w h
  header_resized-IsSettled w ReadResizeResult.malformed_header h fresh =
      law.read_violation_keeps w _ h

  header_received-IsSettled :
      (w : W) (ec : ErrorCode) (n : ℕ)
      → IsSettled (get w)
      → (get w).closed_signaled ≡ false
      → IsSettled (get (header_received o w ec n))
  unfolding header_received
  header_received-IsSettled w ec n h fresh =
      let (packet, result) = resize_read_payload (get w).read_packet in
      let s : Socket = record (get w) { read_packet = packet } in
      let e : get (put w s) ≡ s = law.get-put w s in
      let resized =
        header_resized-IsSettled (put w s) result (put-IsSettled w (unfold is_idle in ground arith))
          (rw e fresh) in
      ground
        (arith, read_error-IsSettled w ec h, law.read_failure_keeps w (system canceled) h, resized)

  payload_received-IsSettled :
      (w : W) (ec : ErrorCode) (n : ℕ)
      → IsSettled (get w)
      → IsSettled (get (payload_received o w ec n))
  unfolding payload_received
  payload_received-IsSettled w ec n h = ground (
    arith,
    read_error-IsSettled w ec h,
    law.read_failure_keeps w (system canceled) h,
    deliver-IsSettled w h,
  )

  next_packet-IsSettled :
      (w : W) (packets : List WritePacket)
      → IsSettled (get w)
      → (get w).closed_signaled ≡ false
      → IsSettled (get (next_packet o w packets))
  unfolding next_packet
  next_packet-IsSettled w [] h fresh =
      let s : Socket = record (get w) { write_buffer_was_full = false } in
      let told =
        law.write_buffer_empty_keeps (put w s) (put-IsSettled w (unfold is_idle in ground arith)) in
      ground (arith, told)
  next_packet-IsSettled w (packet ∷ packets) h fresh =
      put-IsSettled w (unfold write_packet in ground arith)

  -- The completion of a pending connect, with whatever error code, keeps the socket settled.
  pub connect_completed-IsSettled :
      (w : W) (ec : ErrorCode)
      → IsSettled (get w)
      → (get w).connect_pending ≡ true
      → IsSettled (get (connect_completed o w ec))
  unfolding connect_completed
  connect_completed-IsSettled w ec h p =
      let fresh = pending_fresh (get w) h (unfold is_idle in ground arith) in
      let s : Socket = record (get w) { connect_pending = false } in
      let h' : IsSettled (get (put w s)) = put-IsSettled w (unfold is_idle in ground arith) in
      signal-IsSettled _ (
        ground (
          arith,
          law.connect_failure_keeps (put w s) ec h',
          law.connect_success_keeps (put w s) h',
          h',
        ))

  header_completed-IsSettled :
      (w : W) (ec : ErrorCode) (n : ℕ) (bytes : Bytes)
      → IsSettled (get w)
      → (get w).read_pending ≡ true
      → IsSettled (get (header_completed o w ec n bytes))
  unfolding header_completed
  header_completed-IsSettled w ec n bytes h p =
      let fresh = pending_fresh (get w) h (unfold is_idle in ground arith) in
      let s : Socket = record (get w) {
        read_pending = false;
        read_packet = record (get w).read_packet { header = bytes };
      } in
      let h' : IsSettled (get (put w s)) = put-IsSettled w (unfold is_idle in ground arith) in
      signal-IsSettled _ (header_received-IsSettled (put w s) ec n h' (rw (law.get-put w s) fresh))

  payload_completed-IsSettled :
      (w : W) (ec : ErrorCode) (n : ℕ) (bytes : Bytes)
      → IsSettled (get w)
      → (get w).read_pending ≡ true
      → IsSettled (get (payload_completed o w ec n bytes))
  unfolding payload_completed
  payload_completed-IsSettled w ec n bytes h p =
      let fresh = pending_fresh (get w) h (unfold is_idle in ground arith) in
      let packet : ReadPacket = record (get w).read_packet {
        payload = record (get w).read_packet.payload { bytes = some bytes };
      } in
      let s : Socket = record (get w) { read_pending = false; read_packet = packet } in
      let h' : IsSettled (get (put w s)) = put-IsSettled w (unfold is_idle in ground arith) in
      signal-IsSettled _ (payload_received-IsSettled (put w s) ec n h')

  -- For an owner whose callbacks, all but `write_success`, keep the socket settled (once `closed`
  -- is signalled the socket is closing and Asio holds no handler of it), the completion of a
  -- pending read keeps it settled, with whatever error code, count and bytes.
  pub read_completed-IsSettled :
      (w : W) (ec : ErrorCode) (n : ℕ) (bytes : Bytes)
      → IsSettled (get w)
      → (get w).read_pending ≡ true
      → IsSettled (get (header_completed o w ec n bytes))
        × IsSettled (get (payload_completed o w ec n bytes))
  read_completed-IsSettled w ec n bytes h p =
      (header_completed-IsSettled w ec n bytes h p, payload_completed-IsSettled w ec n bytes h p)

module _ {W : Type 0} (o : Owner W) (law : IsLawful o) where
  open o use {get, put}

  front_sent-IsSettled :
      (w : W) (n : ℕ) (packets : List WritePacket)
      → IsSettled (get w)
      → (get w).closed_signaled ≡ false
      → IsSettled (get (front_sent o w n packets))
  unfolding front_sent
  front_sent-IsSettled w n [] h fresh = h
  front_sent-IsSettled w n (packet ∷ packets) h fresh =
      let told : W = o.write_success w packet in
      let same : get told ≡ get w = law.write_success_untouched w packet in
      let s : Socket = record (get told) { write_packets = pop_front (get told).write_packets } in
      let e : get (put told s) ≡ s = law.keeping.get-put told s in
      let popped : IsSettled s = unfold is_idle in ground arith in
      let next =
        next_packet-IsSettled o law.keeping (put told s) (pop_front (get told).write_packets)
          (put-IsSettled o law.keeping told popped) (rw (e, same) fresh) in
      ground (arith, law.keeping.write_failure_keeps w (system canceled) h, next)

  packet_sent-IsSettled :
      (w : W) (ec : ErrorCode) (n : ℕ)
      → IsSettled (get w)
      → (get w).closed_signaled ≡ false
      → IsSettled (get (packet_sent o w ec n))
  unfolding packet_sent
  packet_sent-IsSettled w ec n h fresh = ground (
    arith,
    law.keeping.write_failure_keeps w ec h,
    front_sent-IsSettled w n (get w).write_packets h fresh,
  )

  -- For an owner whose other callbacks keep the socket settled (once `closed` is signalled the
  -- socket is closing and Asio holds no handler of it), and whose `write_success` does not touch
  -- it, the completion of a pending write keeps the socket settled, with whatever error code and
  -- count.
  pub write_completed-IsSettled :
      (w : W) (ec : ErrorCode) (n : ℕ)
      → IsSettled (get w)
      → (get w).write_pending ≡ true
      → IsSettled (get (write_completed o w ec n))
  unfolding write_completed
  write_completed-IsSettled w ec n h p =
      let fresh = pending_fresh (get w) h (unfold is_idle in ground arith) in
      let s : Socket = record (get w) { write_pending = false } in
      let h' : IsSettled (get (put w s)) =
        put-IsSettled o law.keeping w (unfold is_idle in ground arith) in
      signal-IsSettled o law.keeping _
        (packet_sent-IsSettled (put w s) ec n h' (rw (law.keeping.get-put w s) fresh))
