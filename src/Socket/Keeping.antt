-- ===== src/Socket/Keeping.antt =====
-- What the callbacks of an owner keep, the completion handlers of its socket keep.
use soupbintcp.Common.{
  ℕ, ◌≡◌, ◌⊎◌, inl, inr, ◌==◌, Bool-cases, true, false, Bytes, [], ◌∷◌, List, arith,
}
use soupbintcp.Types.{PacketError}
use soupbintcp.Error.{ErrorCode, system, canceled}
use soupbintcp.RwPackets.{ReadPacket, ReadResizeResult, WritePacket, wire_size, resize_read_payload}
use soupbintcp.Socket.{
  Socket, Owner, is_idle, maybe_signal_closed, read_payload, write_packet, signal, read_error,
  deliver, header_resized, header_received, payload_received, header_completed, payload_completed,
  next_packet, front_sent, packet_sent, write_completed, pop_front,
}

-- A socket that is closing just when the other one is, and is signalled as closed only if that is or may be.
abbrev pub IsNear : Socket → Socket → Type 0
IsNear s s' =
    (s'.closing ≡ s.closing)
    × (s'.closed_signaled ≡ true → (s.closed_signaled ≡ true) ⊎ (s.closing ≡ true))

pub record Keeps {W : Type 0} (o : Owner W) (I : W → Type 0) : Type 0 where
  pub put_keeps : (w : W) (s : Socket) → I w → IsNear (o.get w) s → I (o.put w s)
  pub read_failure_keeps : (w : W) (ec : ErrorCode) → I w → I (o.read_failure w ec)
  pub read_violation_keeps : (w : W) (e : PacketError) → I w → I (o.read_violation w e)
  pub read_success_keeps : (w : W) (p : ReadPacket) → I w → I (o.read_success w p)
  pub read_aborted_keeps : (w : W) → I w → I (o.read_aborted w)
  pub read_end_of_file_keeps : (w : W) → I w → I (o.read_end_of_file w)
  pub write_failure_keeps : (w : W) (ec : ErrorCode) → I w → I (o.write_failure w ec)
  pub write_success_keeps : (w : W) (p : WritePacket) → I w → I (o.write_success w p)
  pub write_buffer_empty_keeps : (w : W) → I w → I (o.write_buffer_empty w)

module _ {W : Type 0} (o : Owner W) (I : W → Type 0) (law : Keeps o I) where
  open o use {get, put}

  signal-I : (w : W) → I w → I (signal o w)
  unfolding signal maybe_signal_closed is_idle
  signal-I w h = law.put_keeps w _ h (ground arith, λ e. ground arith)

  read_error-I : (w : W) (ec : ErrorCode) → I w → I (read_error o w ec)
  unfolding read_error
  read_error-I w ec h = ground (
    arith,
    law.read_aborted_keeps w h,
    law.read_end_of_file_keeps w h,
    law.read_failure_keeps w ec h,
  )

  deliver-I : (w : W) → I w → I (deliver o w)
  unfolding deliver
  deliver-I w h = law.read_success_keeps _ _ (law.put_keeps w _ h (ground arith, λ e. ground arith))

  header_resized-I : (w : W) (r : ReadResizeResult) → I w → I (header_resized o w r)
  unfolding header_resized
  header_resized-I w ReadResizeResult.resized h =
      law.put_keeps w _ h (unfold read_payload in (ground arith, λ e. ground arith))
  header_resized-I w ReadResizeResult.empty_payload h = deliver-I w h
  header_resized-I w ReadResizeResult.malformed_header h = law.read_violation_keeps w _ h

  header_received-I : (w : W) (ec : ErrorCode) (n : ℕ) → I w → I (header_received o w ec n)
  unfolding header_received
  header_received-I w ec n h =
      let (packet, result) = resize_read_payload (get w).read_packet in
      let s : Socket = record (get w) { read_packet = packet } in
      let resized =
        header_resized-I (put w s) result (law.put_keeps w s h (ground arith, λ e. ground arith)) in
      ground (arith, read_error-I w ec h, law.read_failure_keeps w (system canceled) h, resized)

  payload_received-I : (w : W) (ec : ErrorCode) (n : ℕ) → I w → I (payload_received o w ec n)
  unfolding payload_received
  payload_received-I w ec n h =
      ground
        (arith, read_error-I w ec h, law.read_failure_keeps w (system canceled) h, deliver-I w h)

  next_packet-I : (w : W) (packets : List WritePacket) → I w → I (next_packet o w packets)
  unfolding next_packet write_packet
  next_packet-I w [] h =
      let emptied = law.write_buffer_empty_keeps _ (
        law.put_keeps w (record (get w) { write_buffer_was_full = false }) h
          (ground arith, λ e. ground arith)) in
      ground arith
  next_packet-I w (packet ∷ packets) h = law.put_keeps w _ h (ground arith, λ e. ground arith)

  front_sent-I : (w : W) (n : ℕ) (packets : List WritePacket) → I w → I (front_sent o w n packets)
  unfolding front_sent
  front_sent-I w n [] h = h
  front_sent-I w n (packet ∷ packets) h =
      let told = law.write_success_keeps w packet h in
      let w' : W = o.write_success w packet in
      let rest = pop_front (get w').write_packets in
      let popped : I (put w' (record (get w') { write_packets = rest })) =
        law.put_keeps w' _ told (ground arith, λ e. ground arith) in
      elim (Bool-cases (n == wire_size packet)) [
        | inl whole ↦ rw (whole, front_sent) (next_packet-I _ rest popped)
        | inr part ↦ rw (part, front_sent) (law.write_failure_keeps w (system canceled) h)
      ]

  packet_sent-I : (w : W) (ec : ErrorCode) (n : ℕ) → I w → I (packet_sent o w ec n)
  unfolding packet_sent
  packet_sent-I w ec n h =
      ground (arith, law.write_failure_keeps w ec h, front_sent-I w n (get w).write_packets h)

  pub header_completed-I :
      (w : W) (ec : ErrorCode) (n : ℕ) (bytes : Bytes) → I w → I (header_completed o w ec n bytes)
  unfolding header_completed
  header_completed-I w ec n bytes h =
      signal-I _ (header_received-I _ ec n (law.put_keeps w _ h (ground arith, λ e. ground arith)))

  pub payload_completed-I :
      (w : W) (ec : ErrorCode) (n : ℕ) (bytes : Bytes) → I w → I (payload_completed o w ec n bytes)
  unfolding payload_completed
  payload_completed-I w ec n bytes h =
      signal-I _ (payload_received-I _ ec n (law.put_keeps w _ h (ground arith, λ e. ground arith)))

  pub write_completed-I : (w : W) (ec : ErrorCode) (n : ℕ) → I w → I (write_completed o w ec n)
  unfolding write_completed
  write_completed-I w ec n h =
      signal-I _ (packet_sent-I _ ec n (law.put_keeps w _ h (ground arith, λ e. ground arith)))
