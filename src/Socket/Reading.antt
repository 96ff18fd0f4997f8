-- ===== src/Socket/Reading.antt =====
-- How a packet that arrives reaches the handler: its header is read, then the payload if the header
-- announces one.
use soupbintcp.Common.{
  ℕ, suc, ◌+◌, ◌*◌, ◌≡◌, refl, false, some, sym, ==_refl, [], ◌∷◌, Bytes, length, arith,
}
use soupbintcp.Error.{success}
use soupbintcp.Packing.Integral.{unpack_u16}
use soupbintcp.RwPackets.{
  ReadPacket, move_read_packet, read_packet_size, read_packet_type, read_payload_data,
  read_payload_size, header_size, new_buffer, default_buffer,
}
use soupbintcp.RwPackets.Framing.{resized_to, resize-resized_to}
use soupbintcp.Socket.{
  Socket, Owner, signal, header_completed, payload_completed, header_received, payload_received,
  header_resized, deliver, read_payload, maybe_signal_closed, is_idle,
}

module _ {W : Type 0} (o : Owner W) (get-put : (w : W) (s : Socket) → o.get (o.put w s) ≡ s) where
  open o use {get, put}

  -- Asio reads the three bytes of a header, and then the payload if there is one.
  pub arrive : W → Bytes → Bytes → W
  arrive w header [] = header_completed o w success 3 header
  arrive w header (c ∷ text) =
      payload_completed o (header_completed o w success 3 header) success (suc (length text))
        (c ∷ text)

  -- The handler is given a packet of that type and payload, by the socket that it still owns.
  pub record Delivers (packet_type : ℕ) (text : Bytes) (result : W) : Type 0 where
    pub before : W
    pub packet : ReadPacket
    pub typed : read_packet_type packet ≡ packet_type
    pub filled : read_payload_data packet ≡ text
    pub idle : (get before).read_pending ≡ false
    pub told : result ≡ signal o (o.read_success before packet)

  header_packet : Socket → Bytes → ReadPacket
  header_packet s header = record s.read_packet { header = header }

  -- A header that announces `n` bytes.
  header_received-resized :
      (w : W) (a b packet_type n : ℕ)
      → a * 256 + b ≡ suc n
      → (get w).read_packet.header ≡ a ∷ b ∷ packet_type ∷ []
      → header_received o w success 3
        ≡ header_resized o
            (put w (record (get w) { read_packet = (resized_to (get w).read_packet n).0 }))
            (resized_to (get w).read_packet n).1
  unfolding header_received header_size
  header_received-resized w a b packet_type n e h =
      let size : read_packet_size (get w).read_packet ≡ suc n =
        unfold read_packet_size unpack_u16 in rw h e in
      rw (resize-resized_to (get w).read_packet n size, h)

  deliver-Delivers :
      (v : W) (packet_type : ℕ) (text : Bytes)
      → read_packet_type (get v).read_packet ≡ packet_type
      → read_payload_data (get v).read_packet ≡ text
      → (get v).read_pending ≡ false
      → Delivers packet_type text (signal o (deliver o v))
  unfolding deliver move_read_packet read_packet_type read_payload_data
  deliver-Delivers v packet_type text typed filled idle =
      let (packet, rest) = move_read_packet (get v).read_packet in
      let s : Socket = record (get v) { read_packet = rest } in
      record {
        before = put v s;
        packet = packet;
        typed = typed;
        filled = filled;
        idle = rw (get-put v s) idle;
        told = refl;
      }

  -- The socket after the header of a packet with payload: it reads the payload.
  announced : Socket → Bytes → ℕ → Socket
  announced s header n =
      read_payload
        (record s { read_pending = false; read_packet = (resized_to (header_packet s header) n).0 })

  header_completed-get :
      (w : W) (a b packet_type m : ℕ)
      → a * 256 + b ≡ suc (suc m)
      → get (header_completed o w success 3 (a ∷ b ∷ packet_type ∷ []))
        ≡ announced (get w) (a ∷ b ∷ packet_type ∷ []) (suc m)
  unfolding header_completed signal announced header_packet
  header_completed-get w a b packet_type m e =
      let h : Bytes = a ∷ b ∷ packet_type ∷ [] in
      let s : Socket = record (get w) {
        read_pending = false;
        read_packet = header_packet (get w) h;
      } in
      let v : W = put w s in
      let at : get v ≡ s = get-put w s in
      rw (header_received-resized v a b packet_type (suc m) e (rw at), at)
        (unfold header_resized read_payload maybe_signal_closed is_idle in
          rw (get-put, get-put, get-put) (ground arith))

  -- A payload of the announced length.
  payload-Delivers :
      (w : W) (a b packet_type : ℕ) (text : Bytes) (s : Socket) (m : ℕ)
      → length text ≡ suc m
      → get w ≡ announced s (a ∷ b ∷ packet_type ∷ []) (suc m)
      → Delivers packet_type text (payload_completed o w success (length text) text)
  unfolding payload_completed announced header_packet read_payload
  payload-Delivers w a b packet_type text s m len at =
      let packet : ReadPacket = record (get w).read_packet {
        payload = record (get w).read_packet.payload { bytes = some text };
      } in
      let t : Socket = record (get w) { read_pending = false; read_packet = packet } in
      let v : W = put w t in
      let e : get v ≡ t = get-put w t in
      let size : read_payload_size (get v).read_packet ≡ length text =
        unfold read_payload_size new_buffer in rw (e, at) (sym len) in
      let received : payload_received o v success (length text) ≡ deliver o v =
        unfold payload_received in rw (size, ==_refl (length text)) in
      rw received (
        deliver-Delivers v packet_type text (unfold read_packet_type in rw (e, at))
          (unfold read_payload_data in rw e) (rw e))

  -- A packet whose header announces its payload is delivered with its type and that payload, by a
  -- socket that Asio then holds no read of.
  pub arrive-Delivers :
      (w : W) (a b packet_type : ℕ) (text : Bytes)
      → a * 256 + b ≡ suc (length text)
      → Delivers packet_type text (arrive w (a ∷ b ∷ packet_type ∷ []) text)
  unfolding arrive
  arrive-Delivers w a b packet_type [] e =
      let h : Bytes = a ∷ b ∷ packet_type ∷ [] in
      let s : Socket = record (get w) {
        read_pending = false;
        read_packet = header_packet (get w) h;
      } in
      let v : W = put w s in
      let at : get v ≡ s = get-put w s in
      let t : Socket = record (get v) { read_packet = (resized_to (get v).read_packet 0).0 } in
      let at' : get (put v t) ≡ t = get-put v t in
      unfold header_completed header_packet header_resized in
      rw (header_received-resized v a b packet_type 0 e (rw at)) (
        deliver-Delivers (put v t) packet_type [] (unfold read_packet_type in rw (at', at))
          (unfold read_payload_data default_buffer in rw at') (rw (at', at)))
  arrive-Delivers w a b packet_type (c ∷ text) e =
      payload-Delivers _ a b packet_type (c ∷ text) (get w) (length text) refl
        (header_completed-get w a b packet_type (length text) e)
