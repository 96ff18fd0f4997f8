-- ===== src/Socket/Writing.antt =====
-- The packets that wait to be written: a bounded queue of which Asio writes the first.
use soupbintcp.Common.{
  ◌≤◌, ◌<◌, ◌≡◌, refl, ap, ◌∙◌, Bool, true, false, ◌⊎◌, inl, inr, List, [], ◌∷◌, ◌++◌, length,
  length-append, arith, ◌==◌, ==_refl, not, ◌&&◌, Bool-cases,
}
use soupbintcp.Types.{WriteError}
use soupbintcp.Error.{success}
use soupbintcp.RwPackets.{WritePacket, wire_size}
use soupbintcp.Socket.{
  Socket, Owner, maybe_signal_closed, write_packet, async_write, signal, next_packet, front_sent,
  packet_sent, write_completed, pop_front,
}

abbrev pub is_empty : List WritePacket → Bool
is_empty [] = true
is_empty (p ∷ ps) = false

-- The queue is within its limit, and while the socket is not closing Asio writes exactly if a packet
-- waits.
pub record IsQueue (s : Socket) : Type 0 where
  pub bounded : length s.write_packets ≤ s.write_packets_limit
  pub writing : s.closing ≡ false → s.write_pending ≡ not (is_empty s.write_packets)

is_empty-append : (ps : List WritePacket) (p : WritePacket) → is_empty (ps ++ p ∷ []) ≡ false
is_empty-append [] p = refl
is_empty-append (q ∷ ps) p = refl

is_empty-length : (ps : List WritePacket) → is_empty ps ≡ (length ps == 0)
is_empty-length [] = refl
is_empty-length (p ∷ ps) = ground arith

-- A packet is taken unless the socket is closing or the queue is full. If it is taken it stands last
-- and nothing else of the queue changes; if not, the queue is left as it is, and a full one is
-- remembered. In each case the queue is sound again.
pub async_write-IsQueue :
    (s : Socket) (packet : WritePacket)
    → IsQueue s
    → IsQueue (async_write s packet).0
      × ((s.closing ≡ true) × (async_write s packet ≡ (s, WriteError.disconnected))
          ⊎ ((s.closing ≡ false)
              × (length s.write_packets ≡ s.write_packets_limit)
              × (async_write s packet
                  ≡ (record s { write_buffer_was_full = true }, WriteError.buffer_full)))
          ⊎ ((s.closing ≡ false)
              × (length s.write_packets < s.write_packets_limit)
              × (async_write s packet ≡ (
                record s { write_packets = s.write_packets ++ packet ∷ []; write_pending = true },
                WriteError.none,
              ))))
unfolding async_write write_packet
async_write-IsQueue s packet h = ground (
  arith,
  length-append s.write_packets (packet ∷ []),
  is_empty-append s.write_packets packet,
  is_empty-length s.write_packets,
)

-- The socket once its first packet is sent.
abbrev pub popped : Socket → List WritePacket → Socket
popped s packets = record s {
  write_packets = packets;
  write_pending = not (is_empty packets);
  write_buffer_was_full = s.write_buffer_was_full && not (is_empty packets);
}

module _ {W : Type 0} (o : Owner W) (get-put : (w : W) (s : Socket) → o.get (o.put w s) ≡ s) where
  open o use {get, put}

  pub write_completed-get :
      (w : W) (p : WritePacket) (ps : List WritePacket)
      → (get w).write_packets ≡ p ∷ ps
      → get (write_completed o w success (wire_size p))
        ≡ maybe_signal_closed (
            get (
              front_sent o
                (put w (record (get w) { write_pending = false }))
                (wire_size p)
                (p ∷ ps)))
  unfolding write_completed signal packet_sent
  write_completed-get w p ps front =
      let s : Socket = record (get w) { write_pending = false } in
      let front' : (get (put w s)).write_packets ≡ p ∷ ps = rw (get-put w s) front in
      rw (write_completed, signal, packet_sent, front', get-put)

module _ {W : Type 0} (o : Owner W) (get-put : (w : W) (s : Socket) → o.get (o.put w s) ≡ s)
    (emptied : (w : W) → o.get (o.write_buffer_empty w) ≡ o.get w) where
  open o use {get, put}

  pub next_packet-get :
      (w : W) (packets : List WritePacket)
      → (get w).write_packets ≡ packets
      → (get w).write_pending ≡ false
      → get (next_packet o w packets) ≡ popped (get w) packets
  unfolding next_packet write_packet
  next_packet-get w [] same idle = elim (Bool-cases (get w).write_buffer_was_full) [
    | inl e ↦ rw (e, emptied, get-put, same, idle)
    | inr e ↦ rw (e, same, idle, e)
  ]
  next_packet-get w (p ∷ ps) same idle = rw (get-put, same) (ground arith)

module _ {W : Type 0} (o : Owner W) (get-put : (w : W) (s : Socket) → o.get (o.put w s) ≡ s)
    (emptied : (w : W) → o.get (o.write_buffer_empty w) ≡ o.get w)
    (told : (w : W) (p : WritePacket) → o.get (o.write_success w p) ≡ o.get w) where
  open o use {get, put}

  front_sent-get :
      (v : W) (p : WritePacket) (ps : List WritePacket)
      → (get v).write_packets ≡ p ∷ ps
      → (get v).write_pending ≡ false
      → get (front_sent o v (wire_size p) (p ∷ ps)) ≡ popped (get v) ps
  unfolding front_sent
  front_sent-get v p ps front idle =
      let t : W = o.write_success v p in
      let same : get t ≡ get v = told v p in
      let rest : pop_front (get t).write_packets ≡ ps =
        ap (λ (u : Socket). pop_front u.write_packets) same ∙ ap pop_front front in
      let q : Socket = record (get t) { write_packets = ps } in
      rw (==_refl (wire_size p), rest)
        (next_packet-get o get-put emptied (put t q) ps (rw (get-put t q))
            (rw (get-put t q, same) idle)
          ∙ ap (λ u. popped u ps) (get-put t q)
          ∙ ap (λ u. popped u ps) same)

  -- The completion of a write of the whole first packet, where the callbacks leave the socket alone:
  -- the packet leaves the queue, the next one is written if there is one, and only an empty queue
  -- forgets that it was full. A queue that was sound is sound again.
  pub sent-IsQueue :
      (w : W) (p : WritePacket) (ps : List WritePacket)
      → IsQueue (get w)
      → (get w).write_packets ≡ p ∷ ps
      → (get (write_completed o w success (wire_size p)) ≡ maybe_signal_closed (popped (get w) ps))
        × IsQueue (get (write_completed o w success (wire_size p)))
  sent-IsQueue w p ps h front = (result, rw result (unfold maybe_signal_closed in ground arith))
    where
      s : Socket
      s = record (get w) { write_pending = false }

      sent : get (front_sent o (put w s) (wire_size p) (p ∷ ps)) ≡ popped (get w) ps
      sent =
          front_sent-get (put w s) p ps (rw (get-put w s) front) (rw (get-put w s))
          ∙ ap (λ u. popped u ps) (get-put w s)

      result :
          get (write_completed o w success (wire_size p)) ≡ maybe_signal_closed (popped (get w) ps)
      result = write_completed-get o get-put w p ps front ∙ ap maybe_signal_closed sent
