-- ===== src/Examples/Sockets.antt =====
-- A socket of its own, whose handler reads on and closes it on any error.
use soupbintcp.Common.{◌≡◌, ◌<◌, ◌⊎◌, true, false, [], ◌∷◌, refl, arith, length}
use soupbintcp.Types.{WriteError}
use soupbintcp.Error.{success, operation_aborted}
use soupbintcp.LogicalPackets.{sequenced_data_type, debug_type}
use soupbintcp.RwPackets.{WritePacket, empty_write_packet, default_read_packet, wire_size}
use soupbintcp.Socket.{
  Socket, Owner, async_write, async_read, async_connect, close, maybe_signal_closed,
  header_completed, payload_completed, write_completed, header_stage,
}
use soupbintcp.Socket.Closing.{
  IsSettled, IsKeeping, IsLawful, requests-IsSettled, read_completed-IsSettled,
  write_completed-IsSettled,
}
use soupbintcp.Socket.Writing.{IsQueue, popped, async_write-IsQueue, sent-IsQueue}
use soupbintcp.Socket.Reading.{arrive, Delivers, arrive-Delivers}

abbrev owner : Owner Socket
owner = record {
  get = λ s. s;
  put = λ s t. t;
  connect_failure = λ s ec. close s;
  connect_success = λ s. async_read s;
  read_failure = λ s ec. close s;
  read_violation = λ s e. close s;
  read_success = λ s p. async_read s;
  read_aborted = λ s. close s;
  read_end_of_file = λ s. close s;
  write_failure = λ s ec. close s;
  write_success = λ s p. s;
  write_buffer_empty = λ s. s;
}

abbrev packet : WritePacket
packet = empty_write_packet debug_type

close-IsSettled : {s : Socket} → IsSettled s → IsSettled (close s)
close-IsSettled {s} h = (requests-IsSettled s packet h).0

async_read-IsSettled : {s : Socket} → IsSettled s → IsSettled (async_read s)
async_read-IsSettled {s} h = (requests-IsSettled s packet h).2

owner-IsKeeping : IsKeeping owner
owner-IsKeeping = record {
  get-put = λ s t. refl;
  connect_failure_keeps = λ s ec h. close-IsSettled h;
  connect_success_keeps = λ s h. async_read-IsSettled h;
  read_failure_keeps = λ s ec h. close-IsSettled h;
  read_violation_keeps = λ s e h. close-IsSettled h;
  read_success_keeps = λ s p h. async_read-IsSettled h;
  read_aborted_keeps = λ s h. close-IsSettled h;
  read_end_of_file_keeps = λ s h. close-IsSettled h;
  write_failure_keeps = λ s ec h. close-IsSettled h;
  write_buffer_empty_keeps = λ s h. h;
}

owner-IsLawful : IsLawful owner
owner-IsLawful = record { keeping = owner-IsKeeping; write_success_untouched = λ s p. refl }

-- A socket that connects, reads and writes at once.
abbrev busy : Socket
busy = record {
  is_open = true;
  read_packet = default_read_packet;
  write_packets = packet ∷ packet ∷ [];
  write_packets_limit = 2;
  write_buffer_was_full = true;
  connect_pending = true;
  read_pending = true;
  write_pending = true;
  closing = false;
  closed_signaled = false;
  reading = header_stage;
}

busy-IsSettled : IsSettled busy
busy-IsSettled = record { closing = λ e. cc; idle = λ e. cc }

busy-IsQueue : IsQueue busy
busy-IsQueue = record { bounded = omega arith; writing = λ e. refl }

requests-IsSettled_example :
    IsSettled (close busy)
    × IsSettled (async_connect busy)
    × IsSettled (async_read busy)
    × IsSettled (async_write busy packet).0
requests-IsSettled_example = requests-IsSettled busy packet busy-IsSettled

read_completed-IsSettled_example :
    IsSettled (header_completed owner busy success 3 (0 ∷ 2 ∷ 83 ∷ []))
    × IsSettled (payload_completed owner busy success 3 (0 ∷ 2 ∷ 83 ∷ []))
read_completed-IsSettled_example =
    read_completed-IsSettled owner owner-IsKeeping busy success 3 (0 ∷ 2 ∷ 83 ∷ []) busy-IsSettled
      refl

write_completed-IsSettled_example : IsSettled (write_completed owner busy operation_aborted 0)
write_completed-IsSettled_example =
    write_completed-IsSettled owner owner-IsLawful busy operation_aborted 0 busy-IsSettled refl

async_write-IsQueue_example :
    IsQueue (async_write busy packet).0
    × ((false ≡ true) × (async_write busy packet ≡ (busy, WriteError.disconnected))
        ⊎ ((false ≡ false)
            × (length busy.write_packets ≡ busy.write_packets_limit)
            × (async_write busy packet
                ≡ (record busy { write_buffer_was_full = true }, WriteError.buffer_full)))
        ⊎ ((false ≡ false)
            × (2 < 2)
            × (async_write busy packet ≡ (
              record busy { write_packets = packet ∷ packet ∷ packet ∷ []; write_pending = true },
              WriteError.none,
            ))))
async_write-IsQueue_example = async_write-IsQueue busy packet busy-IsQueue

sent-IsQueue_example :
    (write_completed owner busy success (wire_size packet)
      ≡ maybe_signal_closed (popped busy (packet ∷ [])))
    × IsQueue (write_completed owner busy success (wire_size packet))
sent-IsQueue_example =
    sent-IsQueue owner (λ s t. refl) (λ s. refl) (λ s p. refl) busy packet (packet ∷ [])
      busy-IsQueue refl

arrive-Delivers_example :
    Delivers owner
      (λ s t. refl)
      sequenced_data_type
      (7 ∷ 9 ∷ [])
      (arrive owner (λ s t. refl) busy (0 ∷ 3 ∷ sequenced_data_type ∷ []) (7 ∷ 9 ∷ []))
arrive-Delivers_example =
    arrive-Delivers owner (λ s t. refl) busy 0 3 sequenced_data_type (7 ∷ 9 ∷ []) (omega arith)
