-- ===== src/Examples/Files/Stores.antt =====
-- Stores on the file in memory.
use soupbintcp.Common.{◌<◌, ◌≡◌, refl, some, [], ◌∷◌, Bytes, length, arith}
use soupbintcp.FileStore.Transfer
use soupbintcp.FileStore.Transfer.Writing.{WriteEnds}
use soupbintcp.FileStore.Transfer.Reading.{ReadEnds}
use soupbintcp.FileStore.Transfer.Calls.{read-Ends, write-Ends}
use soupbintcp.Packing.Integral.{pack_u16}
use soupbintcp.FileStore.Store.{FileStore, close, add, add_at, added, size_written, size_field}
use soupbintcp.FileStore.Log.{frames}
use soupbintcp.FileStore.Adding.{Stores, Adds, add-Adds}
use soupbintcp.FileStore.Opening.Recovery.{Opens, kernel_of, open_again, close-open_again}
use soupbintcp.Examples.Files.{Memory, memory, memory-IsLawful}

abbrev hello : Bytes
hello = 104 ∷ 105 ∷ []

abbrev world : Bytes
world = 119 ∷ []

-- A file with one message, three signals to come and room for ten bytes.
abbrev one_message : Memory
one_message = record { before = 0 ∷ 2 ∷ hello; after = []; signals = 3; room = 10 }

abbrev file_name : Bytes
file_name = 102 ∷ []

abbrev one_offset : FileStore
one_offset = record { filename = file_name; fd = some 3; offsets = 0 ∷ [] }

one_message-Stores : Stores memory memory-IsLawful one_message one_offset (hello ∷ [])
unfolding size_field pack_u16
one_message-Stores = record {
  before = 0 ∷ 2 ∷ hello;
  after = [];
  log = refl;
  found = refl;
  stands = (refl, refl);
}

-- Two bytes are written behind the size, one at a time.
add_run :
    add memory 20 one_message one_offset world
    ≡ some (
      record { before = 0 ∷ 2 ∷ 104 ∷ 105 ∷ 0 ∷ 1 ∷ 119 ∷ []; after = []; signals = 0; room = 7 },
      record one_offset { offsets = 0 ∷ 4 ∷ [] },
      0,
    )
unfolding add add_at size_written Transfer.write Transfer.write_partial_handling size_field pack_u16
    Transfer.after_write Transfer.while_interrupted Transfer.retry added
add_run = refl

-- Where the room ends behind the size, the store counts a message that the file does not have.
add_full_run :
    add memory 20 (record one_message { room = 2 }) one_offset world
    ≡ some (
      record { before = 0 ∷ 2 ∷ 104 ∷ 105 ∷ 0 ∷ 1 ∷ []; after = []; signals = 0; room = 0 },
      record one_offset { offsets = 0 ∷ 4 ∷ [] },
      28,
    )
unfolding add add_at size_written Transfer.write Transfer.write_partial_handling size_field pack_u16
    Transfer.after_write Transfer.while_interrupted Transfer.retry added
add_full_run = refl

add-Adds_example :
    Adds memory memory-IsLawful one_message one_offset
      (hello ∷ [])
      world
      (add memory 20 one_message one_offset world)
add-Adds_example =
    add-Adds memory memory-IsLawful 20 10 (omega arith) one_message one_offset (hello ∷ []) world
      one_message-Stores (omega arith) (omega arith) (omega arith)

abbrev two_messages : Memory
two_messages = record {
  before = [];
  after = 0 ∷ 2 ∷ 104 ∷ 105 ∷ 0 ∷ 1 ∷ 119 ∷ [];
  signals = 2;
  room = 0;
}

abbrev two_offsets : FileStore
two_offsets = record { filename = file_name; fd = some 3; offsets = 0 ∷ 4 ∷ [] }

size_one : frames (hello ∷ world ∷ []) ≡ 0 ∷ 2 ∷ 104 ∷ 105 ∷ 0 ∷ 1 ∷ 119 ∷ []
unfolding size_field pack_u16
size_one = refl

two_messages-Stores : Stores memory memory-IsLawful two_messages two_offsets (hello ∷ world ∷ [])
unfolding size_field pack_u16
two_messages-Stores = record {
  before = [];
  after = two_messages.after;
  log = refl;
  found = refl;
  stands = (refl, refl);
}

two_messages-fit : length (frames (hello ∷ world ∷ [])) < 20
two_messages-fit = rw size_one (omega arith)

close-open_again_example :
    Opens memory memory-IsLawful file_name
      (hello ∷ world ∷ [])
      20
      10
      (omega arith)
      (kernel_of memory memory-IsLawful file_name
        (hello ∷ world ∷ [])
        20
        10
        (omega arith)
        two_messages
        (close memory 20 two_messages two_offsets))
      (open_again memory memory-IsLawful file_name
        (hello ∷ world ∷ [])
        20
        10
        (omega arith)
        (close memory 20 two_messages two_offsets))
close-open_again_example =
    close-open_again memory memory-IsLawful file_name (hello ∷ world ∷ []) 20 10 (omega arith)
      two_messages two_offsets two_messages-Stores refl (omega arith, (omega arith, tt))
      two_messages-fit (omega arith) (omega arith)

write-Ends_example :
    WriteEnds memory.eintr
      (λ m rest. memory.write m (some 3) rest)
      (λ m. m.signals)
      10
      (λ m b. (m.before ≡ b) × (m.after ≡ []))
      one_message.before
      world
      (Transfer.write memory 20 one_message (some 3) world)
write-Ends_example =
    write-Ends memory memory-IsLawful 20 10 (omega arith) one_message (some 3) file_name
      one_message.before world (refl, refl) (omega arith) (omega arith)

read-Ends_example :
    ReadEnds memory.eintr
      (λ m n. memory.read m (some 3) n)
      (λ m. m.signals)
      10
      (λ m b a. (m.before ≡ b) × (m.after ≡ a))
      []
      two_messages.after
      9
      (Transfer.read memory 20 two_messages (some 3) 9)
read-Ends_example =
    read-Ends memory memory-IsLawful 20 10 (omega arith) two_messages (some 3) file_name []
      two_messages.after 9 (refl, refl) (omega arith) (omega arith)
