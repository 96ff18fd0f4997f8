-- ===== src/FileStore/Store.antt =====
-- `File_store` of src/file_store.cpp. `none` stands for a loop that uses up its fuel; an error code is
-- the value of `errno`, 0 without an error.
use soupbintcp.Common.{
  ℕ, zero, suc, ◌+◌, ◌-◌, ◌%◌, ltb, ◌||◌, if◌then◌else◌, Option, none, some, List, [], ◌∷◌, ◌++◌,
  Bytes, length, get_elem?, take, drop,
}
use soupbintcp.Constants.{u16_mod}
use soupbintcp.Packing.Integral.{pack_u16, unpack_u16}
use soupbintcp.FileStore.Posix.{
  Posix, Called, failed, returned, Descriptor, rdonly, rdwr_creat, seek_set, seek_cur, seek_end,
}
use soupbintcp.FileStore.Transfer
use soupbintcp.FileStore.Transfer.{ReadResult, ReadStatus, WriteResult, WriteStatus}

pub record FileStore : Type 0 where
  pub filename : Bytes
  pub fd : Descriptor
  pub offsets : List ℕ

unfoldable pub new_store : Bytes → FileStore
new_store filename = record { filename = filename; fd = none; offsets = [] }

unfoldable pub set_filename : FileStore → Bytes → FileStore
set_filename s filename = record s { filename = filename }

-- `htons` of a `std::size_t`, as the two bytes that are written, and `ntohs` of the bytes read.
unfoldable pub size_field : ℕ → Bytes
size_field size = pack_u16 (size % u16_mod)

unfoldable pub next_sequence_number : FileStore → ℕ
next_sequence_number s = length s.offsets + 1

-- `offsets_[first - 1]`
unfoldable pub offset_of : FileStore → ℕ → ℕ
offset_of s first = elim (get_elem? s.offsets (first - 1)) [ none ↦ 0 | some off ↦ off ]

module _ (P : Posix) (fuel : ℕ) where
  unfoldable pub closed :
      FileStore → Option (P.Kernel × Called Unit) → Option (P.Kernel × FileStore × ℕ)
  closed s none = none
  closed s (some (k, failed e)) = some (k, record s { fd = none }, e)
  closed s (some (k, returned a)) = some (k, record s { fd = none }, 0)

  unfoldable pub close : P.Kernel → FileStore → Option (P.Kernel × FileStore × ℕ)
  close k s = elim s.fd [
    | none ↦ some (k, s, 0)
    | some fd ↦ closed s (Transfer.close P fuel k s.fd)
  ]

  -- `set_offsets` after a size has been read, and after the bytes of a message have been skipped.
  unfoldable pub skipped :
      FileStore
      → (P.Kernel → FileStore → ℕ → Option (P.Kernel × FileStore × ℕ))
      → P.Kernel × Called ℕ
      → Option (P.Kernel × FileStore × ℕ)
  skipped s more (k, failed e) = some (k, s, e)
  skipped s more (k, returned off) = more k s off

  unfoldable pub sized :
      FileStore
      → ℕ
      → (P.Kernel → FileStore → ℕ → Option (P.Kernel × FileStore × ℕ))
      → Option (P.Kernel × ReadResult)
      → Option (P.Kernel × FileStore × ℕ)
  sized s off more none = none
  sized s off more (some (k, res)) = elim res.status [
    | ReadStatus.failure ↦ some (k, s, res.errno)
    | ReadStatus.end_of_file ↦ some (k, s, 0)
    | ReadStatus.success ↦
        skipped (record s { offsets = s.offsets ++ off ∷ [] }) more
          (P.lseek k s.fd (unpack_u16 res.buffer) seek_cur)
  ]

  -- The loop of `set_offsets` at the offset `off`.
  unfoldable pub set_offsets_from : ℕ → P.Kernel → FileStore → ℕ → Option (P.Kernel × FileStore × ℕ)
  set_offsets_from zero k s off = none
  set_offsets_from (suc rounds) k s off =
      sized s off (λ k' s' off'. set_offsets_from rounds k' s' off') (Transfer.read P fuel k s.fd 2)

  unfoldable pub set_offsets : P.Kernel → FileStore → Option (P.Kernel × FileStore × ℕ)
  set_offsets k s = set_offsets_from fuel k s 0

  -- `open` after its second call of `::open`.
  unfoldable pub opened :
      FileStore → Option (P.Kernel × Called Descriptor) → Option (P.Kernel × FileStore × ℕ)
  opened s none = none
  opened s (some (k, failed e)) = some (k, record s { fd = none }, e)
  opened s (some (k, returned fd)) = some (k, record s { fd = fd }, 0)

  unfoldable pub open_writable : P.Kernel → FileStore → Option (P.Kernel × FileStore × ℕ)
  open_writable k s = opened s (Transfer.open_path P fuel k s.filename rdwr_creat)

  -- `open` after `close`, whose own error code is dropped; `ec` is that of `set_offsets`.
  unfoldable pub reopened :
      ℕ → Option (P.Kernel × FileStore × ℕ) → Option (P.Kernel × FileStore × ℕ)
  reopened ec none = none
  reopened zero (some (k, s, ignored)) = open_writable k s
  reopened (suc e) (some (k, s, ignored)) = some (k, s, suc e)

  unfoldable pub scanned : Option (P.Kernel × FileStore × ℕ) → Option (P.Kernel × FileStore × ℕ)
  scanned none = none
  scanned (some (k, s, ec)) = reopened ec (close k s)

  unfoldable pub opened_readable :
      FileStore → Option (P.Kernel × Called Descriptor) → Option (P.Kernel × FileStore × ℕ)
  opened_readable s none = none
  opened_readable s (some (k, failed e)) = open_writable k (record s { fd = none })
  opened_readable s (some (k, returned fd)) = scanned (set_offsets k (record s { fd = fd }))

  unfoldable pub open_store : P.Kernel → FileStore → Option (P.Kernel × FileStore × ℕ)
  open_store k s = opened_readable s (Transfer.open_path P fuel k s.filename rdonly)

  -- `add` after the bytes of the message, and after its size.
  unfoldable pub added :
      FileStore → Option (P.Kernel × WriteResult) → Option (P.Kernel × FileStore × ℕ)
  added s none = none
  added s (some (k, res)) = elim res.status [
    | WriteStatus.failure ↦ some (k, s, res.errno)
    | WriteStatus.success ↦ some (k, s, 0)
  ]

  unfoldable pub size_written :
      FileStore → Bytes → Option (P.Kernel × WriteResult) → Option (P.Kernel × FileStore × ℕ)
  size_written s text none = none
  size_written s text (some (k, res)) = elim res.status [
    | WriteStatus.failure ↦ some (k, s, res.errno)
    | WriteStatus.success ↦ added s (Transfer.write P fuel k s.fd text)
  ]

  unfoldable pub add_at :
      FileStore → Bytes → P.Kernel × Called ℕ → Option (P.Kernel × FileStore × ℕ)
  add_at s text (k, failed e) = some (k, s, e)
  add_at s text (k, returned off) =
      let s' : FileStore = record s { offsets = s.offsets ++ off ∷ [] } in
      size_written s' text (Transfer.write P fuel k s.fd (size_field (length text)))

  -- `add` of `size` bytes at `data`, and of the bytes from `begin` to `end`, which calls it.
  unfoldable pub add : P.Kernel → FileStore → Bytes → Option (P.Kernel × FileStore × ℕ)
  add k s text = add_at s text (P.lseek k s.fd 0 seek_end)

  -- `get` of one message: the message and the error code.
  unfoldable pub got : Option (P.Kernel × ReadResult) → Option (P.Kernel × Bytes × ℕ)
  got none = none
  got (some (k, res)) = elim res.status [
    | ReadStatus.failure ↦ some (k, res.buffer, res.errno)
    | ReadStatus.end_of_file ↦ some (k, res.buffer, P.eio)
    | ReadStatus.success ↦ some (k, res.buffer, 0)
  ]

  unfoldable pub got_size :
      FileStore → Option (P.Kernel × ReadResult) → Option (P.Kernel × Bytes × ℕ)
  got_size s none = none
  got_size s (some (k, res)) = elim res.status [
    | ReadStatus.failure ↦ some (k, [], res.errno)
    | ReadStatus.end_of_file ↦ some (k, [], P.eio)
    | ReadStatus.success ↦ got (Transfer.read P fuel k s.fd (unpack_u16 res.buffer))
  ]

  unfoldable pub get_message : P.Kernel → FileStore → Option (P.Kernel × Bytes × ℕ)
  get_message k s = got_size s (Transfer.read P fuel k s.fd 2)

  unfoldable pub pushed :
      List Bytes
      → (P.Kernel → List Bytes → Option (P.Kernel × List Bytes × ℕ))
      → Option (P.Kernel × Bytes × ℕ)
      → Option (P.Kernel × List Bytes × ℕ)
  pushed messages more none = none
  pushed messages more (some (k, message, zero)) = more k (messages ++ message ∷ [])
  pushed messages more (some (k, message, suc e)) = some (k, messages, suc e)

  -- The loop of `get` over `count` messages.
  unfoldable pub get_messages :
      ℕ → P.Kernel → FileStore → List Bytes → Option (P.Kernel × List Bytes × ℕ)
  get_messages zero k s messages = some (k, messages, 0)
  get_messages (suc count) k s messages =
      pushed messages (λ k' messages'. get_messages count k' s messages') (get_message k s)

  unfoldable pub get_from :
      FileStore → ℕ → List Bytes → P.Kernel × Called ℕ → Option (P.Kernel × List Bytes × ℕ)
  get_from s count messages (k, failed e) = some (k, messages, e)
  get_from s count messages (k, returned off) = get_messages count k s messages

  -- `get` of the messages from `first` to `last`, behind those that are in the vector.
  unfoldable pub get :
      P.Kernel → FileStore → ℕ → ℕ → List Bytes → Option (P.Kernel × List Bytes × ℕ)
  get k s first last messages =
      if ltb first 1 || ltb (length s.offsets) first
      then some (k, messages, P.einval)
      else if ltb last first || ltb (length s.offsets) last
      then some (k, messages, P.einval)
      else get_from s (last + 1 - first) messages (P.lseek k s.fd (offset_of s first) seek_set)

  unfoldable pub synced : P.Kernel × Called Unit → P.Kernel × ℕ
  synced (k, failed e) = (k, e)
  synced (k, returned a) = (k, 0)

  unfoldable pub sync : P.Kernel → FileStore → P.Kernel × ℕ
  sync k s = synced (P.fsync k s.fd)

  -- `add(begin, end)`, for two addresses in a block of bytes.
  unfoldable pub add_range :
      P.Kernel → FileStore → Bytes → ℕ → ℕ → Option (P.Kernel × FileStore × ℕ)
  add_range k s block begin end = add k s (take (end - begin) (drop begin block))

  -- The destructor, which drops the error code of `close`.
  unfoldable pub destroyed : Option (P.Kernel × FileStore × ℕ) → Option P.Kernel
  destroyed none = none
  destroyed (some (k, s, ec)) = some k

  unfoldable pub destroy : P.Kernel → FileStore → Option P.Kernel
  destroy k s = destroyed (close k s)

  -- The move constructor: the new store and the old one, where `rest` is what the library leaves of the
  -- name and of the offsets.
  unfoldable pub move_store : FileStore → FileStore → FileStore × FileStore
  move_store other rest = (other, record rest { fd = none })

  -- The assignment of a store that is moved: what the target has open is closed first.
  unfoldable pub assign :
      P.Kernel → FileStore → FileStore → FileStore → Option (P.Kernel × FileStore × FileStore)
  assign k s other rest = elim (destroy k s) [
    | none ↦ none
    | some k' ↦ some (k', (move_store other rest).0, (move_store other rest).1)
  ]
