-- ===== src/FileStore/Transfer.antt =====
-- `while_interrupted`, `open`, `close`, `read` and `write` of src/file_store.cpp, and
-- `read_partial_handling` and `write_partial_handling` of include/bc/soup/file_store.h. A loop runs on
-- fuel, and is `none` where the fuel is used up.
pub mod Calls
pub mod Completion
pub mod Delivery
pub mod Reading
pub mod Writing
use soupbintcp.Common.{
  ℕ, zero, suc, ◌+◌, ◌-◌, ◌==◌, true, false, Option, none, some, List, [], ◌∷◌, ◌++◌, Bytes, length,
  drop,
}
use soupbintcp.FileStore.Posix.{Posix, Called, failed, returned, Descriptor, Oflag}

pub data ReadStatus : Type 0 where
  success : ReadStatus
  end_of_file : ReadStatus
  failure : ReadStatus

pub data WriteStatus : Type 0 where
  success : WriteStatus
  failure : WriteStatus

-- `Rw_result`, with the bytes that the buffer has got and with `errno`.
pub record ReadResult : Type 0 where
  pub status : ReadStatus
  pub nbyte : ℕ
  pub buffer : Bytes
  pub errno : ℕ

pub record WriteResult : Type 0 where
  pub status : WriteStatus
  pub nbyte : ℕ
  pub errno : ℕ

module _ {K A : Type 0} where
  -- What follows a call: again, where a signal has interrupted it.
  unfoldable pub retry : ℕ → (K → Option (K × Called A)) → K × Called A → Option (K × Called A)
  retry eintr again (k, failed e) = elim (e == eintr) [
    | true ↦ again k
    | false ↦ some (k, failed e)
  ]
  retry eintr again (k, returned a) = some (k, returned a)

  unfoldable pub while_interrupted : ℕ → ℕ → (K → K × Called A) → K → Option (K × Called A)
  while_interrupted zero eintr call k = none
  while_interrupted (suc fuel) eintr call k =
      retry eintr (λ k'. while_interrupted fuel eintr call k') (call k)

module _ {K : Type 0} where
  -- What follows a `read` after `got`: the rest of the buffer, or the result.
  unfoldable pub after_read :
      Bytes
      → (K → Bytes → Option (K × ReadResult))
      → Option (K × Called Bytes)
      → Option (K × ReadResult)
  after_read got more none = none
  after_read got more (some (k, failed e)) =
      some (k, record { status = ReadStatus.failure; nbyte = length got; buffer = got; errno = e })
  after_read got more (some (k, returned [])) =
      some
        (k, record { status = ReadStatus.end_of_file; nbyte = length got; buffer = got; errno = 0 })
  after_read got more (some (k, returned (c ∷ bytes))) = more k (c ∷ bytes)

  -- The loop of `read_partial_handling`, with `size` bytes of the buffer to fill after `got`.
  unfoldable pub read_partial_handling :
      ℕ → (K → ℕ → Option (K × Called Bytes)) → ℕ → Bytes → K → Option (K × ReadResult)
  read_partial_handling zero read size got k = none
  read_partial_handling (suc fuel) read zero got k =
      some (k, record { status = ReadStatus.success; nbyte = length got; buffer = got; errno = 0 })
  read_partial_handling (suc fuel) read (suc size) got k =
      after_read got
        (λ k' bytes. read_partial_handling fuel read (suc size - length bytes) (got ++ bytes) k')
        (read k (suc size))

  unfoldable pub after_write :
      ℕ → (K → ℕ → Option (K × WriteResult)) → Option (K × Called ℕ) → Option (K × WriteResult)
  after_write done more none = none
  after_write done more (some (k, failed e)) =
      some (k, record { status = WriteStatus.failure; nbyte = done; errno = e })
  after_write done more (some (k, returned n)) = more k n

  -- The loop of `write_partial_handling`, with `text` to write after `done` bytes.
  unfoldable pub write_partial_handling :
      ℕ → (K → Bytes → Option (K × Called ℕ)) → Bytes → ℕ → K → Option (K × WriteResult)
  write_partial_handling zero write text done k = none
  write_partial_handling (suc fuel) write [] done k =
      some (k, record { status = WriteStatus.success; nbyte = done; errno = 0 })
  write_partial_handling (suc fuel) write (c ∷ text) done k =
      after_write done (λ k' n. write_partial_handling fuel write (drop n (c ∷ text)) (done + n) k')
        (write k (c ∷ text))

module _ (P : Posix) (fuel : ℕ) where
  unfoldable pub open_path : P.Kernel → Bytes → Oflag → Option (P.Kernel × Called Descriptor)
  open_path k path oflag = while_interrupted fuel P.eintr (λ k'. P.open_path k' path oflag) k

  unfoldable pub close : P.Kernel → Descriptor → Option (P.Kernel × Called Unit)
  close k fd = while_interrupted fuel P.eintr (λ k'. P.close k' fd) k

  unfoldable pub read : P.Kernel → Descriptor → ℕ → Option (P.Kernel × ReadResult)
  read k fd nbyte =
      read_partial_handling fuel
        (λ k' n. while_interrupted fuel P.eintr (λ k''. P.read k'' fd n) k') nbyte [] k

  unfoldable pub write : P.Kernel → Descriptor → Bytes → Option (P.Kernel × WriteResult)
  write k fd text =
      write_partial_handling fuel
        (λ k' rest. while_interrupted fuel P.eintr (λ k''. P.write k'' fd rest) k') text 0 k
