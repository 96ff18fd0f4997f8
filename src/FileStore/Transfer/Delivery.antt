-- ===== src/FileStore/Transfer/Delivery.antt =====
-- What `read` of src/file_store.cpp gives where the bytes that are asked for are there.
use soupbintcp.Common.{
  ℕ, ◌<◌, ◌≤◌, ◌≡◌, sym, Option, some, ◌++◌, append-cancel, length-append, Bytes, length, arith,
}
use soupbintcp.FileStore.Posix.{Called}
use soupbintcp.FileStore.Transfer
use soupbintcp.FileStore.Transfer.Completion.{Fails}
use soupbintcp.FileStore.Transfer.{ReadResult}
use soupbintcp.FileStore.Transfer.Reading.{ReadEnds, read_broken, read_short, read_full}

-- A read for which all its bytes are there.
pub data Delivered {K : Type 0} (eintr : ℕ) (call : K → ℕ → K × Called Bytes) (left : K → ℕ)
    (before : ℕ) (At : K → Bytes → Bytes → Type 0) (base wanted rest : Bytes)
    : Option (K × ReadResult) → Type 0 where
  delivered_part :
      (k : K) (e n : ℕ) (bytes more : Bytes)
      → 0 < e
      → left k ≤ before
      → wanted ++ rest ≡ bytes ++ more
      → At k (base ++ bytes) more
      → Fails eintr (λ k'. call k' n) k e
      → Delivered eintr call left before At base wanted rest (
          some (
            k,
            record {
              status = Transfer.ReadStatus.failure;
              nbyte = length bytes;
              buffer = bytes;
              errno = e;
            },
          ))
  delivered_all :
      (k : K)
      → left k ≤ before
      → At k (base ++ wanted) rest
      → Delivered eintr call left before At base wanted rest (
          some (
            k,
            record {
              status = Transfer.ReadStatus.success;
              nbyte = length wanted;
              buffer = wanted;
              errno = 0;
            },
          ))

pub ReadEnds-Delivered :
    {K : Type 0} (eintr : ℕ) (call : K → ℕ → K × Called Bytes) (left : K → ℕ) (before : ℕ)
    (At : K → Bytes → Bytes → Type 0) (base wanted rest : Bytes) (out : Option (K × ReadResult))
    → ReadEnds eintr call left before At base (wanted ++ rest) (length wanted) out
    → Delivered eintr call left before At base wanted rest out
ReadEnds-Delivered eintr call left before At base wanted rest out
      (read_broken k e n bytes more pos le cut stands size fails) =
    delivered_part k e n bytes more pos le cut stands fails
ReadEnds-Delivered eintr call left before At base wanted rest out (read_short k le short stands) =
    absurd (omega (arith, length-append wanted rest))
ReadEnds-Delivered eintr call left before At base wanted rest out
      (read_full k bytes more le cut size stands) =
    let (same, behind) = append-cancel bytes more wanted rest size (sym cut) in
    rw same (delivered_all k le (rw (same, behind) at stands))
