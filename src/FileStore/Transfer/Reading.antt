-- ===== src/FileStore/Transfer/Reading.antt =====
-- The loop of `read_partial_handling` comes to an end, and what it leaves.
use soupbintcp.Common.{
  ℕ, zero, suc, ◌+◌, ◌-◌, ◌<◌, ◌≤◌, ◌≡◌, refl, ◌∙◌, Option, some, [], ◌∷◌, ◌++◌, append_assoc,
  append-nil, Bytes, length, length-append, arith,
}
use soupbintcp.FileStore.Posix.{Called}
use soupbintcp.FileStore.Transfer.{ReadStatus, ReadResult, after_read, read_partial_handling}
use soupbintcp.FileStore.Transfer.Completion.{Fails, Ends, ends_refused, ends_granted}

module _ {K : Type 0} (eintr : ℕ) (call : K → ℕ → K × Called Bytes) (left : K → ℕ) (before : ℕ)
    (At : K → Bytes → Bytes → Type 0) where
  -- Of the bytes `after`, which follow `base`, the buffer of `size` bytes gets all it can take, or too few at the
  -- end of the file, or some of them and the call for the rest has failed.
  pub data ReadEnds (base after : Bytes) (size : ℕ) : Option (K × ReadResult) → Type 0 where
    read_broken :
        (k : K) (e n : ℕ) (bytes rest : Bytes)
        → 0 < e
        → left k ≤ before
        → after ≡ bytes ++ rest
        → At k (base ++ bytes) rest
        → length bytes + n ≡ size
        → Fails eintr (λ k'. call k' n) k e
        → ReadEnds base after size (
            some (
              k,
              record {
                status = ReadStatus.failure;
                nbyte = length bytes;
                buffer = bytes;
                errno = e;
              },
            ))
    read_short :
        (k : K)
        → left k ≤ before
        → length after < size
        → At k (base ++ after) []
        → ReadEnds base after size (
            some (
              k,
              record {
                status = ReadStatus.end_of_file;
                nbyte = length after;
                buffer = after;
                errno = 0;
              },
            ))
    read_full :
        (k : K) (bytes rest : Bytes)
        → left k ≤ before
        → after ≡ bytes ++ rest
        → length bytes ≡ size
        → At k (base ++ bytes) rest
        → ReadEnds base after size (
            some (
              k,
              record {
                status = ReadStatus.success;
                nbyte = length bytes;
                buffer = bytes;
                errno = 0;
              },
            ))

  abbrev Delivers : Bytes → Bytes → ℕ → K → Bytes → Type 0
  Delivers base after n k bytes =
      (rest : Bytes) × (after ≡ bytes ++ rest)
      × (length bytes ≤ n)
      × (bytes ≡ [] → rest ≡ [])
      × At k (base ++ bytes) rest

  module _ (read : K → ℕ → Option (K × Called Bytes))
      (law : (k : K) (base after : Bytes) (n : ℕ)
        → 0 < n
        → left k ≤ before
        → At k base after
        → Ends eintr
            (λ k'. call k' n)
            left
            before
            (λ k'. At k' base after)
            (Delivers base after n)
            (read k n)) where
    after_read-Ends :
        (base got after : Bytes) (size total : ℕ) (more : K → Bytes → Option (K × ReadResult))
        (out : Option (K × Called Bytes))
        → length got + size ≡ total
        → 0 < size
        → ((k : K) (new rest : Bytes)
            → after ≡ new ++ rest
            → 0 < length new
            → length new ≤ size
            → left k ≤ before
            → At k ((base ++ got) ++ new) rest
            → ReadEnds base (got ++ after) total (more k new))
        → Ends eintr
            (λ k'. call k' size)
            left
            before
            (λ k'. At k' (base ++ got) after)
            (Delivers (base ++ got) after size)
            out
        → ReadEnds base (got ++ after) total (after_read got more out)
    unfolding after_read
    after_read-Ends base got after size total more out sum some_size h
          (ends_refused k e pos le stays fails) =
        read_broken k e size got after pos le refl stays sum fails
    after_read-Ends base got after size total more out sum some_size h
          (ends_granted k [] le (rest, cut, few, none_left, goes)) =
        let over : after ≡ [] = cut ∙ none_left refl in
        rw (over, append-nil got)
          (read_short k le (omega (arith, sum))
            (rw (none_left refl, append-nil (base ++ got)) at goes))
    after_read-Ends base got after size total more out sum some_size h
          (ends_granted k (c ∷ new) le (rest, cut, few, none_left, goes)) =
        h k (c ∷ new) rest cut (omega arith) few le goes

    read_loop-Ends :
        (fuel : ℕ) (base got after : Bytes) (size total : ℕ) (k : K)
        → size < fuel
        → length got + size ≡ total
        → left k ≤ before
        → At k (base ++ got) after
        → ReadEnds base (got ++ after) total (read_partial_handling fuel read size got k)
    unfolding read_partial_handling
    read_loop-Ends zero base got after size total k enough sum le stays = absurd (omega arith)
    read_loop-Ends (suc fuel) base got after zero total k enough sum le stays =
        read_full k got after le refl (omega (arith, sum)) stays
    read_loop-Ends (suc fuel) base got after (suc size) total k enough sum le stays =
        after_read-Ends base got after (suc size) total
          (λ k' bytes. read_partial_handling fuel read (suc size - length bytes) (got ++ bytes) k')
          (read k (suc size)) sum (omega arith)
          (λ k' new rest cut some_new fits le' goes.
            rw (cut, ← append_assoc got new rest)
              (read_loop-Ends fuel base (got ++ new) rest (suc size - length new) total k'
                (omega arith) (omega (arith, sum, length-append got new)) le'
                (rw (← append_assoc base got new) goes)))
          (law k (base ++ got) after (suc size) (omega arith) le stays)

    -- A read of any length ends, however the calls split it up.
    pub read_partial_handling-Ends :
        (fuel : ℕ) (base after : Bytes) (size : ℕ) (k : K)
        → size < fuel
        → left k ≤ before
        → At k base after
        → ReadEnds base after size (read_partial_handling fuel read size [] k)
    read_partial_handling-Ends fuel base after size k enough le stays =
        read_loop-Ends fuel base [] after size size k enough (omega arith) le
          (rw (append-nil base) stays)
