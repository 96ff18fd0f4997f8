-- ===== src/FileStore/Transfer/Writing.antt =====
-- The loop of `write_partial_handling` comes to an end, and what it leaves.
use soupbintcp.Common.{
  ℕ, zero, suc, ◌+◌, ◌<◌, ◌≤◌, ◌≡◌, refl, ap, Option, some, [], ◌∷◌, ◌++◌, append_assoc, append-nil,
  Bytes, length, length-append, drop, drop-append, arith,
}
use soupbintcp.FileStore.Posix.{Called}
use soupbintcp.FileStore.Transfer.{WriteStatus, WriteResult, after_write, write_partial_handling}
use soupbintcp.FileStore.Transfer.Completion.{Fails, Ends, ends_refused, ends_granted}

module _ {K : Type 0} (eintr : ℕ) (call : K → Bytes → K × Called ℕ) (left : K → ℕ) (before : ℕ)
    (At : K → Bytes → Type 0) where
  -- All bytes are written behind `base`, or some of them and the call for the rest has failed.
  pub data WriteEnds (base text : Bytes) : Option (K × WriteResult) → Type 0 where
    broken :
        (k : K) (e : ℕ) (sent rest : Bytes)
        → 0 < e
        → left k ≤ before
        → text ≡ sent ++ rest
        → At k (base ++ sent)
        → Fails eintr (λ k'. call k' rest) k e
        → WriteEnds base text
            (some (k, record { status = WriteStatus.failure; nbyte = length sent; errno = e }))
    written :
        (k : K)
        → left k ≤ before
        → At k (base ++ text)
        → WriteEnds base text
            (some (k, record { status = WriteStatus.success; nbyte = length text; errno = 0 }))

  abbrev Advances : Bytes → Bytes → K → ℕ → Type 0
  Advances base text k n =
      (sent : Bytes) × (rest : Bytes) × (text ≡ sent ++ rest)
      × (n ≡ length sent)
      × (0 < n)
      × At k (base ++ sent)

  module _ (write : K → Bytes → Option (K × Called ℕ))
      (law : (k : K) (base text : Bytes)
        → 0 < length text
        → left k ≤ before
        → At k base
        → Ends eintr
            (λ k'. call k' text)
            left
            before
            (λ k'. At k' base)
            (Advances base text)
            (write k text)) where
    after_write-Ends :
        (base sent text : Bytes) (more : K → ℕ → Option (K × WriteResult))
        (out : Option (K × Called ℕ))
        → ((k : K) (new rest : Bytes)
            → text ≡ new ++ rest
            → 0 < length new
            → left k ≤ before
            → At k ((base ++ sent) ++ new)
            → WriteEnds base (sent ++ text) (more k (length new)))
        → Ends eintr
            (λ k'. call k' text)
            left
            before
            (λ k'. At k' (base ++ sent))
            (Advances (base ++ sent) text)
            out
        → WriteEnds base (sent ++ text) (after_write (length sent) more out)
    unfolding after_write
    after_write-Ends base sent text more out h (ends_refused k e pos le stays fails) =
        broken k e sent text pos le refl stays fails
    after_write-Ends base sent text more out h
          (ends_granted k n le (new, rest, cut, count, some_new, goes)) =
        rw (count, after_write) (h k new rest cut (omega (arith, count)) le goes)

    write_loop-Ends :
        (fuel : ℕ) (base sent text : Bytes) (k : K)
        → length text < fuel
        → left k ≤ before
        → At k (base ++ sent)
        → WriteEnds base (sent ++ text) (write_partial_handling fuel write text (length sent) k)
    unfolding write_partial_handling
    write_loop-Ends zero base sent text k enough le stays = absurd (omega arith)
    write_loop-Ends (suc fuel) base sent [] k enough le stays =
        rw (append-nil sent) (written k le stays)
    write_loop-Ends (suc fuel) base sent (c ∷ text) k enough le stays =
        after_write-Ends base sent (c ∷ text)
          (λ k' n. write_partial_handling fuel write (drop n (c ∷ text)) (length sent + n) k')
          (write k (c ∷ text))
          (λ k' new rest cut some_new le' goes.
            rw
              (
                cut,
                drop-append (length new) new rest refl,
                ← length-append sent new,
                ← append_assoc sent new rest,
              )
              (write_loop-Ends fuel base (sent ++ new) rest k'
                (omega (arith, ap length cut, length-append new rest)) le'
                (rw (← append_assoc base sent new) goes)))
          (law k (base ++ sent) (c ∷ text) (omega arith) le stays)

    -- A write of any length ends, however the calls split it up.
    pub write_partial_handling-Ends :
        (fuel : ℕ) (base text : Bytes) (k : K)
        → length text < fuel
        → left k ≤ before
        → At k base
        → WriteEnds base text (write_partial_handling fuel write text 0 k)
    write_partial_handling-Ends fuel base text k enough le stays =
        write_loop-Ends fuel base [] text k enough le (rw (append-nil base) stays)
