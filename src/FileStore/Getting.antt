-- ===== src/FileStore/Getting.antt =====
-- What `get` of src/file_store.cpp reads from the log of messages.
pub mod Range
use soupbintcp.Common.{
  ℕ, suc, ◌+◌, ◌-◌, ◌<◌, ◌≤◌, ◌≡◌, Option, some, List, ◌++◌, append-cancel, Bytes,
}
use soupbintcp.FileStore.Posix.{Posix, Called, failed, seek_set}
use soupbintcp.FileStore.Posix.Lawful.{IsLawful, Answers, refused, granted}
use soupbintcp.FileStore.Transfer
use soupbintcp.FileStore.Transfer.Completion.{Fails}
use soupbintcp.FileStore.Store.{FileStore, get_from, get, offset_of}
use soupbintcp.FileStore.Log.{frame, frames-append, offsets-append}
use soupbintcp.FileStore.Adding.{Stores}

module _ (P : Posix) (L : IsLawful P) (s : FileStore) where
  -- A call of `lseek` or of `read` for the store has failed.
  pub data CallFails (k : P.Kernel) (e : ℕ) : Type 0 where
    seek_fails :
        (asked : P.Kernel) (off : ℕ)
        → P.lseek asked s.fd off seek_set ≡ (k, failed e)
        → CallFails k e
    read_fails : (n : ℕ) → Fails P.eintr (λ k'. P.read k' s.fd n) k e → CallFails k e

  -- What `get` of one message gives, where `text` is the message at the offset.
  pub data GetsMessage (base text rest : Bytes) (before : ℕ)
      : Option (P.Kernel × Bytes × ℕ) → Type 0 where
    gets_message :
        (k : P.Kernel)
        → L.left k ≤ before
        → L.IsAt k s.fd s.filename (base ++ frame text) rest
        → GetsMessage base text rest before (some (k, text, 0))
    gets_error :
        (k : P.Kernel) (message b a : Bytes) (e : ℕ)
        → b ++ a ≡ base ++ (frame text ++ rest)
        → L.IsAt k s.fd s.filename b a
        → CallFails k (suc e)
        → GetsMessage base text rest before (some (k, message, suc e))

  -- What `get` gives: all messages that are asked for, or those before one for which a call has failed.
  pub data Gets (texts wanted messages : List Bytes)
      : Option (P.Kernel × List Bytes × ℕ) → Type 0 where
    gets_all :
        (k : P.Kernel)
        → Stores P L k s texts
        → Gets texts wanted messages (some (k, messages ++ wanted, 0))
    gets_part :
        (k : P.Kernel) (part rest : List Bytes) (e : ℕ)
        → wanted ≡ part ++ rest
        → 0 < e
        → CallFails k e
        → Stores P L k s texts
        → Gets texts wanted messages (some (k, messages ++ part, e))

  module _ (fuel before : ℕ) (enough : before < fuel) where
    abbrev At : P.Kernel → Bytes → Bytes → Type 0
    At k b a = L.IsAt k s.fd s.filename b a
