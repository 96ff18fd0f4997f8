-- ===== src/FileStore/Posix/Lawful.antt =====
-- What the documentation of the system calls says.
use soupbintcp.Common.{ℕ, ◌<◌, ◌≤◌, ◌≡◌, ◌≢◌, none, [], ◌++◌, Bytes, length}
use soupbintcp.FileStore.Posix.{
  Posix, Called, failed, returned, Descriptor, Oflag, seek_set, seek_cur, seek_end,
}

-- What a call does whose failure leaves the state in `Stays`, and whose success leaves it in `Goes`: `left`
-- bounds the signals that can still interrupt a call, and `before` is the bound before the call.
pub data Answers {K A : Type 0} (eintr : ℕ) (left : K → ℕ) (before : ℕ) (Stays : K → Type 0)
    (Goes : K → A → Type 0) : K × Called A → Type 0 where
  refused :
      (k : K) (e : ℕ)
      → 0 < e
      → left k ≤ before
      → (e ≡ eintr → left k < before)
      → Stays k
      → Answers eintr left before Stays Goes (k, failed e)
  granted :
      (k : K) (a : A)
      → left k ≤ before
      → Goes k a
      → Answers eintr left before Stays Goes (k, returned a)

-- The documented behaviour of the calls on regular files. `Holds k name text`: the bytes of the file are
-- `text`, which is empty where there is no file. `IsAt k fd name before after`: `fd` is open on the
-- file, the bytes of which are `before ++ after`, and its offset is behind `before`.
pub record IsLawful (P : Posix) : Type 1 where
  pub left : P.Kernel → ℕ
  pub Holds : P.Kernel → Bytes → Bytes → Type 0
  pub IsAt : P.Kernel → Descriptor → Bytes → Bytes → Bytes → Type 0
  pub einval_positive : 0 < P.einval
  pub eio_positive : 0 < P.eio
  pub on_open :
      (k : P.Kernel) (name text : Bytes) (flag : Oflag)
      → Holds k name text
      → Answers P.eintr left
          (left k)
          (λ k'. Holds k' name text)
          (λ k' fd. (fd ≢ none) × IsAt k' fd name [] text)
          (P.open_path k name flag)
  pub holds :
      (k : P.Kernel) (fd : Descriptor) (name before after : Bytes)
      → IsAt k fd name before after
      → Holds k name (before ++ after)
  pub on_close :
      (k : P.Kernel) (fd : Descriptor) (name text : Bytes)
      → Holds k name text
      → Answers P.eintr left
          (left k)
          (λ k'. Holds k' name text)
          (λ k' a. Holds k' name text)
          (P.close k fd)
  pub on_read :
      (k : P.Kernel) (fd : Descriptor) (name before after : Bytes) (n : ℕ)
      → IsAt k fd name before after
      → 0 < n
      → Answers P.eintr left
          (left k)
          (λ k'. IsAt k' fd name before after)
          (λ k' bytes.
            (rest : Bytes) × (after ≡ bytes ++ rest)
            × (length bytes ≤ n)
            × (bytes ≡ [] → rest ≡ [])
            × IsAt k' fd name (before ++ bytes) rest)
          (P.read k fd n)
  pub on_write :
      (k : P.Kernel) (fd : Descriptor) (name before text : Bytes)
      → IsAt k fd name before []
      → 0 < length text
      → Answers P.eintr left
          (left k)
          (λ k'. IsAt k' fd name before [])
          (λ k' n.
            (sent : Bytes) × (rest : Bytes) × (text ≡ sent ++ rest)
            × (n ≡ length sent)
            × (0 < n)
            × IsAt k' fd name (before ++ sent) [])
          (P.write k fd text)
  pub on_end :
      (k : P.Kernel) (fd : Descriptor) (name before after : Bytes)
      → IsAt k fd name before after
      → Answers P.eintr left
          (left k)
          (λ k'. IsAt k' fd name before after)
          (λ k' off. (off ≡ length (before ++ after)) × IsAt k' fd name (before ++ after) [])
          (P.lseek k fd 0 seek_end)
  pub on_set :
      (k : P.Kernel) (fd : Descriptor) (name before after before' after' : Bytes)
      → IsAt k fd name before after
      → before ++ after ≡ before' ++ after'
      → Answers P.eintr left
          (left k)
          (λ k'. IsAt k' fd name before after)
          (λ k' off. (off ≡ length before') × IsAt k' fd name before' after')
          (P.lseek k fd (length before') seek_set)
  pub on_skip :
      (k : P.Kernel) (fd : Descriptor) (name before skipped after : Bytes)
      → IsAt k fd name before (skipped ++ after)
      → Answers P.eintr left
          (left k)
          (λ k'. IsAt k' fd name before (skipped ++ after))
          (λ k' off. (off ≡ length (before ++ skipped)) × IsAt k' fd name (before ++ skipped) after)
          (P.lseek k fd (length skipped) seek_cur)
  pub on_fsync :
      (k : P.Kernel) (fd : Descriptor) (name before after : Bytes)
      → IsAt k fd name before after
      → Answers P.eintr left
          (left k)
          (λ k'. IsAt k' fd name before after)
          (λ k' a. IsAt k' fd name before after)
          (P.fsync k fd)
