-- ===== src/FileStore/Transfer/Calls.antt =====
-- `open`, `close`, `read` and `write` of src/file_store.cpp over system calls that are lawful.
use soupbintcp.Common.{ℕ, ◌<◌, ◌≤◌, ◌≢◌, none, [], Bytes, length, arith}
use soupbintcp.FileStore.Posix.{Posix, Descriptor, Oflag}
use soupbintcp.FileStore.Posix.Lawful.{IsLawful}
use soupbintcp.FileStore.Transfer
use soupbintcp.FileStore.Transfer.Completion.{Ends, while_interrupted-Ends}
use soupbintcp.FileStore.Transfer.Reading.{ReadEnds, read_partial_handling-Ends}
use soupbintcp.FileStore.Transfer.Writing.{WriteEnds, write_partial_handling-Ends}

module _ (P : Posix) (L : IsLawful P) (fuel before : ℕ) (enough : before < fuel) where
  pub open_path-Ends :
      (k : P.Kernel) (name text : Bytes) (flag : Oflag)
      → L.Holds k name text
      → L.left k ≤ before
      → Ends P.eintr
          (λ k'. P.open_path k' name flag)
          L.left
          before
          (λ k'. L.Holds k' name text)
          (λ k' fd. (fd ≢ none) × L.IsAt k' fd name [] text)
          (Transfer.open_path P fuel k name flag)
  unfolding Transfer.open_path
  open_path-Ends k name text flag h le =
      while_interrupted-Ends P.eintr (λ k'. P.open_path k' name flag) L.left
        (λ k'. L.Holds k' name text) (λ k' fd. (fd ≢ none) × L.IsAt k' fd name [] text) fuel before
        k (λ k' h'. L.on_open k' name text flag h') (omega arith) le h

  pub close-Ends :
      (k : P.Kernel) (fd : Descriptor) (name text : Bytes)
      → L.Holds k name text
      → L.left k ≤ before
      → Ends P.eintr
          (λ k'. P.close k' fd)
          L.left
          before
          (λ k'. L.Holds k' name text)
          (λ k' a. L.Holds k' name text)
          (Transfer.close P fuel k fd)
  unfolding Transfer.close
  close-Ends k fd name text h le =
      while_interrupted-Ends P.eintr (λ k'. P.close k' fd) L.left (λ k'. L.Holds k' name text)
        (λ k' a. L.Holds k' name text) fuel before k (λ k' h'. L.on_close k' fd name text h')
        (omega arith) le h

  -- Over lawful system calls, and with fuel for more rounds than the buffer has bytes and than
  -- signals are left, `read` comes to an end, however its calls split the bytes up and signals
  -- interrupt them: the buffer is filled with the next bytes of the file; or the file ends
  -- before, and the buffer has what was left; or the call for the rest of the buffer has failed,
  -- other than by a signal, with the error that is returned, and the buffer has the bytes before;
  -- the offset is behind the bytes that the buffer has.
  pub read-Ends :
      (k : P.Kernel) (fd : Descriptor) (name base after : Bytes) (size : ℕ)
      → L.IsAt k fd name base after
      → size < fuel
      → L.left k ≤ before
      → ReadEnds P.eintr
          (λ k' n. P.read k' fd n)
          L.left
          before
          (λ k' b a. L.IsAt k' fd name b a)
          base
          after
          size
          (Transfer.read P fuel k fd size)
  unfolding Transfer.read
  read-Ends k fd name base after size stays fits le =
      read_partial_handling-Ends P.eintr (λ k' n. P.read k' fd n) L.left before
        (λ k' b a. L.IsAt k' fd name b a)
        (λ k' n. Transfer.while_interrupted fuel P.eintr (λ k''. P.read k'' fd n) k')
        (λ k' b a n some_size le' stays'.
          while_interrupted-Ends P.eintr (λ k''. P.read k'' fd n) L.left
            (λ k''. L.IsAt k'' fd name b a) _ fuel before k'
            (λ k'' at'. L.on_read k'' fd name b a n at' some_size) (omega arith) le' stays')
        fuel base after size k fits le stays

  -- Over lawful system calls, and with fuel for more rounds than there are bytes and than signals
  -- are left, `write` at the end of a file comes to an end, however its calls split the bytes up
  -- and signals interrupt them: all bytes are written, or the call for the rest of the bytes has
  -- failed, other than by a signal, with the error that is returned, and the bytes before are
  -- written.
  pub write-Ends :
      (k : P.Kernel) (fd : Descriptor) (name base text : Bytes)
      → L.IsAt k fd name base []
      → length text < fuel
      → L.left k ≤ before
      → WriteEnds P.eintr
          (λ k' rest. P.write k' fd rest)
          L.left
          before
          (λ k' b. L.IsAt k' fd name b [])
          base
          text
          (Transfer.write P fuel k fd text)
  unfolding Transfer.write
  write-Ends k fd name base text stays fits le =
      write_partial_handling-Ends P.eintr (λ k' rest. P.write k' fd rest) L.left before
        (λ k' b. L.IsAt k' fd name b [])
        (λ k' rest. Transfer.while_interrupted fuel P.eintr (λ k''. P.write k'' fd rest) k')
        (λ k' b rest some_text le' stays'.
          while_interrupted-Ends P.eintr (λ k''. P.write k'' fd rest) L.left
            (λ k''. L.IsAt k'' fd name b []) _ fuel before k'
            (λ k'' at'. L.on_write k'' fd name b rest at' some_text) (omega arith) le' stays')
        fuel base text k fits le stays
