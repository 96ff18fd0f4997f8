-- ===== src/FileStore/Adding.antt =====
-- What `add` of src/file_store.cpp does to the log of messages.
use soupbintcp.Common.{
  ℕ, ◌<◌, ◌≤◌, ◌≡◌, refl, sym, ◌∙◌, Option, some, List, [], ◌∷◌, ◌++◌, append_assoc, append-nil,
  Bytes, length, arith,
}
use soupbintcp.FileStore.Posix.{Posix, Called, failed, seek_end}
use soupbintcp.FileStore.Posix.Lawful.{IsLawful, Answers, refused, granted}
use soupbintcp.FileStore.Transfer
use soupbintcp.FileStore.Transfer.Completion.{Fails}
use soupbintcp.FileStore.Transfer.{WriteResult}
use soupbintcp.FileStore.Transfer.Writing.{WriteEnds, broken, written}
use soupbintcp.FileStore.Transfer.Calls.{write-Ends}
use soupbintcp.FileStore.Store.{FileStore, add, add_at, added, size_written, size_field}
use soupbintcp.FileStore.Log.{
  frame, frames, frames-append, offsets, offsets-snoc, length-size_field,
}

module _ (P : Posix) (L : IsLawful P) where
  -- A store that is open on the file of `texts`, which it can find.
  pub record Stores (k : P.Kernel) (s : FileStore) (texts : List Bytes) : Type 0 where
    pub before : Bytes
    pub after : Bytes
    pub log : before ++ after ≡ frames texts
    pub found : s.offsets ≡ offsets 0 texts
    pub stands : L.IsAt k s.fd s.filename before after

  -- What `add` gives: the message is at the end of the log; or the call of `lseek` has failed and
  -- nothing has changed; or a call of `write` has failed behind a part of the message, which the store
  -- then counts.
  pub data Adds (start : P.Kernel) (s : FileStore) (texts : List Bytes) (text : Bytes)
      : Option (P.Kernel × FileStore × ℕ) → Type 0 where
    adds_all :
        (k : P.Kernel) (s' : FileStore)
        → Stores k s' (texts ++ text ∷ [])
        → Adds start s texts text (some (k, s', 0))
    adds_nothing :
        (k : P.Kernel) (e : ℕ)
        → 0 < e
        → P.lseek start s.fd 0 seek_end ≡ (k, failed e)
        → Stores k s texts
        → Adds start s texts text (some (k, s, e))
    adds_part :
        (k : P.Kernel) (s' : FileStore) (e : ℕ) (sent asked later : Bytes)
        → 0 < e
        → frame text ≡ sent ++ (asked ++ later)
        → s'.offsets ≡ offsets 0 (texts ++ text ∷ [])
        → L.IsAt k s'.fd s'.filename (frames texts ++ sent) []
        → Fails P.eintr (λ k'. P.write k' s.fd asked) k e
        → Adds start s texts text (some (k, s', e))

  module _ (fuel before : ℕ) (enough : before < fuel) (start : P.Kernel) (s : FileStore)
      (texts : List Bytes) (text : Bytes) where
    abbrev grown : FileStore
    grown = record s { offsets = s.offsets ++ length (frames texts) ∷ [] }

    grown-offsets : s.offsets ≡ offsets 0 texts → grown.offsets ≡ offsets 0 (texts ++ text ∷ [])
    grown-offsets found = rw found (offsets-snoc texts text)

    added-Adds :
        (out : Option (P.Kernel × WriteResult))
        → s.offsets ≡ offsets 0 texts
        → WriteEnds P.eintr
            (λ k' rest. P.write k' s.fd rest)
            L.left
            before
            (λ k b. L.IsAt k s.fd s.filename b [])
            (frames texts ++ size_field (length text))
            text
            out
        → Adds start s texts text (added P fuel grown out)
    unfolding added
    added-Adds out found (broken k e sent rest pos le cut stands fails) =
        adds_part k grown e (size_field (length text) ++ sent) rest [] pos
          (rw (cut, append_assoc, append-nil) refl) (grown-offsets found)
          (rw (append_assoc (frames texts) (size_field (length text)) sent) at stands) fails
    added-Adds out found (written k le stands) = adds_all k grown (record {
      before = frames texts ++ frame text;
      after = [];
      log = append_assoc (frames texts) (frame text) [] ∙ sym (frames-append texts (text ∷ []));
      found = grown-offsets found;
      stands = rw (append_assoc (frames texts) (size_field (length text)) text) at stands;
    })

    size_written-Adds :
        (out : Option (P.Kernel × WriteResult))
        → s.offsets ≡ offsets 0 texts
        → length text < fuel
        → WriteEnds P.eintr
            (λ k' rest. P.write k' s.fd rest)
            L.left
            before
            (λ k b. L.IsAt k s.fd s.filename b [])
            (frames texts)
            (size_field (length text))
            out
        → Adds start s texts text (size_written P fuel grown text out)
    unfolding size_written
    size_written-Adds out found fits (broken k e sent rest pos le cut stands fails) =
        adds_part k grown e sent rest text pos (rw (cut, append_assoc) refl) (grown-offsets found)
          stands fails
    size_written-Adds out found fits (written k le stands) =
        added-Adds (Transfer.write P fuel k s.fd text) found (
          write-Ends P L fuel before enough k s.fd s.filename
            (frames texts ++ size_field (length text)) text stands fits le)

    add_at-Adds :
        (now : ℕ) (out : P.Kernel × Called ℕ) (stored : Stores start s texts)
        → P.lseek start s.fd 0 seek_end ≡ out
        → now ≤ before
        → length text < fuel
        → 2 < fuel
        → Answers P.eintr L.left now
            (λ k'. L.IsAt k' s.fd s.filename stored.before stored.after)
            (λ k' off.
              (off ≡ length (stored.before ++ stored.after))
              × L.IsAt k' s.fd s.filename (stored.before ++ stored.after) [])
            out
        → Adds start s texts text (add_at P fuel s text out)
    unfolding add_at
    add_at-Adds now out stored made le fits some_fuel (refused k' e pos fewer less stands) =
        adds_nothing k' e pos made (record {
          before = stored.before;
          after = stored.after;
          log = stored.log;
          found = stored.found;
          stands = stands;
        })
    add_at-Adds now out stored made le fits some_fuel (granted k' off fewer (place, stands)) =
        rw (place, stored.log)
          (size_written-Adds (Transfer.write P fuel k' s.fd (size_field (length text))) stored.found
            fits
            (write-Ends P L fuel before enough k' s.fd s.filename (frames texts)
              (size_field (length text)) (rw stored.log at stands)
              (omega (arith, length-size_field (length text))) (omega arith)))

    -- Over lawful system calls, and with fuel for more than two rounds, than the message has
    -- bytes and than signals are left, `add` to a store that is open on the file of some messages
    -- comes to an end: either without an error, and the store is open on the file of these
    -- messages and the new one, all of which it finds; or the call of `lseek` has failed with the
    -- error that is returned, and the store and the messages are as before; or a call of `write`
    -- for the rest of the size or of the bytes has failed with the error that is returned, and
    -- the file holds the messages and what was written before of the new one's size and bytes,
    -- while the store counts the new one too.
    pub add-Adds :
        Stores start s texts
        → L.left start ≤ before
        → length text < fuel
        → 2 < fuel
        → Adds start s texts text (add P fuel start s text)
    unfolding add
    add-Adds stored le fits some_fuel =
        add_at-Adds (L.left start) _ stored refl le fits some_fuel
          (L.on_end start s.fd s.filename stored.before stored.after stored.stands)
