-- ===== src/FileStore/Opening/Recovery.antt =====
-- `open` of src/file_store.cpp as a whole: the log that a store was left with is the log that it is
-- opened with.
use soupbintcp.Common.{
  ℕ, zero, suc, ◌<◌, ◌≤◌, ◌≡◌, ◌≢◌, refl, Option, none, some, List, [], Bytes, length, All, arith,
}
use soupbintcp.FileStore.Posix.{Posix, Called, failed, Descriptor, rdonly, rdwr_creat}
use soupbintcp.FileStore.Posix.Lawful.{IsLawful}
use soupbintcp.FileStore.Transfer
use soupbintcp.FileStore.Transfer.Completion.{Ends, ends_refused, ends_granted}
use soupbintcp.FileStore.Transfer.Calls.{open_path-Ends, close-Ends}
use soupbintcp.FileStore.Store.{
  FileStore, new_store, closed, close, set_offsets, opened, open_writable, reopened, scanned,
  opened_readable, open_store,
}
use soupbintcp.FileStore.Log.{IsMessage, frames, offsets, length-frames}
use soupbintcp.FileStore.Adding.{Stores}
use soupbintcp.FileStore.Opening.{holding, Scans, scans_all, scans_part, set_offsets_from-Scans}

module _ (P : Posix) (L : IsLawful P) (name : Bytes) (texts : List Bytes) (fuel before : ℕ)
    (enough : before < fuel) where
  -- What `open` gives: the store finds the messages of the file; or its first call has failed, and it finds
  -- none; or an error, without a descriptor.
  pub data Opens (start : P.Kernel) : Option (P.Kernel × FileStore × ℕ) → Type 0 where
    opens_all :
        (k : P.Kernel) (s : FileStore)
        → Stores P L k s texts
        → s.filename ≡ name
        → Opens start (some (k, s, 0))
    opens_unread :
        (k k' : P.Kernel) (s : FileStore) (e : ℕ)
        → Transfer.open_path P fuel start name rdonly ≡ some (k', failed e)
        → s.offsets ≡ []
        → L.IsAt k s.fd name [] (frames texts)
        → Opens start (some (k, s, 0))
    opens_error :
        (k : P.Kernel) (s : FileStore) (e : ℕ)
        → 0 < e
        → s.fd ≡ none
        → L.Holds k name (frames texts)
        → Opens start (some (k, s, e))

  abbrev Writes : List ℕ → P.Kernel → Type 0
  Writes offs start =
      (k : P.Kernel) (fd : Descriptor)
      → L.IsAt k fd name [] (frames texts)
      → Opens start (some (k, holding P L name texts fuel before enough fd offs, 0))

  opened-Opens :
      {call : P.Kernel → P.Kernel × Called Descriptor} (start : P.Kernel) (fd : Descriptor)
      (offs : List ℕ) (out : Option (P.Kernel × Called Descriptor))
      → Writes offs start
      → Ends P.eintr call L.left before
          (λ k. L.Holds k name (frames texts))
          (λ k fd'. (fd' ≢ none) × L.IsAt k fd' name [] (frames texts))
          out
      → Opens start (opened P fuel (holding P L name texts fuel before enough fd offs) out)
  unfolding opened
  opened-Opens start fd offs out h (ends_refused k e pos le holds fails) =
      opens_error k _ e pos refl holds
  opened-Opens start fd offs out h (ends_granted k fd' le (valid, stands)) = h k fd' stands

  open_writable-Opens :
      (start k : P.Kernel) (fd : Descriptor) (offs : List ℕ)
      → Writes offs start
      → L.left k ≤ before
      → L.Holds k name (frames texts)
      → Opens start (open_writable P fuel k (holding P L name texts fuel before enough fd offs))
  unfolding open_writable
  open_writable-Opens start k fd offs h le holds =
      opened-Opens start fd offs (Transfer.open_path P fuel k name rdwr_creat) h
        (open_path-Ends P L fuel before enough k name (frames texts) rdwr_creat holds le)

  reopened-Opens :
      {call : P.Kernel → P.Kernel × Called Unit} (start : P.Kernel) (fd : Descriptor)
      (offs : List ℕ) (ec : ℕ) (out : Option (P.Kernel × Called Unit))
      → (ec ≡ 0 → Writes offs start)
      → Ends P.eintr call L.left before
          (λ k. L.Holds k name (frames texts))
          (λ k a. L.Holds k name (frames texts))
          out
      → Opens start (
          reopened P fuel ec
            (closed P fuel (holding P L name texts fuel before enough fd offs) out))
  unfolding reopened closed
  reopened-Opens start fd offs zero out h (ends_refused k e pos le holds fails) =
      open_writable-Opens start k none offs (h refl) le holds
  reopened-Opens start fd offs (suc ec) out h (ends_refused k e pos le holds fails) =
      opens_error k _ (suc ec) (omega arith) refl holds
  reopened-Opens start fd offs zero out h (ends_granted k a le holds) =
      open_writable-Opens start k none offs (h refl) le holds
  reopened-Opens start fd offs (suc ec) out h (ends_granted k a le holds) =
      opens_error k _ (suc ec) (omega arith) refl holds

  close-Opens :
      (start k : P.Kernel) (fd : Descriptor) (offs : List ℕ) (ec : ℕ)
      → fd ≢ none
      → (ec ≡ 0 → Writes offs start)
      → L.left k ≤ before
      → L.Holds k name (frames texts)
      → Opens start
          (reopened P fuel ec (close P fuel k (holding P L name texts fuel before enough fd offs)))
  unfolding close
  close-Opens start k none offs ec valid h le holds = absurd (valid refl)
  close-Opens start k (some n) offs ec valid h le holds =
      reopened-Opens start (some n) offs ec (Transfer.close P fuel k (some n)) h
        (close-Ends P L fuel before enough k (some n) name (frames texts) holds le)

  finds : (start : P.Kernel) → Writes (offsets 0 texts) start
  finds start k fd stands =
      opens_all k _
        (record { before = []; after = frames texts; log = refl; found = refl; stands = stands })
        refl

  scanned-Opens :
      (start : P.Kernel) (fd : Descriptor) (out : Option (P.Kernel × FileStore × ℕ))
      → fd ≢ none
      → Scans P L name texts fuel before enough fd out
      → Opens start (scanned P fuel out)
  unfolding scanned
  scanned-Opens start fd out valid (scans_all k le holds) =
      close-Opens start k fd (offsets 0 texts) 0 valid (λ same. finds start) le holds
  scanned-Opens start fd out valid (scans_part k offs e le holds) =
      close-Opens start k fd offs (suc e) valid (λ same. absurd (omega (arith, same))) le holds

  opened_readable-Opens :
      {call : P.Kernel → P.Kernel × Called Descriptor} (start : P.Kernel) (fd : Descriptor)
      (out : Option (P.Kernel × Called Descriptor))
      → Transfer.open_path P fuel start name rdonly ≡ out
      → All IsMessage texts
      → length (frames texts) < fuel
      → 2 < fuel
      → Ends P.eintr call L.left before
          (λ k. L.Holds k name (frames texts))
          (λ k fd'. (fd' ≢ none) × L.IsAt k fd' name [] (frames texts))
          out
      → Opens start (opened_readable P fuel (holding P L name texts fuel before enough fd []) out)
  unfolding opened_readable set_offsets
  opened_readable-Opens start fd out first short fits some_fuel
        (ends_refused k e pos le holds fails) =
      open_writable-Opens start k none [] (λ k' fd' stands. opens_unread k' k _ e first refl stands)
        le holds
  opened_readable-Opens start fd out first short fits some_fuel
        (ends_granted k fd' le (valid, stands)) =
      scanned-Opens start fd' _ valid (
        set_offsets_from-Scans P L name texts fuel before enough fuel fd' [] texts k short
          (omega (arith, length-frames texts)) some_fuel refl le stands)

  -- `open` of a store without offsets comes to an end, and finds the messages of the file, or reports what
  -- went wrong.
  pub open_store-Opens :
      (k : P.Kernel) (fd : Descriptor)
      → All IsMessage texts
      → length (frames texts) < fuel
      → 2 < fuel
      → L.left k ≤ before
      → L.Holds k name (frames texts)
      → Opens k (open_store P fuel k (record { filename = name; fd = fd; offsets = [] }))
  unfolding open_store
  open_store-Opens k fd short fits some_fuel le holds =
      opened_readable-Opens k fd (Transfer.open_path P fuel k name rdonly) refl short fits some_fuel
        (open_path-Ends P L fuel before enough k name (frames texts) rdonly holds le)

module _ (P : Posix) (L : IsLawful P) (name : Bytes) (texts : List Bytes) (fuel before : ℕ)
    (enough : before < fuel) where
  -- `close` comes to an end without a descriptor, and the file is as it was.
  pub data Closes : Option (P.Kernel × FileStore × ℕ) → Type 0 where
    closes :
        (k : P.Kernel) (s : FileStore) (ec : ℕ)
        → s.fd ≡ none
        → L.left k ≤ before
        → L.Holds k name (frames texts)
        → Closes (some (k, s, ec))

  closed-Closes :
      {call : P.Kernel → P.Kernel × Called Unit} (s : FileStore)
      (out : Option (P.Kernel × Called Unit))
      → Ends P.eintr call L.left before
          (λ k. L.Holds k name (frames texts))
          (λ k a. L.Holds k name (frames texts))
          out
      → Closes (closed P fuel s out)
  unfolding closed
  closed-Closes s out (ends_refused k e pos le holds fails) = closes k _ e refl le holds
  closed-Closes s out (ends_granted k a le holds) = closes k _ 0 refl le holds

  close-Closes :
      (k : P.Kernel) (s : FileStore) (fd : Descriptor)
      → L.left k ≤ before
      → L.Holds k name (frames texts)
      → Closes (close P fuel k (record s { fd = fd }))
  unfolding close
  close-Closes k s none le holds = closes k _ 0 refl le holds
  close-Closes k s (some n) le holds =
      closed-Closes _ (Transfer.close P fuel k (some n))
        (close-Ends P L fuel before enough k (some n) name (frames texts) holds le)

  -- A new store on the file that another one has closed.
  abbrev pub open_again : Option (P.Kernel × FileStore × ℕ) → Option (P.Kernel × FileStore × ℕ)
  open_again none = none
  open_again (some (k, s, ec)) = open_store P fuel k (new_store name)

  abbrev pub kernel_of : P.Kernel → Option (P.Kernel × FileStore × ℕ) → P.Kernel
  kernel_of start none = start
  kernel_of start (some (k, s, ec)) = k

  open_again-Opens :
      (start : P.Kernel) (out : Option (P.Kernel × FileStore × ℕ))
      → All IsMessage texts
      → length (frames texts) < fuel
      → 2 < fuel
      → Closes out
      → Opens P L name texts fuel before enough (kernel_of start out) (open_again out)
  unfolding new_store
  open_again-Opens start out short fits some_fuel (closes k s ec shut le holds) =
      open_store-Opens P L name texts fuel before enough k none short fits some_fuel le holds

  -- Over lawful system calls, where a store is open on the file of messages of fewer than 65536
  -- bytes each, and the fuel is for more than two rounds, than the file has bytes and than
  -- signals are left, `close` and then `open` of a new store on the file come to an end: either
  -- without an error, and the new store is open on the file of the same messages, all of which it
  -- finds; or its first call of `::open` has failed, and it finds none; or with an error, and it
  -- has no descriptor and the file is as it was.
  pub close-open_again :
      (k : P.Kernel) (s : FileStore)
      → Stores P L k s texts
      → s.filename ≡ name
      → All IsMessage texts
      → length (frames texts) < fuel
      → 2 < fuel
      → L.left k ≤ before
      → Opens P L name texts fuel before enough
          (kernel_of k (close P fuel k s))
          (open_again (close P fuel k s))
  close-open_again k s stored named short fits some_fuel le =
      open_again-Opens k (close P fuel k s) short fits some_fuel (
        close-Closes k s s.fd le (
          rw (stored.log, named) at
            (L.holds k s.fd s.filename stored.before stored.after stored.stands)))
