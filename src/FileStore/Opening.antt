-- ===== src/FileStore/Opening.antt =====
-- What `open` of src/file_store.cpp finds in the log of messages.
pub mod Recovery
use soupbintcp.Common.{
  ℕ, zero, suc, ◌+◌, ◌<◌, ◌≤◌, ◌≡◌, ◌≢◌, refl, sym, ap, ◌∙◌, Option, none, some, List, [], ◌∷◌,
  ◌++◌, append_assoc, append-nil, Bytes, length, length-append, All, arith,
}
use soupbintcp.Packing.Integral.{unpack_u16}
use soupbintcp.FileStore.Posix.{Posix, Called, Descriptor, seek_cur}
use soupbintcp.FileStore.Posix.Lawful.{IsLawful, Answers, refused, granted}
use soupbintcp.FileStore.Transfer
use soupbintcp.FileStore.Transfer.{ReadResult}
use soupbintcp.FileStore.Transfer.Completion.{Ends, ends_refused, ends_granted}
use soupbintcp.FileStore.Transfer.Reading.{ReadEnds, read_broken, read_short, read_full}
use soupbintcp.FileStore.Transfer.Delivery.{
  Delivered, delivered_part, delivered_all, ReadEnds-Delivered,
}
use soupbintcp.FileStore.Transfer.Calls.{open_path-Ends, close-Ends, read-Ends}
use soupbintcp.FileStore.Store.{
  FileStore, size_field, closed, close, skipped, sized, set_offsets_from, set_offsets, opened,
  open_writable, reopened, scanned, opened_readable, open_store,
}
use soupbintcp.FileStore.Log.{
  IsMessage, frame, frames, frames-append, offsets, offsets-append, offsets-snoc, frames-snoc,
  frames-middle, length-size_field, size_field-read, length-frame, length-frames,
}
use soupbintcp.FileStore.Adding.{Stores}

module _ (P : Posix) (L : IsLawful P) (name : Bytes) (texts : List Bytes) (fuel before : ℕ)
    (enough : before < fuel) where
  -- A store that is open on the file, with the given offsets.
  abbrev holding : Descriptor → List ℕ → FileStore
  holding fd offs = record { filename = name; fd = fd; offsets = offs }

  -- What `set_offsets` gives: all offsets, or an error.
  pub data Scans (fd : Descriptor) : Option (P.Kernel × FileStore × ℕ) → Type 0 where
    scans_all :
        (k : P.Kernel)
        → L.left k ≤ before
        → L.Holds k name (frames texts)
        → Scans fd (some (k, holding fd (offsets 0 texts), 0))
    scans_part :
        (k : P.Kernel) (offs : List ℕ) (e : ℕ)
        → L.left k ≤ before
        → L.Holds k name (frames texts)
        → Scans fd (some (k, holding fd offs, suc e))

  abbrev At : Descriptor → P.Kernel → Bytes → Bytes → Type 0
  At fd k b a = L.IsAt k fd name b a

  skipped-Scans :
      (fd : Descriptor) (done todo : List Bytes) (text : Bytes) (now : ℕ)
      (more : P.Kernel → FileStore → ℕ → Option (P.Kernel × FileStore × ℕ))
      (out : P.Kernel × Called ℕ)
      → frames (done ++ text ∷ todo) ≡ frames texts
      → now ≤ before
      → ((k : P.Kernel)
          → L.left k ≤ before
          → At fd k (frames (done ++ text ∷ [])) (frames todo)
          → Scans fd (
              more k
                (holding fd (offsets 0 (done ++ text ∷ [])))
                (length (frames (done ++ text ∷ [])))))
      → Answers P.eintr L.left now
          (λ k. At fd k (frames done ++ size_field (length text)) (text ++ frames todo))
          (λ k off.
            (off ≡ length ((frames done ++ size_field (length text)) ++ text))
            × At fd k ((frames done ++ size_field (length text)) ++ text) (frames todo))
          out
      → Scans fd (skipped P fuel (holding fd (offsets 0 (done ++ text ∷ []))) more out)
  unfolding skipped
  skipped-Scans fd done todo text now more out whole le h (refused k zero pos fewer less stands) =
      absurd (omega arith)
  skipped-Scans fd done todo text now more out whole le h
        (refused k (suc e) pos fewer less stands) =
      scans_part k (offsets 0 (done ++ text ∷ [])) e (omega arith)
        (rw (frames-middle done text todo, whole) at (L.holds k fd name _ _ stands))
  skipped-Scans fd done todo text now more out whole le h (granted k off fewer (place, stands)) =
      rw (place, frames-snoc done text) (h k (omega arith) (rw (frames-snoc done text) at stands))

  sized-Scans :
      (fd : Descriptor) (done todo : List Bytes) (text : Bytes)
      (more : P.Kernel → FileStore → ℕ → Option (P.Kernel × FileStore × ℕ))
      (out : Option (P.Kernel × ReadResult))
      → IsMessage text
      → frames (done ++ text ∷ todo) ≡ frames texts
      → ((k : P.Kernel)
          → L.left k ≤ before
          → At fd k (frames (done ++ text ∷ [])) (frames todo)
          → Scans fd (
              more k
                (holding fd (offsets 0 (done ++ text ∷ [])))
                (length (frames (done ++ text ∷ [])))))
      → Delivered P.eintr
          (λ k' n. P.read k' fd n)
          L.left
          before
          (At fd)
          (frames done)
          (size_field (length text))
          (text ++ frames todo)
          out
      → Scans fd (sized P fuel (holding fd (offsets 0 done)) (length (frames done)) more out)
  unfolding sized
  sized-Scans fd done todo text more out short whole h
        (delivered_part k zero n bytes rest pos le cut stands fails) =
      absurd (omega arith)
  sized-Scans fd done todo text more out short whole h
        (delivered_part k (suc e) n bytes rest pos le cut stands fails) =
      scans_part k (offsets 0 done) e le (
        rw
          (
            append_assoc (frames done) bytes rest,
            ← cut,
            ← append_assoc (frames done) (size_field (length text)) (text ++ frames todo),
            frames-middle done text todo,
            whole,
          )
          at (L.holds k fd name _ _ stands))
  sized-Scans fd done todo text more out short whole h (delivered_all k le stands) =
      rw (offsets-snoc done text, size_field-read text short)
        (skipped-Scans fd done todo text (L.left k) more _ whole le h
          (L.on_skip k fd name (frames done ++ size_field (length text)) text (frames todo) stands))

  end-Scans :
      (fd : Descriptor) (more : P.Kernel → FileStore → ℕ → Option (P.Kernel × FileStore × ℕ))
      (out : Option (P.Kernel × ReadResult))
      → ReadEnds P.eintr (λ k' n. P.read k' fd n) L.left before (At fd) (frames texts) [] 2 out
      → Scans fd (sized P fuel (holding fd (offsets 0 texts)) (length (frames texts)) more out)
  unfolding sized
  end-Scans fd more out (read_broken k zero n bytes rest pos le cut stands size fails) =
      absurd (omega arith)
  end-Scans fd more out (read_broken k (suc e) n bytes rest pos le cut stands size fails) =
      scans_part k (offsets 0 texts) e le (
        rw (append_assoc (frames texts) bytes rest, ← cut, append-nil) at
          (L.holds k fd name _ _ stands))
  end-Scans fd more out (read_short k le short stands) =
      scans_all k le (rw (append-nil, append-nil) at (L.holds k fd name _ _ stands))
  end-Scans fd more out (read_full k bytes rest le cut size stands) =
      absurd (omega (arith, size, ap length cut, length-append bytes rest))

  set_offsets_from-Scans :
      (rounds : ℕ) (fd : Descriptor) (done todo : List Bytes) (k : P.Kernel)
      → All IsMessage todo
      → length todo < rounds
      → 2 < fuel
      → done ++ todo ≡ texts
      → L.left k ≤ before
      → At fd k (frames done) (frames todo)
      → Scans fd
          (set_offsets_from P fuel rounds k (holding fd (offsets 0 done)) (length (frames done)))
  unfolding set_offsets_from
  set_offsets_from-Scans zero fd done todo k short some_rounds some_fuel whole le stands =
      absurd (omega arith)
  set_offsets_from-Scans (suc rounds) fd done [] k short some_rounds some_fuel whole le stands =
      let all : done ≡ texts = sym (append-nil done) ∙ whole in
      rw all (
        end-Scans fd (λ k' s' off'. set_offsets_from P fuel rounds k' s' off')
          (Transfer.read P fuel k fd 2)
          (read-Ends P L fuel before enough k fd name (frames texts) [] 2 (rw all at stands)
            some_fuel le))
  set_offsets_from-Scans (suc rounds) fd done (text ∷ todo) k short some_rounds some_fuel whole le
        stands =
      sized-Scans fd done todo text (λ k' s' off'. set_offsets_from P fuel rounds k' s' off')
        (Transfer.read P fuel k fd 2) short.0 (ap frames whole)
        (λ k' le' stands'.
          set_offsets_from-Scans rounds fd (done ++ text ∷ []) todo k' short.1 (omega arith)
            some_fuel (append_assoc done (text ∷ []) todo ∙ whole) le' stands')
        (ReadEnds-Delivered P.eintr (λ k' n. P.read k' fd n) L.left before (At fd) (frames done)
          (size_field (length text)) (text ++ frames todo) _
          (rw (length-size_field (length text)) (
            read-Ends P L fuel before enough k fd name (frames done)
              (size_field (length text) ++ (text ++ frames todo)) 2
              (rw (append_assoc (size_field (length text)) text (frames todo)) at stands) some_fuel
              le)))
