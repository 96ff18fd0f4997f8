-- ===== src/FileStore/Log.antt =====
-- What the file of src/file_store.cpp holds: each message behind its size, and where each begins.
use soupbintcp.Common.{
  ℕ, ◌+◌, ◌<◌, ◌≤◌, ◌≡◌, refl, ap, List, [], ◌∷◌, ◌++◌, append_assoc, append-nil, Bytes, length,
  length-append, sym, ◌∙◌, arith,
}
use soupbintcp.Constants.{u16_mod}
use soupbintcp.Packing.Integral.{pack_u16, unpack_u16}
use soupbintcp.FileStore.Store.{size_field}

-- A message whose size fits the size field.
abbrev pub IsMessage : Bytes → Type 0
IsMessage text = length text < u16_mod

abbrev pub frame : Bytes → Bytes
frame text = size_field (length text) ++ text

abbrev pub frames : List Bytes → Bytes
frames [] = []
frames (text ∷ texts) = frame text ++ frames texts

-- Where each message begins, the first at `off`.
abbrev pub offsets : ℕ → List Bytes → List ℕ
offsets off [] = []
offsets off (text ∷ texts) = off ∷ offsets (off + length (frame text)) texts

pub length-size_field : (n : ℕ) → length (size_field n) ≡ 2
unfolding size_field pack_u16
length-size_field n = refl

pub size_field-read :
    (text : Bytes) → IsMessage text → unpack_u16 (size_field (length text)) ≡ length text
unfolding size_field unpack_u16 pack_u16
size_field-read text h = omega arith

pub length-frame : (text : Bytes) → length (frame text) ≡ length text + 2
length-frame text =
    omega (arith, length-append (size_field (length text)) text, length-size_field (length text))

pub frames-append :
    (before after : List Bytes) → frames (before ++ after) ≡ frames before ++ frames after
frames-append [] after = refl
frames-append (text ∷ before) after =
    rw (frames-append before after, append_assoc (frame text) (frames before) (frames after)) refl

pub offsets-append :
    (off : ℕ) (before after : List Bytes)
    → offsets off (before ++ after)
      ≡ offsets off before ++ offsets (off + length (frames before)) after
offsets-append off [] after = ap (λ n. offsets n after) (omega arith)
offsets-append off (text ∷ before) after = ap (◌∷◌ off) (
    offsets-append (off + length (frame text)) before after
    ∙ ap (λ n. offsets (off + length (frame text)) before ++ offsets n after)
        (omega (arith, length-append (frame text) (frames before))))

pub length-offsets : (off : ℕ) (texts : List Bytes) → length (offsets off texts) ≡ length texts
length-offsets off [] = refl
length-offsets off (text ∷ texts) = omega (arith, length-offsets (off + length (frame text)) texts)

pub length-frames : (texts : List Bytes) → length texts + length texts ≤ length (frames texts)
length-frames [] = omega arith
length-frames (text ∷ texts) =
    omega (arith, length-frames texts, length-frame text, length-append (frame text) (frames texts))

pub frames-snoc :
    (done : List Bytes) (text : Bytes)
    → (frames done ++ size_field (length text)) ++ text ≡ frames (done ++ text ∷ [])
frames-snoc done text =
    append_assoc (frames done) (size_field (length text)) text
    ∙ ap (◌++◌ (frames done)) (sym (append-nil (frame text)))
    ∙ sym (frames-append done (text ∷ []))

pub frames-middle :
    (done : List Bytes) (text : Bytes) (todo : List Bytes)
    → (frames done ++ size_field (length text)) ++ (text ++ frames todo)
      ≡ frames (done ++ text ∷ todo)
frames-middle done text todo =
    append_assoc (frames done) (size_field (length text)) (text ++ frames todo)
    ∙ ap (◌++◌ (frames done)) (sym (append_assoc (size_field (length text)) text (frames todo)))
    ∙ sym (frames-append done (text ∷ todo))

pub offsets-snoc :
    (done : List Bytes) (text : Bytes)
    → offsets 0 done ++ length (frames done) ∷ [] ≡ offsets 0 (done ++ text ∷ [])
offsets-snoc done text =
    ap (λ n. offsets 0 done ++ n ∷ []) (omega arith) ∙ sym (offsets-append 0 done (text ∷ []))
