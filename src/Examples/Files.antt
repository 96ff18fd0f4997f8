-- ===== src/Examples/Files.antt =====
-- A file in memory that is read and written one byte at a time, and stores on it.
pub mod Stores
use soupbintcp.Common.{
  ℕ, zero, suc, ◌+◌, ◌-◌, ◌<◌, ◌≤◌, ◌≡◌, ◌≢◌, refl, sym, ap, ◌∙◌, Option, none, some, List, [], ◌∷◌,
  ◌++◌, append_assoc, append-nil, Bytes, length, length-append, take, drop, take-append,
  drop-append, arith,
}
use soupbintcp.FileStore.Posix.{
  Posix, Called, failed, returned, Descriptor, Oflag, Whence, seek_set, seek_cur, seek_end,
}
use soupbintcp.FileStore.Posix.Lawful.{IsLawful, Answers, refused, granted}

-- The bytes before and behind the offset, the signals that are still to come, and the room that is left.
pub record Memory : Type 0 where
  pub before : Bytes
  pub after : Bytes
  pub signals : ℕ
  pub room : ℕ

abbrev pub full : ℕ
full = 28

-- A call that the next signal interrupts.
abbrev pub interrupted : {A : Type 0} → ℕ → Memory → Memory × Called A → Memory × Called A
interrupted zero m out = out
interrupted (suc n) m out = (record m { signals = n }, failed 4)

abbrev pub read_byte : Memory → Bytes → Memory × Called Bytes
read_byte m [] = (m, returned [])
read_byte m (c ∷ rest) = (record m { before = m.before ++ c ∷ []; after = rest }, returned (c ∷ []))

abbrev pub write_byte : Memory → Bytes → ℕ → Memory × Called ℕ
write_byte m [] room = (m, returned 0)
write_byte m (c ∷ rest) zero = (m, failed full)
write_byte m (c ∷ rest) (suc room) =
    (record m { before = m.before ++ c ∷ []; after = drop 1 m.after; room = room }, returned 1)

abbrev pub placed : Memory → ℕ → Memory × Called ℕ
placed m off =
    let text = m.before ++ m.after in
    (record m { before = take off text; after = drop off text }, returned off)

abbrev pub seek : Memory → ℕ → Whence → Memory × Called ℕ
seek m off seek_set = placed m off
seek m off seek_cur = placed m (length m.before + off)
seek m off seek_end = placed m (length (m.before ++ m.after) + off)

abbrev pub opened_file : Memory → Memory × Called Descriptor
opened_file m = (record m { before = []; after = m.before ++ m.after }, returned (some 3))

abbrev pub memory : Posix
memory = record {
  Kernel = Memory;
  open_path = λ m name flag. interrupted m.signals m (opened_file m);
  close = λ m fd. interrupted m.signals m (m, returned tt);
  read = λ m fd n. interrupted m.signals m (read_byte m m.after);
  write = λ m fd text. interrupted m.signals m (write_byte m text m.room);
  lseek = λ m fd off whence. seek m off whence;
  fsync = λ m fd. (m, returned tt);
  eintr = 4;
  einval = 22;
  eio = 5;
}

pub interrupted-Answers :
    {A : Type 0} (n now : ℕ) (m : Memory) (Stays : Memory → Type 0) (Goes : Memory → A → Type 0)
    (out : Memory × Called A)
    → n ≡ now
    → ((i : ℕ) → Stays (record m { signals = i }))
    → Answers 4 (λ m'. m'.signals) now Stays Goes out
    → Answers 4 (λ m'. m'.signals) now Stays Goes (interrupted n m out)
interrupted-Answers zero now m Stays Goes out e stays h = h
interrupted-Answers (suc n) now m Stays Goes out e stays h =
    refused (record m { signals = n }) 4 (omega arith) (omega (arith, e)) (λ same. omega (arith, e))
      (stays n)

abbrev pub IsSplit : Memory → Bytes → Bytes → Type 0
IsSplit m b a = (m.before ≡ b) × (m.after ≡ a)

pub read_byte-Answers :
    (m : Memory) (b a : Bytes) (n : ℕ)
    → IsSplit m b a
    → 0 < n
    → Answers 4
        (λ m'. m'.signals)
        m.signals
        (λ m'. IsSplit m' b a)
        (λ m' bytes.
          (rest : Bytes) × (a ≡ bytes ++ rest)
          × (length bytes ≤ n)
          × (bytes ≡ [] → rest ≡ [])
          × IsSplit m' (b ++ bytes) rest)
        (read_byte m a)
read_byte-Answers m b [] n (eb, ea) some_bytes =
    granted m [] (omega arith)
      ([], refl, omega arith, λ none_got. refl, (eb ∙ sym (append-nil b), ea))
read_byte-Answers m b (c ∷ rest) n (eb, ea) some_bytes = granted _ (c ∷ []) (omega arith) (
  rest,
  refl,
  omega arith,
  λ none_got. absurd (omega (arith, ap length none_got)),
  (ap (λ s. s ++ c ∷ []) eb, refl),
)

pub write_byte-Answers :
    (m : Memory) (b text : Bytes) (room : ℕ)
    → IsSplit m b []
    → 0 < length text
    → Answers 4
        (λ m'. m'.signals)
        m.signals
        (λ m'. IsSplit m' b [])
        (λ m' n.
          (sent : Bytes) × (rest : Bytes) × (text ≡ sent ++ rest)
          × (n ≡ length sent)
          × (0 < n)
          × IsSplit m' (b ++ sent) [])
        (write_byte m text room)
write_byte-Answers m b [] room split some_text = absurd (omega arith)
write_byte-Answers m b (c ∷ rest) zero split some_text =
    refused m full (omega arith) (omega arith) (λ same. absurd (omega (arith, same))) split
write_byte-Answers m b (c ∷ rest) (suc room) (eb, ea) some_text =
    granted _ 1 (omega arith)
      (c ∷ [], rest, refl, refl, omega arith, (ap (λ s. s ++ c ∷ []) eb, ap (drop 1) ea))

pub placed-Answers :
    (m : Memory) (b a b' a' : Bytes) (off : ℕ)
    → IsSplit m b a
    → b ++ a ≡ b' ++ a'
    → off ≡ length b'
    → Answers 4
        (λ m'. m'.signals)
        m.signals
        (λ m'. IsSplit m' b a)
        (λ m' off'. (off' ≡ length b') × IsSplit m' b' a')
        (placed m off)
placed-Answers m b a b' a' off (eb, ea) same place = granted _ off (omega arith) (
  place,
  (
    rw (eb, ea, same) (take-append off b' a' place),
    rw (eb, ea, same) (drop-append off b' a' place),
  ),
)

-- The calls do what the documentation says.
abbrev pub memory-IsLawful : IsLawful memory
memory-IsLawful = record {
  left = λ m. m.signals;
  Holds = λ m name text. m.before ++ m.after ≡ text;
  IsAt = λ m fd name b a. IsSplit m b a;
  einval_positive = omega arith;
  eio_positive = omega arith;
  on_open = λ m name text flag h.
      interrupted-Answers m.signals m.signals m _ _ (opened_file m) refl (λ i. h)
        (granted _ (some 3) (omega arith) (λ e. ground arith, (refl, h)));
  holds = λ m fd name b a split. rw (split.0, split.1) refl;
  on_close = λ m fd name text h.
      interrupted-Answers m.signals m.signals m _ _ (m, returned tt) refl (λ i. h)
        (granted m tt (omega arith) h);
  on_read = λ m fd name b a n split some_bytes.
      interrupted-Answers m.signals m.signals m _ _ (read_byte m m.after) refl (λ i. split)
        (rw split.1 (read_byte-Answers (record m { after = a }) b a n (split.0, refl) some_bytes));
  on_write = λ m fd name b text split some_text.
      interrupted-Answers m.signals m.signals m _ _ (write_byte m text m.room) refl (λ i. split)
        (write_byte-Answers m b text m.room split some_text);
  on_end = λ m fd name b a split.
      placed-Answers m b a (b ++ a) [] _ split (sym (append-nil (b ++ a)))
        (rw (split.0, split.1) (omega arith));
  on_set = λ m fd name b a b' a' split same. placed-Answers m b a b' a' (length b') split same refl;
  on_skip = λ m fd name b skipped a split.
      placed-Answers m b (skipped ++ a) (b ++ skipped) a _ split (sym (append_assoc b skipped a))
        (rw split.0 (sym (length-append b skipped)));
  on_fsync = λ m fd name b a split. granted m tt (omega arith) split;
}
