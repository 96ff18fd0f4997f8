-- ===== src/Packing/Numeric/RoundTrip.antt =====
-- The sequence number field: its length, what is read back from it, and what is read from any bytes.
use mathlib.Core.List.{foldl}
use native.Mathlib.Nat.{pow-suc}
use soupbintcp.Common.{
  ℕ, zero, suc, ◌+◌, ◌-◌, ◌*◌, ◌/◌, ◌%◌, ◌^◌, ◌<◌, ◌≡◌, refl, sym, ap, ◌∙◌, true, false, [], ◌∷◌,
  ◌++◌, Bytes, length, spaces, length-spaces, All-spaces, reverse, last, take, find_if_not,
  last-find_if_not, last-find_if_not_seam, length-append, take-append, All, Bool-cases, inl, inr,
  ◌==◌, arith,
}
use soupbintcp.Constants.{sequence_number_length, u64_mod}
use soupbintcp.Validate.{is_digit}
use soupbintcp.Packing.Numeric.{
  pack_loop, pack_numeric, unpack_loop, digits, unpack_numeric, pack_sequence_number,
  unpack_sequence_number,
}

abbrev pub IsDigits : Bytes → Type 0
IsDigits = All (λ c. is_digit c ≡ true)

-- The loop fills the room from the back and leaves what it does not need.
pack_loop-room :
    (room i : ℕ) (out : Bytes)
    → (pack_loop room i out).0 + length (pack_loop room i out).1 ≡ room + length out
unfolding pack_loop
pack_loop-room zero i out = refl
pack_loop-room (suc room) i out =
    ground (arith, pack_loop-room room (i / 10) ((b'0' + i % 10) ∷ out))

last_digit : (i : ℕ) → is_digit (b'0' + i % 10) ≡ true
unfolding is_digit
last_digit i = ground arith

pack_loop-IsDigits : (room i : ℕ) (out : Bytes) → IsDigits out → IsDigits (pack_loop room i out).1
unfolding pack_loop
pack_loop-IsDigits zero i out h = h
pack_loop-IsDigits (suc room) i out h = ground (
  arith,
  pack_loop-IsDigits room (i / 10) ((b'0' + i % 10) ∷ out) (last_digit i, h),
  last_digit i,
)

-- Reading the last digit after the digits before it.
unpack_loop_last :
    (i : ℕ) (out : Bytes)
    → i < u64_mod
    → unpack_loop (i / 10) ((b'0' + i % 10) ∷ out) ≡ unpack_loop i out
unfolding unpack_loop
unpack_loop_last i out h = ap (λ n. unpack_loop n out) (omega arith)

tenth_bound : {i : ℕ} (n : ℕ) → i < n * 10 → i / 10 < n
tenth_bound n h = omega arith

zero_tenth : (i : ℕ) → (i / 10 == 0) ≡ true → i / 10 ≡ 0
zero_tenth i h = ground arith

-- Room for as many digits as the number has is enough.
unpack_loop-pack_loop :
    (room i : ℕ) (out : Bytes)
    → i < u64_mod
    → i < 10 ^ room
    → unpack_loop 0 (pack_loop room i out).1 ≡ unpack_loop i out
unfolding pack_loop
unpack_loop-pack_loop zero i out h fits = ap (λ n. unpack_loop n out) (omega arith)
unpack_loop-pack_loop (suc room) i out h fits =
    let out' : Bytes = (b'0' + i % 10) ∷ out in
    let bound : i / 10 < 10 ^ room = tenth_bound (10 ^ room) (rw (pow-suc 10 room) at fits) in
    elim (Bool-cases (i / 10 == 0)) [
      | inl e ↦
          rw e (ap (λ n. unpack_loop n (out')) (sym (zero_tenth i e)) ∙ unpack_loop_last i out h)
      | inr e ↦
          rw e (
            unpack_loop-pack_loop room (i / 10) out' (omega arith) bound ∙ unpack_loop_last i out h)
    ]

space-not-digit : is_digit b' ' ≡ false
unfolding is_digit
space-not-digit = refl

module _ (size : ℕ) where
  length-pack_numeric : (i : ℕ) → length (pack_numeric size i) ≡ size
  unfolding pack_numeric
  length-pack_numeric i =
      let (room, out) = pack_loop size i [] in
      omega (arith, length-append (spaces room) out, length-spaces room, pack_loop-room size i [])

  digits-pack_numeric :
      (i : ℕ) (rest : Bytes) → digits size (pack_numeric size i ++ rest) ≡ (pack_loop size i []).1
  unfolding digits pack_numeric
  digits-pack_numeric i rest =
      let (room, out) = pack_loop size i [] in
      rw (
        take-append size (pack_numeric size i) rest (sym (length-pack_numeric i)),
        last-find_if_not is_digit (spaces room) out (All-spaces is_digit room space-not-digit)
            (pack_loop-IsDigits size i [] tt),
      )

-- The field of a sequence number is 20 bytes long, and every `uint64_t` is read back from it,
-- whatever bytes follow.
pub unpack-pack_sequence_number :
    (i : ℕ) (rest : Bytes)
    → i < u64_mod
    → (length (pack_sequence_number i) ≡ sequence_number_length)
      × (unpack_sequence_number (pack_sequence_number i ++ rest) ≡ i)
unfolding pack_sequence_number unpack_sequence_number unpack_numeric
unpack-pack_sequence_number i rest h = (
  length-pack_numeric sequence_number_length i,
  rw (digits-pack_numeric sequence_number_length i rest)
      (unpack_loop-pack_loop sequence_number_length i [] h (omega arith)),
)

-- The number that decimal digits spell, with no bound.
abbrev pub decimal : Bytes → ℕ
decimal = foldl (λ n c. n * 10 + (c - b'0')) 0

unpack_loop-foldl :
    (sub : Bytes) (i n : ℕ)
    → i ≡ n % u64_mod
    → unpack_loop i sub ≡ foldl (λ m c. m * 10 + (c - b'0')) n sub % u64_mod
unfolding unpack_loop
unpack_loop-foldl [] i n h = h
unpack_loop-foldl (c ∷ sub) i n h = unpack_loop-foldl sub _ (n * 10 + (c - b'0')) (omega arith)

-- A text that is empty or ends with a byte that is no digit.
pub data IsOther : Bytes → Type 0 where
  no_byte : IsOther []
  other_byte : (text : Bytes) (c : ℕ) → is_digit c ≡ false → IsOther (text ++ c ∷ [])

digits-lem :
    (before run : Bytes)
    → IsOther before
    → IsDigits run
    → last (find_if_not (reverse (before ++ run)) is_digit) (before ++ run) ≡ run
digits-lem _ run no_byte h = last-find_if_not is_digit [] run tt h
digits-lem _ run (other_byte text c other) h = last-find_if_not_seam is_digit text c run other h

-- Where the first 20 bytes, or all if there are fewer, are a text that is empty or ends with a
-- byte that is no digit, and digits behind it, the number read from the bytes is the one that
-- these digits spell in base 10, modulo 2 ^ 64.
pub unpack_sequence_number-decimal :
    (bytes before run : Bytes)
    → take sequence_number_length bytes ≡ before ++ run
    → IsOther before
    → IsDigits run
    → unpack_sequence_number bytes ≡ decimal run % u64_mod
unfolding unpack_sequence_number unpack_numeric digits
unpack_sequence_number-decimal bytes before run cut other h =
    rw (cut, digits-lem before run other h) (unpack_loop-foldl run 0 0 refl)
