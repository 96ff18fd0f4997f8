-- ===== src/Packing/Numeric.antt =====
-- The sequence number field of src/packing.cpp: decimal, padded on the left with spaces.
pub mod RoundTrip
use soupbintcp.Common.{
  ℕ, zero, suc, ◌+◌, ◌-◌, ◌*◌, ◌/◌, ◌%◌, [], ◌∷◌, ◌++◌, Bytes, length, spaces, reverse, first, last,
  find_if_not, ◌==◌, if◌then◌else◌,
}
use soupbintcp.Constants.{sequence_number_length, u64_mod}
use soupbintcp.Validate.{is_digit}

-- The `while` loop of `pack_numeric`. The first argument is `iter - s.begin()`, which falls with each
-- round; the last is what stands from `iter` on. The result has both where the loop ends.
pub pack_loop : ℕ → ℕ → Bytes → ℕ × Bytes
pack_loop zero i out = (zero, out)
pack_loop (suc room) i out =
    let c : ℕ = b'0' + i % 10 in
    let rest = pack_loop room (i / 10) (c ∷ out) in if i / 10 == 0 then (room, c ∷ out) else rest

unfoldable pub pack_numeric : ℕ → ℕ → Bytes
unfolding pack_loop
pack_numeric size i = let (room, out) = pack_loop size i [] in spaces room ++ out

-- The `for` loop of `unpack_numeric`, in the arithmetic of `uint64_t`. Each byte is a digit, so
-- that `c - '0'` is not negative.
pub unpack_loop : ℕ → Bytes → ℕ
unpack_loop i [] = i
unpack_loop i (c ∷ sub) = unpack_loop ((i * 10 % u64_mod + (c - b'0')) % u64_mod) sub

-- The digits that the field ends with.
pub digits : ℕ → Bytes → Bytes
digits size bytes = let s : Bytes = first size bytes in last (find_if_not (reverse s) is_digit) s

unfoldable pub unpack_numeric : ℕ → Bytes → ℕ
unfolding digits unpack_loop
unpack_numeric size bytes = unpack_loop 0 (digits size bytes)

unfoldable pub pack_sequence_number : ℕ → Bytes
pack_sequence_number = pack_numeric sequence_number_length

unfoldable pub unpack_sequence_number : Bytes → ℕ
unpack_sequence_number = unpack_numeric sequence_number_length
