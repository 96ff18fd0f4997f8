-- ===== src/Packing/Integral.antt =====
-- `pack` and `unpack` of include/bc/soup/packing.h for integrals of one, two and four bytes: `htons`
-- and `htonl` before the copy make the bytes stand in network order, the most significant first.
use soupbintcp.Common.{ℕ, ◌+◌, ◌*◌, ◌/◌, ◌%◌, ◌<◌, ◌≡◌, [], ◌∷◌, ◌++◌, Bytes, arith}
use soupbintcp.Constants.{u8_mod, u16_mod, u32_mod}

-- A value of a byte.
abbrev pub IsByte : ℕ → Type 0
IsByte c = c < u8_mod

unfoldable pub pack_u8 : ℕ → Bytes
pack_u8 i = i % 256 ∷ []

unfoldable pub pack_u16 : ℕ → Bytes
pack_u16 i = i / 256 % 256 ∷ i % 256 ∷ []

unfoldable pub pack_u32 : ℕ → Bytes
pack_u32 i = i / 16777216 % 256 ∷ i / 65536 % 256 ∷ i / 256 % 256 ∷ i % 256 ∷ []

-- Fewer bytes than the integral is long never stand at `data`: that case is not read.
unfoldable pub unpack_u8 : Bytes → ℕ
unpack_u8 (a ∷ s) = a
unpack_u8 [] = 0

unfoldable pub unpack_u16 : Bytes → ℕ
unpack_u16 (a ∷ b ∷ s) = a * 256 + b
unpack_u16 (a ∷ []) = 0
unpack_u16 [] = 0

unfoldable pub unpack_u32 : Bytes → ℕ
unpack_u32 (a ∷ b ∷ c ∷ d ∷ s) = a * 16777216 + b * 65536 + c * 256 + d
unpack_u32 (a ∷ b ∷ c ∷ []) = 0
unpack_u32 (a ∷ b ∷ []) = 0
unpack_u32 (a ∷ []) = 0
unpack_u32 [] = 0

-- A 16-bit integral is read back, whatever bytes follow it.
pub unpack_u16-pack_u16 : (i : ℕ) (rest : Bytes) → i < u16_mod → unpack_u16 (pack_u16 i ++ rest) ≡ i
unfolding unpack_u16 pack_u16
unpack_u16-pack_u16 i rest h = omega arith

-- An integral of one, two or four bytes is read back, whatever bytes follow it.
pub unpack-pack :
    (i : ℕ) (rest : Bytes)
    → (i < u8_mod → unpack_u8 (pack_u8 i ++ rest) ≡ i)
      × (i < u16_mod → unpack_u16 (pack_u16 i ++ rest) ≡ i)
      × (i < u32_mod → unpack_u32 (pack_u32 i ++ rest) ≡ i)
unfolding unpack_u8 pack_u8 unpack_u32 pack_u32
unpack-pack i rest = (λ h. omega arith, λ h. unpack_u16-pack_u16 i rest h, λ h. omega arith)

-- The bytes written are bytes, and in network order: they are the digits of the value to base 256.
pub pack_u32-unpack_u32 :
    (a b c d : ℕ)
    → IsByte a
    → IsByte b
    → IsByte c
    → IsByte d
    → pack_u32 (unpack_u32 (a ∷ b ∷ c ∷ d ∷ [])) ≡ a ∷ b ∷ c ∷ d ∷ []
unfolding unpack_u32 pack_u32
pack_u32-unpack_u32 a b c d ha hb hc hd = ground arith
