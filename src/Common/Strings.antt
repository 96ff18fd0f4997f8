-- ===== src/Common/Strings.antt =====
-- Byte strings: `std::string`, `std::string_view` and `std::span<char>` are lists of numbers, one for
-- each byte. Here are their comparison, the cuts of `std::span`, and `std::ranges::find_if_not`.
use soupbintcp.Common.Tests.{◌==◌, if◌then◌else◌, Bool-cases}
use soupbintcp.Common.Lists.{
  take-append, length-append, replicate, length-replicate, All-replicate, length-drop,
  take-append-drop, length-reverse, drop-append, All-reverse, length, take, drop, All,
}
use Prim.Native.Nat.{ℕ, suc, ◌-◌, ◌≤◌}
use Prim.Native.Char.{code}
use Prim.Native.String.{String}
use mathlib.Core.Path.{◌∙◌, sym, ◌≡◌, refl, ap}
use mathlib.Core.Logic.{◌≢◌, inl, inr}
use mathlib.Core.Bool.{Bool, true, false, ◌&&◌}
use mathlib.Core.List.{reverse-reverse, reverse-append, reverse, List, [], ◌∷◌, ◌++◌}
use native.Mathlib.Omega.{arith}

abbrev pub Bytes : Type 0
Bytes = List ℕ

-- The code points of a literal, which are its bytes when the text is ASCII.
abbrev pub codes : String → Bytes
codes String.[] = []
codes (String.◌∷◌ c s) = code c ∷ codes s

-- `operator==` of `std::string`.
unfoldable pub bytes_eq : Bytes → Bytes → Bool
bytes_eq [] [] = true
bytes_eq [] (y ∷ ys) = false
bytes_eq (x ∷ xs) [] = false
bytes_eq (x ∷ xs) (y ∷ ys) = x == y && bytes_eq xs ys

pub bytes_eq_sound : (xs ys : Bytes) → bytes_eq xs ys ≡ true → xs ≡ ys
unfolding bytes_eq
bytes_eq_sound [] [] h = refl
bytes_eq_sound [] (y ∷ ys) h = cc
bytes_eq_sound (x ∷ xs) [] h = cc
bytes_eq_sound (x ∷ xs) (y ∷ ys) h = ground (arith, bytes_eq_sound xs ys)

pub bytes_eq_refl : (xs : Bytes) → bytes_eq xs xs ≡ true
unfolding bytes_eq
bytes_eq_refl [] = refl
bytes_eq_refl (x ∷ xs) = ground (arith, bytes_eq_refl xs)

pub bytes_eq-false : (xs ys : Bytes) → bytes_eq xs ys ≡ false → xs ≢ ys
bytes_eq-false xs ys h e = ground (arith, bytes_eq_refl xs)

-- `std::span::first` and `last`, and the cuts of `std::string_view`.
abbrev pub first : ℕ → Bytes → Bytes
first n s = take n s

abbrev pub last : ℕ → Bytes → Bytes
last n s = drop (length s - n) s

abbrev pub remove_suffix : ℕ → Bytes → Bytes
remove_suffix n s = take (length s - n) s

abbrev pub remove_prefix : ℕ → Bytes → Bytes
remove_prefix n s = drop n s

-- `std::ranges::find_if_not`: the distance of the iterator found from the beginning.
unfoldable pub find_if_not : Bytes → (ℕ → Bool) → ℕ
find_if_not [] p = 0
find_if_not (c ∷ s) p = if p c then suc (find_if_not s p) else 0

pub find_if_not-le : (s : Bytes) (p : ℕ → Bool) → find_if_not s p ≤ length s
unfolding find_if_not
find_if_not-le [] p = omega arith
find_if_not-le (c ∷ s) p = ground (arith, find_if_not-le s p)

module _ (p : ℕ → Bool) where
  -- What stands before the place found passes the test.
  pub All-take-find_if_not : (s : Bytes) → All (λ c. p c ≡ true) (take (find_if_not s p) s)
  unfolding find_if_not
  All-take-find_if_not [] = tt
  All-take-find_if_not (c ∷ s) = elim (Bool-cases (p c)) [
    | inl e ↦ rw e (e, All-take-find_if_not s)
    | inr e ↦ rw e tt
  ]

  -- The place found is the seam of a list that passes and one that fails throughout.
  pub find_if_not-append :
      (xs ys : Bytes)
      → All (λ c. p c ≡ true) xs
      → All (λ c. p c ≡ false) ys
      → find_if_not (xs ++ ys) p ≡ length xs
  unfolding find_if_not
  find_if_not-append [] [] hx hy = refl
  find_if_not-append [] (y ∷ ys) hx hy = rw hy.0
  find_if_not-append (x ∷ xs) ys hx hy = rw hx.0 (ap suc (find_if_not-append xs ys hx.1 hy))

  -- So it is of a list that passes, before an entry that fails.
  pub find_if_not-seam :
      (xs : Bytes) (y : ℕ) (ys : Bytes)
      → All (λ c. p c ≡ true) xs
      → p y ≡ false
      → find_if_not (xs ++ y ∷ ys) p ≡ length xs
  unfolding find_if_not
  find_if_not-seam [] y ys hx hy = rw hy refl
  find_if_not-seam (x ∷ xs) y ys hx hy = rw hx.0 (ap suc (find_if_not-seam xs y ys hx.1 hy))

-- The last entries of a list are the first of its reverse.
last-reverse : (n : ℕ) (s : Bytes) → last n s ≡ reverse (take n (reverse s))
last-reverse n s =
    let r : Bytes = reverse s in
    let split : s ≡ reverse (drop n r) ++ reverse (take n r) =
      sym (reverse-reverse s)
      ∙ ap reverse (sym (take-append-drop n r))
      ∙ reverse-append (take n r) (drop n r) in
    let cut : length s - n ≡ length (reverse (drop n r)) =
      omega (arith, length-reverse (drop n r), length-drop n r, length-reverse s) in
    ap (drop (length s - n)) split
    ∙ drop-append (length s - n) (reverse (drop n r)) (reverse (take n r)) cut

module _ (p : ℕ → Bool) where
  -- The entries that a search from the back passes over.
  pub All-last-find_if_not :
      (s : Bytes) → All (λ c. p c ≡ true) (last (find_if_not (reverse s) p) s)
  All-last-find_if_not s = rw (last-reverse (find_if_not (reverse s) p) s) (
      All-reverse _ (take (find_if_not (reverse s) p) (reverse s))
        (All-take-find_if_not p (reverse s)))

  -- The search from the back stops at the last entry that fails.
  pub last-find_if_not_seam :
      (xs : Bytes) (y : ℕ) (ys : Bytes)
      → p y ≡ false
      → All (λ c. p c ≡ true) ys
      → last (find_if_not (reverse ((xs ++ y ∷ []) ++ ys)) p) ((xs ++ y ∷ []) ++ ys) ≡ ys
  last-find_if_not_seam xs y ys hy hx =
      rw
        (
          reverse-append (xs ++ y ∷ []) ys,
          reverse-append xs (y ∷ []),
          find_if_not-seam p (reverse ys) y (reverse xs) (All-reverse _ ys hx) hy,
        )
        (drop-append _ (xs ++ y ∷ []) ys
          (omega (arith, length-append (xs ++ y ∷ []) ys, length-reverse ys)))

  -- A list that fails throughout, followed by one that passes: the search from the back finds the seam.
  pub last-find_if_not :
      (xs ys : Bytes)
      → All (λ c. p c ≡ false) xs
      → All (λ c. p c ≡ true) ys
      → last (find_if_not (reverse (xs ++ ys)) p) (xs ++ ys) ≡ ys
  last-find_if_not xs ys hx hy =
      rw
        (
          reverse-append xs ys,
          find_if_not-append p (reverse ys) (reverse xs) (All-reverse _ ys hy)
              (All-reverse _ xs hx),
        )
        (drop-append _ xs ys (omega (arith, length-append xs ys, length-reverse ys)))

  pub first-find_if_not :
      (xs ys : Bytes)
      → All (λ c. p c ≡ true) xs
      → All (λ c. p c ≡ false) ys
      → first (find_if_not (xs ++ ys) p) (xs ++ ys) ≡ xs
  first-find_if_not xs ys hx hy = take-append _ xs ys (find_if_not-append p xs ys hx hy)

-- `std::ranges::fill(pad, ' ')` for a pad of `n` bytes.
abbrev pub spaces : ℕ → Bytes
spaces n = replicate n b' '

pub length-spaces : (n : ℕ) → length (spaces n) ≡ n
length-spaces n = length-replicate {A = ℕ} n b' '

pub All-spaces : (p : ℕ → Bool) (n : ℕ) → p b' ' ≡ false → All (λ c. p c ≡ false) (spaces n)
All-spaces p n h = All-replicate _ n b' ' h
