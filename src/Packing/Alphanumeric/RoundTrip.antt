-- ===== src/Packing/Alphanumeric/RoundTrip.antt =====
-- The alphanumeric fields: their length, and what is read back from them.
use soupbintcp.Common.{
  ℕ, ◌-◌, ◌≤◌, ◌≡◌, refl, sym, ap, ◌∙◌, false, [], ◌++◌, append-nil, Bytes, length, spaces,
  length-spaces, All-spaces, first-find_if_not, reverse, first, last, find_if_not, find_if_not-le,
  find_if_not-append, All-take-find_if_not, All-last-find_if_not, last-find_if_not, length-append,
  length-take, length-drop, take-append, take-all, arith,
}
use soupbintcp.Constants.{username_length, password_length, session_length}
use soupbintcp.Error.{success}
use soupbintcp.Validate.{is_alnum, validate_username, validate_password, validate_session}
use soupbintcp.Validate.Laws.{IsAlnum, Fits, validate_iff}
use soupbintcp.Packing.Alphanumeric.{
  truncate, keep_prefix, keep_suffix, pack_alphanumeric_right_padded,
  unpack_alphanumeric_right_padded, pack_alphanumeric_left_padded, unpack_alphanumeric_left_padded,
  pack_username, unpack_username, pack_password, unpack_password, pack_session, unpack_session,
}

-- `std::string_view` texts that the loops leave alone.
truncate-le : (size : ℕ) (str : Bytes) → length (truncate size str) ≤ size
unfolding truncate
truncate-le size str = ground (arith, length-take (length str - (length str - size)) str)

truncate_id : (size : ℕ) (str : Bytes) → length str ≤ size → truncate size str ≡ str
unfolding truncate
truncate_id size str h = ground arith

keep_prefix-IsAlnum : (str : Bytes) → IsAlnum (keep_prefix str)
unfolding keep_prefix
keep_prefix-IsAlnum str =
    let n : ℕ = find_if_not str is_alnum in
    let e : length str - (length str - n) ≡ n = omega (arith, find_if_not-le str is_alnum) in
    rw e (All-take-find_if_not is_alnum str)

keep_prefix-le : (str : Bytes) → length (keep_prefix str) ≤ length str
unfolding keep_prefix
keep_prefix-le str =
    omega (arith, length-take (length str - (length str - find_if_not str is_alnum)) str)

keep_suffix-IsAlnum : (str : Bytes) → IsAlnum (keep_suffix str)
unfolding keep_suffix
keep_suffix-IsAlnum str = All-last-find_if_not is_alnum str

keep_suffix-le : (str : Bytes) → length (keep_suffix str) ≤ length str
unfolding keep_suffix
keep_suffix-le str =
    omega (arith, length-drop (length str - find_if_not (reverse str) is_alnum) str)

keep_prefix_id : (str : Bytes) → IsAlnum str → keep_prefix str ≡ str
unfolding keep_prefix
keep_prefix_id str h =
    let e : find_if_not (str ++ []) is_alnum ≡ length str =
      find_if_not-append is_alnum str [] h tt in
    let e' : find_if_not str is_alnum ≡ length str =
      ap (λ s. find_if_not s is_alnum) (sym (append-nil str)) ∙ e in
    take-all _ str (omega (arith, e'))

-- Without padding the search from the back passes over all of the text.
keep_suffix_id : (str : Bytes) → IsAlnum str → keep_suffix str ≡ str
unfolding keep_suffix
keep_suffix_id str h = last-find_if_not is_alnum [] str tt h

space-not-alnum : is_alnum b' ' ≡ false
unfolding is_alnum
space-not-alnum = refl

module _ (size : ℕ) where
  -- What the field holds of the string.
  stored_prefix : Bytes → Bytes
  stored_prefix str = keep_prefix (truncate size str)

  stored_suffix : Bytes → Bytes
  stored_suffix str = keep_suffix (truncate size str)

  stored_prefix-le : (str : Bytes) → length (stored_prefix str) ≤ size
  unfolding stored_prefix
  stored_prefix-le str = omega (arith, keep_prefix-le (truncate size str), truncate-le size str)

  stored_suffix-le : (str : Bytes) → length (stored_suffix str) ≤ size
  unfolding stored_suffix
  stored_suffix-le str = omega (arith, keep_suffix-le (truncate size str), truncate-le size str)

  length-pack_right : (str : Bytes) → length (pack_alphanumeric_right_padded size str) ≡ size
  unfolding pack_alphanumeric_right_padded stored_prefix
  length-pack_right str =
      let text : Bytes = stored_prefix str in
      omega (
        arith,
        length-append text (spaces (size - length text)),
        length-spaces (size - length text),
        stored_prefix-le str,
      )

  length-pack_left : (str : Bytes) → length (pack_alphanumeric_left_padded size str) ≡ size
  unfolding pack_alphanumeric_left_padded stored_suffix
  length-pack_left str =
      let text : Bytes = stored_suffix str in
      omega (
        arith,
        length-append (spaces (size - length text)) text,
        length-spaces (size - length text),
        stored_suffix-le str,
      )

  -- A field followed by other bytes is read in front of `old`: right padding.
  unpack-pack_right :
      (str old rest : Bytes)
      → unpack_alphanumeric_right_padded size old (pack_alphanumeric_right_padded size str ++ rest)
        ≡ stored_prefix str ++ old
  unfolding unpack_alphanumeric_right_padded pack_alphanumeric_right_padded stored_prefix
  unpack-pack_right str old rest =
      let text : Bytes = stored_prefix str in
      rw (
        take-append size (pack_alphanumeric_right_padded size str) rest
            (sym (length-pack_right str)),
        first-find_if_not is_alnum text (spaces (size - length text))
            (keep_prefix-IsAlnum (truncate size str))
            (All-spaces is_alnum (size - length text) space-not-alnum),
      )

  unpack-pack_left :
      (str old rest : Bytes)
      → unpack_alphanumeric_left_padded size old (pack_alphanumeric_left_padded size str ++ rest)
        ≡ stored_suffix str ++ old
  unfolding unpack_alphanumeric_left_padded pack_alphanumeric_left_padded stored_suffix
  unpack-pack_left str old rest =
      let text : Bytes = stored_suffix str in
      rw (
        take-append size (pack_alphanumeric_left_padded size str) rest (sym (length-pack_left str)),
        last-find_if_not is_alnum (spaces (size - length text)) text
            (All-spaces is_alnum (size - length text) space-not-alnum)
            (keep_suffix-IsAlnum (truncate size str)),
      )

  -- Text that fits is stored whole.
  stored_prefix_id : (str : Bytes) → Fits size str → stored_prefix str ≡ str
  unfolding stored_prefix
  stored_prefix_id str h = rw (truncate_id size str h.0) (keep_prefix_id str h.1)

  stored_suffix_id : (str : Bytes) → Fits size str → stored_suffix str ≡ str
  unfolding stored_suffix
  stored_suffix_id str h = rw (truncate_id size str h.0) (keep_suffix_id str h.1)

-- Whatever the string is, a field has its fixed length: 6 bytes for a username, 10 for a password,
-- and 10 for a session name.
pub pack_length :
    (str : Bytes)
    → (length (pack_username str) ≡ username_length)
      × (length (pack_password str) ≡ password_length)
      × (length (pack_session str) ≡ session_length)
unfolding pack_username pack_password pack_session
pack_length str = (length-pack_right _ str, length-pack_right _ str, length-pack_left _ str)

-- A username that `validate_username` accepts is read back, whatever bytes follow the field; so is a
-- password that `validate_password` accepts, and a session name that `validate_session` accepts.
pub unpack-pack_valid :
    (str rest : Bytes)
    → (validate_username str ≡ success → unpack_username [] (pack_username str ++ rest) ≡ str)
      × (validate_password str ≡ success → unpack_password [] (pack_password str ++ rest) ≡ str)
      × (validate_session str ≡ success → unpack_session [] (pack_session str ++ rest) ≡ str)
unfolding pack_username unpack_username pack_password unpack_password pack_session unpack_session
unpack-pack_valid str rest =
    let (user, pass, name) = validate_iff str in
    (
      λ h. unpack-pack_right _ str [] rest ∙ append-nil _ ∙ stored_prefix_id _ str (user.0 h),
      λ h. unpack-pack_right _ str [] rest ∙ append-nil _ ∙ stored_prefix_id _ str (pass.0 h),
      λ h. unpack-pack_left _ str [] rest ∙ append-nil _ ∙ stored_suffix_id _ str (name.0 h),
    )

-- A field may hold any bytes, as a peer may send any: the text read from it passes validation.
pub unpack-validates :
    (bytes : Bytes)
    → (validate_username (unpack_username [] bytes) ≡ success)
      × (validate_password (unpack_password [] bytes) ≡ success)
      × (validate_session (unpack_session [] bytes) ≡ success)
unfolding unpack_username unpack_password unpack_session unpack_alphanumeric_right_padded
    unpack_alphanumeric_left_padded
unpack-validates bytes = (
  (validate_iff _).0.1 (prefix_Fits username_length),
  (validate_iff _).1.1 (prefix_Fits password_length),
  (validate_iff _).2.1 (suffix_Fits session_length),
)
  where
    prefix_Fits :
        (size : ℕ)
        → Fits size (first (find_if_not (first size bytes) is_alnum) (first size bytes) ++ [])
    prefix_Fits size =
        let s : Bytes = first size bytes in
        rw (append-nil (first (find_if_not s is_alnum) s)) (
          omega (arith, length-take (find_if_not s is_alnum) s, length-take size bytes),
          All-take-find_if_not is_alnum s,
        )

    suffix_Fits :
        (size : ℕ)
        → Fits size
            (last (find_if_not (reverse (first size bytes)) is_alnum) (first size bytes) ++ [])
    suffix_Fits size =
        let s : Bytes = first size bytes in
        let n : ℕ = find_if_not (reverse s) is_alnum in
        rw (append-nil (last n s)) (
          omega (arith, length-drop (length s - n) s, length-take size bytes),
          All-last-find_if_not is_alnum s,
        )
