-- ===== src/Validate/Laws.antt =====
-- What the checks of src/validate.cpp accept.
use soupbintcp.Common.{
  ℕ, ◌≤◌, ◌≡◌, refl, true, ◌↔◌, [], ◌∷◌, Bytes, length, All, arith, ltb, if◌then◌else◌, not,
}
use soupbintcp.Constants.{username_length, password_length, session_length}
use soupbintcp.Error.{
  success, make_error_code, Error, username_too_long, invalid_username, password_too_long,
  invalid_password, session_too_long, invalid_session,
}
use soupbintcp.Validate.{
  is_alnum, is_valid_string, validate_username, validate_password, validate_session,
}

abbrev pub IsAlnum : Bytes → Type 0
IsAlnum = All (λ c. is_alnum c ≡ true)

-- Text that fits a field of the given length: not too long, and alphanumeric.
abbrev pub Fits : ℕ → Bytes → Type 0
Fits size str = (length str ≤ size) × IsAlnum str

is_valid_string-IsAlnum : (str : Bytes) → is_valid_string str ≡ true → IsAlnum str
unfolding is_valid_string
is_valid_string-IsAlnum [] h = tt
is_valid_string-IsAlnum (c ∷ str) h = ground (arith, is_valid_string-IsAlnum str)

IsAlnum-is_valid_string : (str : Bytes) → IsAlnum str → is_valid_string str ≡ true
unfolding is_valid_string
IsAlnum-is_valid_string [] h = refl
IsAlnum-is_valid_string (c ∷ str) h = ground (arith, IsAlnum-is_valid_string str h.1)

-- The shape that the three checks share.
checked_iff :
    (size : ℕ) (too_long invalid : Error) (str : Bytes)
    → ((if ltb size (length str)
          then make_error_code too_long
          else if not (is_valid_string str)
          then make_error_code invalid
          else success)
        ≡ success)
      ↔ Fits size str
checked_iff size too_long invalid str =
    (accepted, λ h. ground (arith, IsAlnum-is_valid_string str h.1))
  where
    accepted :
        (if ltb size (length str)
            then make_error_code too_long
            else if not (is_valid_string str)
            then make_error_code invalid
            else success)
          ≡ success
        → Fits size str
    accepted h = (ground arith, ground (arith, is_valid_string-IsAlnum str))

-- A username, a password and a session name are accepted exactly when every byte is alphanumeric and
-- there are at most 6, 10 and 10 bytes.
pub validate_iff :
    (str : Bytes)
    → ((validate_username str ≡ success) ↔ Fits username_length str)
      × ((validate_password str ≡ success) ↔ Fits password_length str)
      × ((validate_session str ≡ success) ↔ Fits session_length str)
unfolding validate_username validate_password validate_session
validate_iff str = (
  checked_iff username_length username_too_long invalid_username str,
  checked_iff password_length password_too_long invalid_password str,
  checked_iff session_length session_too_long invalid_session str,
)
