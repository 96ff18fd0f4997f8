-- ===== src/Validate.antt =====
-- src/validate.cpp: the checks of a username, a password and a session name.
pub mod Laws
use soupbintcp.Common.{
  ℕ, Bool, true, false, not, ◌&&◌, ◌||◌, [], ◌∷◌, Bytes, length, ltb, leb, if◌then◌else◌,
}
use soupbintcp.Constants.{username_length, password_length, session_length}
use soupbintcp.Error.{
  ErrorCode, success, make_error_code, username_too_long, invalid_username, password_too_long,
  invalid_password, session_too_long, invalid_session,
}

-- `std::isdigit` and `std::isalnum` in the C locale.
unfoldable pub is_digit : ℕ → Bool
is_digit c = leb b'0' c && leb c b'9'

unfoldable pub is_alnum : ℕ → Bool
unfolding is_digit
is_alnum c = is_digit c || leb b'A' c && leb c b'Z' || leb b'a' c && leb c b'z'

unfoldable pub is_valid_string : Bytes → Bool
is_valid_string [] = true
is_valid_string (c ∷ str) = if not (is_alnum c) then false else is_valid_string str

unfoldable pub validate_username : Bytes → ErrorCode
validate_username username =
    if ltb username_length (length username)
    then make_error_code username_too_long
    else if not (is_valid_string username)
    then make_error_code invalid_username
    else success

unfoldable pub validate_password : Bytes → ErrorCode
validate_password password =
    if ltb password_length (length password)
    then make_error_code password_too_long
    else if not (is_valid_string password)
    then make_error_code invalid_password
    else success

unfoldable pub validate_session : Bytes → ErrorCode
validate_session session =
    if ltb session_length (length session)
    then make_error_code session_too_long
    else if not (is_valid_string session)
    then make_error_code invalid_session
    else success
