-- ===== src/Packing/Alphanumeric.antt =====
-- The alphanumeric fields of src/packing.cpp: username and password are padded on the right with
-- spaces, a session name on the left.
pub mod RoundTrip
use soupbintcp.Common.{
  ℕ, ◌-◌, ◌++◌, Bytes, length, spaces, reverse, first, last, remove_suffix, remove_prefix,
  find_if_not, ltb, if◌then◌else◌,
}
use soupbintcp.Constants.{username_length, password_length, session_length}
use soupbintcp.Validate.{is_alnum}

-- `if (str.size() > s.size()) str.remove_suffix(str.size() - s.size());`
truncate : ℕ → Bytes → Bytes
truncate size str = if ltb size (length str) then remove_suffix (length str - size) str else str

-- The alphanumeric bytes that the string begins with.
keep_prefix : Bytes → Bytes
keep_prefix str = remove_suffix (length str - find_if_not str is_alnum) str

-- The alphanumeric bytes that the string ends with: `find_if_not(str.rbegin(), str.rend(), …)`.
keep_suffix : Bytes → Bytes
keep_suffix str = remove_prefix (length str - find_if_not (reverse str) is_alnum) str

unfoldable pub pack_alphanumeric_right_padded : ℕ → Bytes → Bytes
unfolding truncate keep_prefix
pack_alphanumeric_right_padded size str =
    let text : Bytes = keep_prefix (truncate size str) in text ++ spaces (size - length text)

-- `str.insert_range(str.begin(), sub)`: the field goes in front of what the string held.
unfoldable pub unpack_alphanumeric_right_padded : ℕ → Bytes → Bytes → Bytes
unpack_alphanumeric_right_padded size str bytes =
    let s : Bytes = first size bytes in first (find_if_not s is_alnum) s ++ str

unfoldable pub pack_alphanumeric_left_padded : ℕ → Bytes → Bytes
unfolding truncate keep_suffix
pack_alphanumeric_left_padded size str =
    let text : Bytes = keep_suffix (truncate size str) in spaces (size - length text) ++ text

unfoldable pub unpack_alphanumeric_left_padded : ℕ → Bytes → Bytes → Bytes
unpack_alphanumeric_left_padded size str bytes =
    let s : Bytes = first size bytes in last (find_if_not (reverse s) is_alnum) s ++ str

unfoldable pub pack_username : Bytes → Bytes
pack_username = pack_alphanumeric_right_padded username_length

unfoldable pub unpack_username : Bytes → Bytes → Bytes
unpack_username = unpack_alphanumeric_right_padded username_length

unfoldable pub pack_password : Bytes → Bytes
pack_password = pack_alphanumeric_right_padded password_length

unfoldable pub unpack_password : Bytes → Bytes → Bytes
unpack_password = unpack_alphanumeric_right_padded password_length

unfoldable pub pack_session : Bytes → Bytes
pack_session = pack_alphanumeric_left_padded session_length

unfoldable pub unpack_session : Bytes → Bytes → Bytes
unpack_session = unpack_alphanumeric_left_padded session_length
