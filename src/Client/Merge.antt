-- ===== src/Client/Merge.antt =====
-- How the errors of several connections become one: `priority_error` of src/client/client.cpp.
use soupbintcp.Common.{Bool, true, false, ◌||◌, List, [], ◌∷◌, if◌then◌else◌}
use soupbintcp.Types.{WriteError}

-- `==` of two enumerators.
abbrev pub error_eq : WriteError → WriteError → Bool
error_eq WriteError.none WriteError.none = true
error_eq WriteError.empty_buffer WriteError.empty_buffer = true
error_eq WriteError.null_buffer WriteError.null_buffer = true
error_eq WriteError.session_ended WriteError.session_ended = true
error_eq WriteError.disconnected WriteError.disconnected = true
error_eq WriteError.not_logged_in WriteError.not_logged_in = true
error_eq WriteError.buffer_full WriteError.buffer_full = true
error_eq _ _ = false

-- `std::ranges::contains`.
unfoldable pub contains : List WriteError → WriteError → Bool
contains [] e = false
contains (f ∷ errors) e = error_eq f e || contains errors e

unfoldable pub priority_error : List WriteError → WriteError
unfolding contains
priority_error errors =
    if contains errors WriteError.none
    then WriteError.none
    else if contains errors WriteError.buffer_full
    then WriteError.buffer_full
    else if contains errors WriteError.not_logged_in
    then WriteError.not_logged_in
    else WriteError.disconnected
