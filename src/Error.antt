-- ===== src/Error.antt =====
-- include/bc/soup/error.h and src/error.cpp: the error codes of the library and their category.
-- `ErrorCode` is `std::error_code` (and `asio::error_code`, the same type): no error, an error of
-- this library, an `errno` value of the system category, or Asio's end of file.
use soupbintcp.Common.{ℕ, Bool, true, false}
use Prim.Native.String.{String}

pub data Error : Type 0 where
  username_too_long invalid_username password_too_long invalid_password session_too_long
        invalid_session endpoint_in_use username_in_use handler_not_set :
      Error

pub data ErrorCode : Type 0 where
  success : ErrorCode
  soup : Error → ErrorCode
  system : ℕ → ErrorCode
  end_of_file : ErrorCode

-- `make_error_code`, which also converts an `Error` implicitly.
abbrev pub make_error_code : Error → ErrorCode
make_error_code e = soup e

-- `if (ec)`.
abbrev pub failed : ErrorCode → Bool
failed success = false
failed (soup e) = true
failed (system n) = true
failed end_of_file = true

-- ECANCELED on Linux; `asio::error::operation_aborted` is this code on POSIX systems.
abbrev pub canceled : ℕ
canceled = 125

abbrev pub operation_aborted : ErrorCode
operation_aborted = system canceled

-- The numbers of the enumerators: the first is 1, since 0 stands for no error.
pub error_value : Error → ℕ
error_value username_too_long = 1
error_value invalid_username = 2
error_value password_too_long = 3
error_value invalid_password = 4
error_value session_too_long = 5
error_value invalid_session = 6
error_value endpoint_in_use = 7
error_value username_in_use = 8
error_value handler_not_set = 9

pub message : Error → String
message username_too_long = "username too long"
message invalid_username = "invalid username"
message password_too_long = "password too long"
message invalid_password = "invalid password"
message session_too_long = "session too long"
message invalid_session = "invalid session"
message endpoint_in_use = "endpoint in use"
message username_in_use = "username in use"
message handler_not_set = "handler not set"

-- `std::error_condition`: a portable condition, or the error in its own category.
pub data ErrorCondition : Type 0 where
  invalid_argument address_in_use : ErrorCondition
  own : Error → ErrorCondition

pub default_error_condition : Error → ErrorCondition
default_error_condition username_too_long = invalid_argument
default_error_condition invalid_username = invalid_argument
default_error_condition password_too_long = invalid_argument
default_error_condition invalid_password = invalid_argument
default_error_condition session_too_long = invalid_argument
default_error_condition invalid_session = invalid_argument
default_error_condition endpoint_in_use = address_in_use
default_error_condition username_in_use = own username_in_use
default_error_condition handler_not_set = own handler_not_set
