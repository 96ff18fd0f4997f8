-- ===== src/Constants.antt =====
-- include/bc/soup/constants.h. Lengths are in bytes, durations in seconds.
use soupbintcp.Common.{ℕ, ◌+◌, ◌^◌}

abbrev pub packet_size_length : ℕ
packet_size_length = 2

abbrev pub packet_type_length : ℕ
packet_type_length = 1

abbrev pub packet_header_length : ℕ
packet_header_length = packet_size_length + packet_type_length

abbrev pub username_length : ℕ
username_length = 6

abbrev pub password_length : ℕ
password_length = 10

abbrev pub session_length : ℕ
session_length = 10

abbrev pub sequence_number_length : ℕ
sequence_number_length = 20

abbrev pub heartbeat_period : ℕ
heartbeat_period = 1

abbrev pub client_heartbeat_timeout : ℕ
client_heartbeat_timeout = 15

abbrev pub server_heartbeat_timeout : ℕ
server_heartbeat_timeout = 5

abbrev pub login_request_timeout : ℕ
login_request_timeout = 30

abbrev pub login_response_timeout : ℕ
login_response_timeout = 10

abbrev pub reconnect_initial_delay : ℕ
reconnect_initial_delay = 1

abbrev pub reconnect_max_delay : ℕ
reconnect_max_delay = 30

abbrev pub reconnect_delay_multiplier : ℕ
reconnect_delay_multiplier = 2

-- The widths of the unsigned types of the program: a value stays below the modulus.
abbrev pub u8_mod : ℕ
u8_mod = 2 ^ 8

abbrev pub u16_mod : ℕ
u16_mod = 2 ^ 16

abbrev pub u32_mod : ℕ
u32_mod = 2 ^ 32

abbrev pub u64_mod : ℕ
u64_mod = 2 ^ 64
