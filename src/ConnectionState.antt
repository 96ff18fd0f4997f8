-- ===== src/ConnectionState.antt =====
-- include/bc/soup/connection_state.h and src/connection_state.cpp: the state of a connection and the
-- reason of its end.
pub mod Laws
use soupbintcp.Common.{Bool, true, false, ◌||◌, if◌then◌else◌}
use soupbintcp.Types.{DisconnectReason}

pub data State : Type 0 where
  connecting connected logged_in disconnecting disconnected : State

pub record ConnectionState : Type 0 where
  pub state : State
  pub reason : DisconnectReason

-- The comparison `state_ == State::…`.
abbrev pub state_eq : State → State → Bool
state_eq connecting connecting = true
state_eq connected connected = true
state_eq logged_in logged_in = true
state_eq disconnecting disconnecting = true
state_eq disconnected disconnected = true
state_eq _ _ = false

abbrev pub is_none : DisconnectReason → Bool
is_none DisconnectReason.none = true
is_none _ = false

-- `Connection_state(state)`; the default is `connecting`.
unfoldable pub new_connection_state : State → ConnectionState
new_connection_state state = record { state = state; reason = DisconnectReason.none }

unfoldable pub set_state : ConnectionState → State → ConnectionState
set_state c state = record c { state = state }

unfoldable pub is_closing : ConnectionState → Bool
is_closing c = state_eq c.state disconnecting || state_eq c.state disconnected

-- The result says whether the state changed.
unfoldable pub initiate_disconnect : ConnectionState → DisconnectReason → ConnectionState × Bool
unfolding is_closing
initiate_disconnect c pending_reason =
    if is_closing c
    then (c, false)
    else (record { state = disconnecting; reason = pending_reason }, true)

unfoldable pub disconnect : ConnectionState → DisconnectReason → ConnectionState × Bool
disconnect c observed_reason = if state_eq c.state disconnected then (c, false) else (
  record { state = disconnected; reason = if is_none c.reason then observed_reason else c.reason },
  true,
)
