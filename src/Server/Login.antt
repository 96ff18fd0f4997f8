-- ===== src/Server/Login.antt =====
-- What a connection asks of its acceptor: `on_login_request` and `on_closed` of
-- src/server/acceptor.cpp.
use soupbintcp.Common.{ℕ, Option, none, some, List, [], ◌∷◌, Bytes, bytes_eq, ◌==◌, if◌then◌else◌}
use soupbintcp.Types.{DisconnectReason, LoginRejectReason}
use soupbintcp.LogicalPackets.{LoginRequestPacket, rejected_not_authorized}
use soupbintcp.Server.World.{World, Port, call_either, connection_ended}
use soupbintcp.Server.Port
use soupbintcp.Server.Port.{LoginResult, rejected}

-- `std::find_if` over `ports_`.
unfoldable pub find_port : (ℕ → Port) → List ℕ → Bytes → Option ℕ
find_port at [] username = none
find_port at (p ∷ ports) username =
    if bytes_eq username (at p).username then some p else find_port at ports username

unfoldable pub on_login_request : World → ℕ → LoginRequestPacket → World × LoginResult
on_login_request w i request = elim (find_port w.port_at w.ports request.username) [
  | none ↦
      (w, rejected LoginRejectReason.user_not_found (record { reason = rejected_not_authorized }))
  | some p ↦ Port.on_login_request w p i request
]

-- `std::list::remove_if`.
unfoldable pub remove : ℕ → List ℕ → List ℕ
remove i [] = []
remove i (j ∷ connections) = if i == j then remove i connections else j ∷ remove i connections

unfoldable pub on_closed : World → ℕ → Option ℕ → DisconnectReason → World
on_closed w i handler reason =
    call_either (record w { connections = remove i w.connections }) handler
      (connection_ended reason)
