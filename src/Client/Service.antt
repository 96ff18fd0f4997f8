-- ===== src/Client/Service.antt =====
-- src/client/client.cpp: the client with its connections, the tasks that it posts, and what it asks of all
-- connections. `E` is the type of Asio's endpoints, and `same` their comparison.
pub mod Stopping
use soupbintcp.Common.{
  ℕ, Bool, true, false, not, ◌&&◌, ◌||◌, Option, none, some, is_some, List, [], ◌∷◌, ◌++◌, Bytes,
  length, ◌==◌, if◌then◌else◌,
}
use soupbintcp.Error.{ErrorCode, success, make_error_code, endpoint_in_use, handler_not_set}
use soupbintcp.ReconnectTimer.{new_reconnect_timer}
use soupbintcp.Client.World
use soupbintcp.Client.World.{Asio, Connection, TcpConnection, put_connection}
use soupbintcp.Client.Reconnect
use soupbintcp.Client.Sending.{send_logout_request_on, send_debug_on}

-- What `start` and `stop` post.
pub data Task : Type 0 where
  start_task stop_task : Task

-- `handler_at` are the handlers of the connections, and `posted` the tasks that have not run yet, the first
-- one first.
pub record Client (E : Type 0) : Type 0 where
  pub world : World.World
  pub handler : Option ℕ
  pub handler_at : ℕ → Option ℕ
  pub endpoint_at : ℕ → E
  pub posted : List Task

-- `expected<Connection*, std::error_code>`.
pub data AddResult : Type 0 where
  added : ℕ → AddResult
  refused : ErrorCode → AddResult

-- The constructor of a connection; `link` is not read while there is no connection.
unfoldable pub new_connection : TcpConnection → Connection
new_connection link = record {
  username = [];
  password = [];
  session = [];
  next_sequence_number = 1;
  has_session_ended = false;
  connected = false;
  link = link;
  reconnect_timer = new_reconnect_timer;
  reconnect_next_delay = 0;
}

unfoldable pub connect_all : Asio → World.World → List ℕ → World.World
connect_all asio w [] = w
connect_all asio w (i ∷ connections) = connect_all asio (Reconnect.connect asio w i) connections

unfoldable pub close_all : World.World → List ℕ → World.World
close_all w [] = w
close_all w (i ∷ connections) = close_all (Reconnect.close w i) connections

unfoldable pub send_logout_requests : World.World → List ℕ → World.World
send_logout_requests w [] = w
send_logout_requests w (i ∷ connections) =
    send_logout_requests (send_logout_request_on w i).0 connections

unfoldable pub send_debugs : World.World → List ℕ → Bytes → World.World
send_debugs w [] text = w
send_debugs w (i ∷ connections) text = send_debugs (send_debug_on w i text).0 connections text

unfoldable pub are_handlers_set : (ℕ → Option ℕ) → List ℕ → Bool
are_handlers_set at [] = true
are_handlers_set at (i ∷ connections) = is_some (at i) && are_handlers_set at connections

module _ {E : Type 0} where
  unfoldable pub set_handler : Client E → ℕ → Client E
  set_handler c handler = record c { handler = some handler }

  unfoldable pub set_write_packets_limit : Client E → ℕ → Client E
  set_write_packets_limit c limit = record c {
    world = record c.world { write_packets_limit = limit };
  }

  unfoldable pub set_next_sequence_number : Client E → ℕ → Client E
  set_next_sequence_number c n = record c { world = record c.world { next_sequence_number = n } }

  -- `Connection::set_handler`.
  unfoldable pub set_connection_handler : Client E → ℕ → ℕ → Client E
  set_connection_handler c i handler = record c {
    handler_at = λ j. if i == j then some handler else c.handler_at j;
  }

  unfoldable pub is_endpoint_used : (E → E → Bool) → (ℕ → E) → E → List ℕ → Bool
  is_endpoint_used same at endpoint [] = false
  is_endpoint_used same at endpoint (i ∷ connections) =
      same endpoint (at i) || is_endpoint_used same at endpoint connections

  -- `i` is the number of the new connection.
  unfoldable pub add_connection :
      (E → E → Bool) → TcpConnection → Client E → ℕ → E → Option ℕ → Client E × AddResult
  add_connection same link c i endpoint handler =
      let made : World.World = put_connection c.world i (new_connection link) in
      if is_endpoint_used same c.endpoint_at endpoint c.world.connections
      then (c, refused (make_error_code endpoint_in_use))
      else (
        record c {
          world = record made { connections = c.world.connections ++ i ∷ [] };
          handler_at = λ j. if i == j then handler else c.handler_at j;
          endpoint_at = λ j. if i == j then endpoint else c.endpoint_at j;
        },
        added i,
      )

  unfoldable pub start : Client E → Client E × ErrorCode
  start c =
      if not (is_some c.handler)
      then (c, make_error_code handler_not_set)
      else if not (are_handlers_set c.handler_at c.world.connections)
      then (c, make_error_code handler_not_set)
      else (record c { posted = c.posted ++ start_task ∷ [] }, success)

  unfoldable pub stop : Client E → Client E
  stop c = record c { posted = c.posted ++ stop_task ∷ [] }

  unfoldable pub send_logout_request : Client E → Client E
  send_logout_request c = record c { world = send_logout_requests c.world c.world.connections }

  unfoldable pub send_debug : Client E → Bytes → Client E
  send_debug c text = record c { world = send_debugs c.world c.world.connections text }

  -- The two posted functions.
  unfoldable pub run_task : Asio → Client E → Task → Client E
  run_task asio c start_task =
      let w : World.World = record c.world { started = true } in
      if c.world.started then c else record c { world = connect_all asio w w.connections }
  run_task asio c stop_task =
      let w : World.World = record c.world { started = false } in
      if not c.world.started then c else record c { world = close_all w w.connections }

  unfoldable pub run_first : Asio → Client E → List Task → Client E
  run_first asio c [] = c
  run_first asio c (task ∷ tasks) = run_task asio (record c { posted = tasks }) task
