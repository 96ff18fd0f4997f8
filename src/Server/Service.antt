-- ===== src/Server/Service.antt =====
-- include/bc/soup/server/server.h and src/server/server.cpp: the server, its acceptors and the tasks that
-- it posts. `E` is the type of Asio's endpoints, and `same` their comparison.
pub mod Stopping
use soupbintcp.Common.{
  ℕ, ◌+◌, Bool, true, false, not, ◌||◌, Option, none, some, List, [], ◌∷◌, ◌++◌, Bytes, length, map,
  if◌then◌else◌,
}
use soupbintcp.Error.{ErrorCode, success, failed, make_error_code, endpoint_in_use, handler_not_set}
use soupbintcp.Validate.{validate_session}
use soupbintcp.SocketAcceptor.{new_socket_acceptor}
use soupbintcp.Server.World
use soupbintcp.Server.Listening
use soupbintcp.Server.Listening.{Acceptor, Answers}

-- What the functions of the server post.
pub data Task : Type 0 where
  start_task end_session_task stop_task : Task

-- `posted` are the tasks that have not run yet, the first one first.
pub record Server (E : Type 0) : Type 0 where
  pub session : Bytes
  pub acceptors : List (Acceptor E)
  pub started : Bool
  pub posted : List Task

-- `expected<Acceptor*, std::error_code>`, with the place of the acceptor in the list.
pub data AddResult : Type 0 where
  added : ℕ → AddResult
  refused : ErrorCode → AddResult

module _ {E : Type 0} where
  unfoldable pub new_server : Server E
  new_server = record { session = []; acceptors = []; started = false; posted = [] }

  -- An acceptor reads the session of its server, which `world` repeats.
  unfoldable pub with_session : Bytes → Acceptor E → Acceptor E
  with_session session a = record a { world = record a.world { session = session } }

  unfoldable pub set_session : Server E → Bytes → Server E × ErrorCode
  set_session s session =
      let ec = validate_session session in
      if failed ec then (s, ec) else (
        record s { session = session; acceptors = map (with_session session) s.acceptors },
        success,
      )

  -- The constructor of `Acceptor`; `blank` has no port and no connection.
  unfoldable pub new_acceptor : World.World → Bytes → E → Option ℕ → Acceptor E
  new_acceptor blank session endpoint handler = record {
    world = record blank { session = session; ports = []; connections = []; calls = [] };
    handler = handler;
    endpoint = endpoint;
    acceptor = new_socket_acceptor;
    write_packets_limit = 100;
    debug_banner = [];
    setups = [];
  }

  unfoldable pub is_endpoint_used : (E → E → Bool) → E → List (Acceptor E) → Bool
  is_endpoint_used same endpoint [] = false
  is_endpoint_used same endpoint (a ∷ acceptors) =
      same endpoint a.endpoint || is_endpoint_used same endpoint acceptors

  unfoldable pub add_acceptor :
      (E → E → Bool) → World.World → Server E → E → Option ℕ → Server E × AddResult
  add_acceptor same blank s endpoint handler =
      if is_endpoint_used same endpoint s.acceptors
      then (s, refused (make_error_code endpoint_in_use))
      else (
        record s { acceptors = s.acceptors ++ new_acceptor blank s.session endpoint handler ∷ [] },
        added (length s.acceptors),
      )

  unfoldable pub are_handlers_set : List (Acceptor E) → Bool
  are_handlers_set [] = true
  are_handlers_set (a ∷ acceptors) =
      if not (Listening.is_handler_set a) then false else are_handlers_set acceptors

  unfoldable pub post : Server E → Task → Server E
  post s task = record s { posted = s.posted ++ task ∷ [] }

  unfoldable pub start : Server E → Server E × ErrorCode
  start s =
      if not (are_handlers_set s.acceptors)
      then (s, make_error_code handler_not_set)
      else (post s start_task, success)

  unfoldable pub end_session : Server E → Server E
  end_session s = post s end_session_task

  unfoldable pub stop : Server E → Server E
  stop s = post s stop_task

  -- The three posted functions. `asio` is what Asio answers to the acceptor of an endpoint.
  unfoldable pub run_task : (E → Answers E) → Server E → Task → Server E
  run_task asio s start_task = if s.started then s else record s {
    started = true;
    acceptors = map (λ a. Listening.start (asio a.endpoint) a) s.acceptors;
  }
  run_task asio s end_session_task =
      if not s.started then s else record s { acceptors = map Listening.end_session s.acceptors }
  run_task asio s stop_task =
      if not s.started
      then s
      else record s { started = false; acceptors = map Listening.stop s.acceptors }

  -- Asio runs the task that was posted first.
  unfoldable pub run_first : (E → Answers E) → Server E → List Task → Server E
  run_first asio s [] = s
  run_first asio s (task ∷ tasks) = run_task asio (record s { posted = tasks }) task

  unfoldable pub run_posted : (E → Answers E) → Server E → Server E
  run_posted asio s = run_first asio s s.posted
