-- ===== src/Server/Listening.antt =====
-- src/server/acceptor.cpp: an acceptor with its listening socket, how it starts, accepts and stops. What
-- it does to its ports and connections is in Server.Acceptor.
pub mod Starting
use soupbintcp.Common.{
  ℕ, Bool, true, false, not, ◌&&◌, Option, none, some, is_some, List, [], ◌∷◌, Bytes, if◌then◌else◌,
}
use soupbintcp.Error.{ErrorCode, failed}
use soupbintcp.SocketAcceptor
use soupbintcp.SocketAcceptor.{SocketAcceptor, new_socket_acceptor}
use soupbintcp.Server.World
use soupbintcp.Server.World.{Port, TcpConnection}
use soupbintcp.Server.Acceptor as Inner

-- The calls of `Acceptor::start`, which `listen_setup_failure` names.
pub data Call : Type 0 where
  open_call reuse_address_call no_delay_call bind_call listen_call : Call

-- What the handler is told of the setup.
pub data Setup (E : Type 0) : Type 0 where
  setup_failed : ErrorCode → Call → Setup E
  setup_succeeded : E → Setup E

-- `world` has the ports and the connections; `setups` is what the handler was told, the latest first.
pub record Acceptor (E : Type 0) : Type 0 where
  pub world : World.World
  pub handler : Option ℕ
  pub endpoint : E
  pub acceptor : SocketAcceptor E
  pub write_packets_limit : ℕ
  pub debug_banner : Bytes
  pub setups : List (Setup E)

-- What Asio answers to the calls of `start`, and the local endpoint afterwards.
pub record Answers (E : Type 0) : Type 0 where
  pub open_error : ErrorCode
  pub reuse_address_error : ErrorCode
  pub no_delay_error : ErrorCode
  pub bind_error : ErrorCode
  pub listen_error : ErrorCode
  pub local_endpoint : E

module _ {E : Type 0} where
  unfoldable pub set_handler : Acceptor E → ℕ → Acceptor E
  set_handler a handler = record a { handler = some handler }

  unfoldable pub set_write_packets_limit : Acceptor E → ℕ → Acceptor E
  set_write_packets_limit a limit = record a { write_packets_limit = limit }

  unfoldable pub set_debug_banner : Acceptor E → Bytes → Acceptor E
  set_debug_banner a banner = record a { debug_banner = banner }

  unfoldable pub is_handler_set : Acceptor E → Bool
  is_handler_set a = is_some a.handler && Inner.are_handlers_set a.world.port_at a.world.ports

  -- A call of `start`: its failure is told, or the next one is made.
  unfoldable pub after_call :
      Acceptor E → Call → (Acceptor E → Acceptor E) → SocketAcceptor E × ErrorCode → Acceptor E
  after_call a name next (s, ec) =
      if failed ec
      then record a { acceptor = s; setups = setup_failed ec name ∷ a.setups }
      else next (record a { acceptor = s })

  -- `start` behind its last call.
  unfoldable pub listening : E → Acceptor E → Acceptor E
  listening endpoint a = record a {
    acceptor = SocketAcceptor.async_accept a.acceptor;
    setups = setup_succeeded endpoint ∷ a.setups;
  }

  -- `start` from each of its calls on.
  unfoldable pub start_listen : Answers E → Acceptor E → Acceptor E
  start_listen asio a =
      after_call a listen_call (listening asio.local_endpoint)
        (SocketAcceptor.listen a.acceptor asio.listen_error)

  unfoldable pub start_bind : Answers E → Acceptor E → Acceptor E
  start_bind asio a =
      after_call a bind_call (start_listen asio)
        (SocketAcceptor.bind a.acceptor a.endpoint asio.bind_error)

  unfoldable pub start_no_delay : Answers E → Acceptor E → Acceptor E
  start_no_delay asio a =
      after_call a no_delay_call (start_bind asio)
        (SocketAcceptor.set_no_delay a.acceptor asio.no_delay_error)

  unfoldable pub start_reuse_address : Answers E → Acceptor E → Acceptor E
  start_reuse_address asio a =
      after_call a reuse_address_call (start_no_delay asio)
        (SocketAcceptor.set_reuse_address a.acceptor asio.reuse_address_error)

  unfoldable pub start : Answers E → Acceptor E → Acceptor E
  start asio a =
      after_call a open_call (start_reuse_address asio)
        (SocketAcceptor.open_acceptor a.acceptor asio.open_error)

  unfoldable pub accept_failure : Acceptor E → ErrorCode → Acceptor E
  accept_failure a ec = record a {
    world = Inner.accept_failure a.world ec;
    acceptor = SocketAcceptor.async_accept a.acceptor;
  }

  -- `i` is the number of the new connection.
  unfoldable pub accept_success : World.Asio → ℕ → Acceptor E → Acceptor E
  accept_success asio i a = record a {
    world = Inner.accept_success asio a.world i a.write_packets_limit a.debug_banner;
    acceptor = SocketAcceptor.async_accept a.acceptor;
  }

  unfoldable pub socket_owner : World.Asio → ℕ → SocketAcceptor.Owner (Acceptor E) E
  socket_owner asio i = record {
    get = λ a. a.acceptor;
    put = λ a s. record a { acceptor = s };
    accept_failure = accept_failure;
    accept_success = accept_success asio i;
  }

  unfoldable pub end_session : Acceptor E → Acceptor E
  end_session a = record a { world = Inner.end_session a.world }

  unfoldable pub stop : Acceptor E → Acceptor E
  stop a = record a { acceptor = SocketAcceptor.close a.acceptor; world = Inner.stop a.world }
