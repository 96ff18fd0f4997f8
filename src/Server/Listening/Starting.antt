-- ===== src/Server/Listening/Starting.antt =====
-- How an acceptor starts.
use soupbintcp.Common.{◌≡◌, ◌⊎◌, true, some, List, [], ◌∷◌, if◌then◌else◌, arith}
use soupbintcp.Error.{ErrorCode, failed}
use soupbintcp.SocketAcceptor
use soupbintcp.Server.Listening.{
  Acceptor, Answers, Setup, Call, setup_failed, setup_succeeded, open_call, reuse_address_call,
  no_delay_call, bind_call, listen_call, start, start_reuse_address, start_no_delay, start_bind,
  start_listen, after_call, listening,
}

module _ {E : Type 0} where
  -- The calls of `start` in their order, each with what Asio answers to it.
  abbrev pub answered : Answers E → List (Call × ErrorCode)
  answered asio =
      (open_call, asio.open_error)
      ∷ (reuse_address_call, asio.reuse_address_error)
      ∷ (no_delay_call, asio.no_delay_error)
      ∷ (bind_call, asio.bind_error)
      ∷ (listen_call, asio.listen_error)
      ∷ []

  -- The first call of the list that fails, if one does.
  abbrev pub outcome : Answers E → List (Call × ErrorCode) → Setup E
  outcome asio [] = setup_succeeded asio.local_endpoint
  outcome asio ((name, ec) ∷ calls) = if failed ec then setup_failed ec name else outcome asio calls

  pub record IsStarted (asio : Answers E) (a a' : Acceptor E) : Type 0 where
    pub told : a'.setups ≡ outcome asio (answered asio) ∷ a.setups
    pub accepting :
        (a'.setups ≡ setup_succeeded asio.local_endpoint ∷ a.setups)
          × (a'.acceptor ≡ record {
            is_open = true;
            reuse_address = true;
            no_delay = true;
            bound = some a.endpoint;
            listening = true;
            accept_pending = true;
          })
        ⊎ (ec : ErrorCode) × (name : Call) × (a'.setups ≡ setup_failed ec name ∷ a.setups)
          × (a'.acceptor.accept_pending ≡ a.acceptor.accept_pending)
          × (a'.acceptor.listening ≡ a.acceptor.listening)
    pub untouched : a'.world ≡ a.world

  -- `start` of an acceptor tells its handler of the first of its five calls of Asio that fails,
  -- with that call and its error, or of the local endpoint if none does; in the latter case the
  -- acceptor is open, has both options, is bound to its endpoint, listens and waits for a
  -- connection; otherwise it neither listens nor waits unless it did before; its ports and
  -- connections stay as they are.
  pub start-IsStarted : (asio : Answers E) (a : Acceptor E) → IsStarted asio a (start asio a)
  unfolding start start_reuse_address start_no_delay start_bind start_listen after_call listening
      SocketAcceptor.open_acceptor SocketAcceptor.set_reuse_address SocketAcceptor.set_no_delay
      SocketAcceptor.bind SocketAcceptor.listen SocketAcceptor.async_accept
  start-IsStarted asio a = record {
    told = ground arith;
    accepting = ground arith;
    untouched = ground arith;
  }
