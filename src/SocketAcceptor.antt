-- ===== src/SocketAcceptor.antt =====
-- include/bc/soup/socket_acceptor.h and src/socket_acceptor.cpp: what is asked of Asio's acceptor, and
-- the completion of an accept. What Asio answers is an argument, and `E` is the type of its endpoints.
use soupbintcp.Common.{Bool, true, false, not, Option, none, some, if◌then◌else◌}
use soupbintcp.Error.{ErrorCode, failed}
use soupbintcp.Socket.{is_aborted}

-- What has been asked of Asio without an error; `accept_pending` says that it holds a completion handler.
pub record SocketAcceptor (E : Type 0) : Type 0 where
  pub is_open : Bool
  pub reuse_address : Bool
  pub no_delay : Bool
  pub bound : Option E
  pub listening : Bool
  pub accept_pending : Bool

pub record Owner (W E : Type 0) : Type 0 where
  pub get : W → SocketAcceptor E
  pub put : W → SocketAcceptor E → W
  pub accept_failure : W → ErrorCode → W
  pub accept_success : W → W

module _ {E : Type 0} where
  unfoldable pub new_socket_acceptor : SocketAcceptor E
  new_socket_acceptor = record {
    is_open = false;
    reuse_address = false;
    no_delay = false;
    bound = none;
    listening = false;
    accept_pending = false;
  }

  unfoldable pub open_acceptor : SocketAcceptor E → ErrorCode → SocketAcceptor E × ErrorCode
  open_acceptor a ec = (if failed ec then a else record a { is_open = true }, ec)

  unfoldable pub bind : SocketAcceptor E → E → ErrorCode → SocketAcceptor E × ErrorCode
  bind a endpoint ec = (if failed ec then a else record a { bound = some endpoint }, ec)

  unfoldable pub listen : SocketAcceptor E → ErrorCode → SocketAcceptor E × ErrorCode
  listen a ec = (if failed ec then a else record a { listening = true }, ec)

  -- Asio's acceptor is closed whatever error its `close` reports.
  unfoldable pub close : SocketAcceptor E → SocketAcceptor E
  close a = if a.is_open then record a { is_open = false; bound = none; listening = false } else a

  unfoldable pub set_reuse_address : SocketAcceptor E → ErrorCode → SocketAcceptor E × ErrorCode
  set_reuse_address a ec = (if failed ec then a else record a { reuse_address = true }, ec)

  unfoldable pub set_no_delay : SocketAcceptor E → ErrorCode → SocketAcceptor E × ErrorCode
  set_no_delay a ec = (if failed ec then a else record a { no_delay = true }, ec)

  unfoldable pub async_accept : SocketAcceptor E → SocketAcceptor E
  async_accept a = record a { accept_pending = true }

-- The completion handler given to `async_accept`.
unfoldable pub accept_completed : {W E : Type 0} → Owner W E → W → ErrorCode → W
accept_completed o w ec =
    let w' = o.put w (record (o.get w) { accept_pending = false }) in
    if failed ec
    then if not (is_aborted ec) then o.accept_failure w' ec else w'
    else o.accept_success w'
