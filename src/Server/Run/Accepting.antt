-- ===== src/Server/Run/Accepting.antt =====
-- A connection that a running acceptor accepts.
use soupbintcp.Common.{
  ℕ, ◌≡◌, refl, true, false, not, ◌==◌, none, List, [], ◌∷◌, ◌++◌, Bytes, length, arith,
}
use soupbintcp.Socket
use soupbintcp.Socket.{Socket}
use soupbintcp.LoginTimer.Keeping as LoginKeeping
use soupbintcp.Server.World.{
  World, TcpConnection, Asio, put_connection, connection_accepted, call_acceptor,
}
use soupbintcp.Server.TcpConnection.{login_owner, construct}
use soupbintcp.Server.Acceptor
use soupbintcp.Server.Run.{is_listed}
use soupbintcp.Server.Run.Sound.{IsSound, IsQuiet-IsSound, if-I}
use soupbintcp.Server.Run.Quiet.{call_either-IsQuiet, send_debug_packet-IsQuiet}
use soupbintcp.Server.Run.Ends.{login_owner-Keeps}
use soupbintcp.Server.Run.Packets.{read_on-IsQuiet}

is_listed-append :
    (i j : ℕ) (list : List ℕ) → is_listed i list ≡ true → is_listed i (list ++ j ∷ []) ≡ true
is_listed-append i j [] h = ground arith
is_listed-append i j (k ∷ list) h = let rest = is_listed-append i j list in ground arith

-- A connection that has just been accepted, under a number that no connection has.
created-IsSound :
    (w : World) (i : ℕ) (c : TcpConnection)
    → IsSound w
    → is_listed i w.connections ≡ false
    → c.port ≡ none
    → c.socket.closing ≡ false
    → c.socket.closed_signaled ≡ false
    → c.socket_closed ≡ false
    → IsSound (put_connection (record w { connections = w.connections ++ i ∷ [] }) i c)
created-IsSound w i c h new blank open_still unsignaled unclosed = record {
  single = record { single = λ k p at alive. let old = h.single.single k p in ground arith };
  sane = λ k.
      let old = h.sane k in
      record { closing = ground arith; signaled = ground arith; ended = ground arith };
  fresh = λ k p e at. let old = h.fresh k p in let listed = h.live k p at in ground arith;
  back = λ k p at. let old = h.back k p at in let listed = h.live k p at in ground arith;
  live = λ k p at. is_listed-append k i w.connections (h.live k p at);
}

construct-IsSound :
    (asio : Asio) (w : World) (i : ℕ) (s : Socket)
    → IsSound w
    → is_listed i w.connections ≡ false
    → s.closing ≡ false
    → s.closed_signaled ≡ false
    → IsSound (construct asio (record w { connections = w.connections ++ i ∷ [] }) i s)
unfolding construct
construct-IsSound asio w i s h new open_still unsignaled =
    let created = created-IsSound w i _ h new refl open_still unsignaled refl in
    let timed =
      LoginKeeping.start-I (login_owner i) IsSound (login_owner-Keeps i) _ asio.login_expires
        created in
    IsQuiet-IsSound (read_on-IsQuiet _ i) timed

pub accept_success-IsSound :
    (asio : Asio) (w : World) (i limit : ℕ) (banner : Bytes)
    → IsSound w
    → is_listed i w.connections ≡ false
    → IsSound (Acceptor.accept_success asio w i limit banner)
unfolding Acceptor.accept_success Socket.set_write_packets_limit Socket.new_socket
accept_success-IsSound asio w i limit banner h new =
    let told = IsQuiet-IsSound (call_either-IsQuiet w none connection_accepted) h in
    let made =
      construct-IsSound asio (call_acceptor w connection_accepted) i _ told new refl refl in
    if-I IsSound (not (length banner == 0)) _ _
      (IsQuiet-IsSound (send_debug_packet-IsQuiet _ i banner) made) made
