-- ===== src/Server/Port/Session.antt =====
-- A login to a port: when it is accepted, and that an account has at most one live connection.
use soupbintcp.Common.{ℕ, ◌≡◌, Option, none, some, arith, refl, ◌≢◌}
use soupbintcp.Types.{DisconnectReason}
use soupbintcp.LogicalPackets.{LoginRequestPacket}
use soupbintcp.ConnectionState
use soupbintcp.ConnectionState.{disconnected}
use soupbintcp.Server.World.{World, put_port, TcpConnection}
use soupbintcp.Server.Link
use soupbintcp.Server.Port.{on_login_request, supersede_attached, rewind, attach}

-- A connection of the account that is not disconnected is the one that the port points to.
pub record IsExclusive (w : World) : Type 0 where
  pub single :
      (i p : ℕ)
      → (w.connection_at i).port ≡ some p
      → (w.connection_at i).state.state ≢ disconnected
      → (w.port_at p).connection ≡ some i

pub superseded :
    (c : TcpConnection)
    → (Link.disconnected c DisconnectReason.superseded).state.state ≡ disconnected
unfolding Link.disconnected ConnectionState.disconnect
superseded c = ground arith

same_port : (c : TcpConnection) → (Link.disconnected c DisconnectReason.superseded).port ≡ c.port
unfolding Link.disconnected
same_port c = ground arith

-- No live connection points to the port `p`.
pub record IsFree (w : World) (p : ℕ) : Type 0 where
  pub others :
      (k : ℕ) → (w.connection_at k).state.state ≢ disconnected → (w.connection_at k).port ≢ some p

supersede-IsExclusive : (w : World) (j : ℕ) → IsExclusive w → IsExclusive (Link.supersede w j)
unfolding Link.supersede Link.disconnect
supersede-IsExclusive w j h = record {
  single = λ k q a b.
      let same = same_port (w.connection_at j) in
      let gone = superseded (w.connection_at j) in let old = h.single k q in ground arith;
}

supersede-IsFree :
    (w : World) (p j : ℕ)
    → IsExclusive w
    → (w.port_at p).connection ≡ some j
    → IsFree (Link.supersede w j) p
unfolding Link.supersede Link.disconnect
supersede-IsFree w p j h attached = record {
  others = λ k a b.
      let same = same_port (w.connection_at j) in
      let gone = superseded (w.connection_at j) in let old = h.single k p in ground arith;
}

pub attach-IsExclusive :
    (w : World) (p i : ℕ) → IsExclusive w → IsFree w p → IsExclusive (attach w p i)
unfolding attach
attach-IsExclusive w p i h free = record {
  single = λ k q a b. let old = h.single k q in let other = free.others k in ground arith;
}

pub put_number-IsExclusive :
    (w : World) (p n : ℕ)
    → IsExclusive w
    → IsExclusive (put_port w p (record (w.port_at p) { next_sequence_number = n }))
put_number-IsExclusive w p n h = record {
  single = λ k q a b. let old = h.single k q in ground arith;
}

pub supersede_attached-lem :
    (w : World) (p : ℕ) (o : Option ℕ)
    → IsExclusive w
    → (w.port_at p).connection ≡ o
    → IsExclusive (supersede_attached w o) × IsFree (supersede_attached w o) p
unfolding supersede_attached
supersede_attached-lem w p none h e =
    (h, record { others = λ k a b. let old = h.single k p in ground arith })
supersede_attached-lem w p (some j) h e = (supersede-IsExclusive w j h, supersede-IsFree w p j h e)

-- A login request keeps it that way, whether it is accepted or not: every connection of an account
-- that is not disconnected is the one that the port of the account points to, so there is at most
-- one.
pub on_login_request-IsExclusive :
    (w : World) (p i : ℕ) (request : LoginRequestPacket)
    → IsExclusive w
    → IsExclusive (on_login_request w p i request).0
unfolding on_login_request
on_login_request-IsExclusive w p i request h =
    let (exclusive, free) = supersede_attached-lem w p _ h refl in
    let attached =
      attach-IsExclusive (supersede_attached w (w.port_at p).connection) p i exclusive free in
    let counted =
      put_number-IsExclusive _ p
        (rewind request.next_sequence_number (w.port_at p).next_sequence_number) attached in
    ground arith
