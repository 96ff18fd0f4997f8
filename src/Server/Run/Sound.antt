-- ===== src/Server/Run/Sound.antt =====
-- What holds in every state of a running acceptor, and the changes that keep it.
use soupbintcp.Common.{
  ℕ, ◌≡◌, ◌≢◌, refl, ◌∙◌, sym, true, false, some, inl, inr, ◌==◌, ==_iff, Bool, Bool-cases,
  if◌then◌else◌, arith,
}
use soupbintcp.Types.{PacketError}
use soupbintcp.ConnectionState.{connected, disconnected}
use soupbintcp.Server.World.{World, TcpConnection, put_connection, put_port, Port}
use soupbintcp.Server.Port.Session.{IsExclusive}
use soupbintcp.Server.Run.{is_listed}

-- A connection the socket of which is closing, or has been signalled as closed, is disconnected.
pub record IsSane (c : TcpConnection) : Type 0 where
  pub closing : c.socket.closing ≡ true → c.state.state ≡ disconnected
  pub signaled : c.socket.closed_signaled ≡ true → c.socket.closing ≡ true
  pub ended : c.socket_closed ≡ true → c.state.state ≡ disconnected

-- The pointers of ports and connections fit together.
pub record IsSound (w : World) : Type 0 where
  pub single : IsExclusive w
  pub sane : (i : ℕ) → IsSane (w.connection_at i)
  pub fresh :
      (i p : ℕ) → (w.connection_at i).state.state ≡ connected → (w.port_at p).connection ≢ some i
  pub back : (i p : ℕ) → (w.port_at p).connection ≡ some i → (w.connection_at i).port ≡ some p
  pub live : (i p : ℕ) → (w.port_at p).connection ≡ some i → is_listed i w.connections ≡ true

-- A connection that has become another one without a login.
pub record Goes (c c' : TcpConnection) : Type 0 where
  pub same_port : c'.port ≡ c.port
  pub gone : c.state.state ≡ disconnected → c'.state.state ≡ disconnected
  pub unborn : c'.state.state ≡ connected → c.state.state ≡ connected
  pub still_sane : IsSane c → IsSane c'

pub record IsQuiet (w w' : World) : Type 0 where
  pub same_list : w'.connections ≡ w.connections
  pub same_connection : (p : ℕ) → (w'.port_at p).connection ≡ (w.port_at p).connection
  pub goes : (i : ℕ) → Goes (w.connection_at i) (w'.connection_at i)

pub Goes-refl : (c : TcpConnection) → Goes c c
Goes-refl c = record { same_port = refl; gone = λ e. e; unborn = λ e. e; still_sane = λ h. h }

pub Goes-trans : {a b c : TcpConnection} → Goes a b → Goes b c → Goes a c
Goes-trans g h = record {
  same_port = h.same_port ∙ g.same_port;
  gone = λ e. h.gone (g.gone e);
  unborn = λ e. g.unborn (h.unborn e);
  still_sane = λ s. h.still_sane (g.still_sane s);
}

pub IsQuiet-refl : (w : World) → IsQuiet w w
IsQuiet-refl w = record { same_list = refl; same_connection = λ p. refl; goes = λ i. Goes-refl _ }

pub IsQuiet-trans : {a b c : World} → IsQuiet a b → IsQuiet b c → IsQuiet a c
IsQuiet-trans g h = record {
  same_list = h.same_list ∙ g.same_list;
  same_connection = λ p. h.same_connection p ∙ g.same_connection p;
  goes = λ i. Goes-trans (g.goes i) (h.goes i);
}

pub IsQuiet-IsSound : {w w' : World} → IsQuiet w w' → IsSound w → IsSound w'
IsQuiet-IsSound {w} {w'} q h = record {
  single = record {
    single = λ i p at alive.
        q.same_connection p
        ∙ h.single.single i p (sym (q.goes i).same_port ∙ at) (λ e. alive ((q.goes i).gone e));
  };
  sane = λ i. (q.goes i).still_sane (h.sane i);
  fresh = λ i p e at. h.fresh i p ((q.goes i).unborn e) (sym (q.same_connection p) ∙ at);
  back = λ i p at. (q.goes i).same_port ∙ h.back i p (sym (q.same_connection p) ∙ at);
  live = λ i p at. rw q.same_list (h.live i p (sym (q.same_connection p) ∙ at));
}

-- A change of one connection, and of a port but for its connection.
pub put_connection-IsQuiet :
    (w : World) (i : ℕ) (c : TcpConnection)
    → Goes (w.connection_at i) c
    → IsQuiet w (put_connection w i c)
put_connection-IsQuiet w i c g = record {
  same_list = refl;
  same_connection = λ p. refl;
  goes = λ k. elim (Bool-cases (i == k)) [
    | inl e ↦ let same : i ≡ k = (==_iff i k).0 e in rw (e, ← same) g
    | inr e ↦ rw e (Goes-refl _)
  ];
}

pub put_port-IsQuiet :
    (w : World) (p : ℕ) (port : Port)
    → port.connection ≡ (w.port_at p).connection
    → IsQuiet w (put_port w p port)
put_port-IsQuiet w p port same = record {
  same_list = refl;
  same_connection = λ q. ground arith;
  goes = λ k. Goes-refl _;
}

-- What both branches of a test keep.
pub if_first-I :
    (I : World → Type 0) (b : Bool) (x y : World × PacketError)
    → I x.0
    → I y.0
    → I (if b then x else y).0
if_first-I I true x y hx hy = hx
if_first-I I false x y hx hy = hy

pub if-I : (I : World → Type 0) (b : Bool) (x y : World) → I x → I y → I (if b then x else y)
if-I I true x y hx hy = hx
if-I I false x y hx hy = hy
