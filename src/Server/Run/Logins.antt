-- ===== src/Server/Run/Logins.antt =====
-- A login in a running acceptor.
use soupbintcp.Common.{
  ℕ, ◌≡◌, ◌≢◌, refl, true, not, ◌&&◌, Bool-cases, Option, none, some, inl, inr, [], bytes_eq, arith,
}
use soupbintcp.Types.{DisconnectReason}
use soupbintcp.LogicalPackets.{LoginRequestPacket}
use soupbintcp.ConnectionState.{connected, logged_in, set_state}
use soupbintcp.Server.World.{World, put_port, put_connection}
use soupbintcp.Server.Link
use soupbintcp.Server.Port
use soupbintcp.Server.Port.{LoginResult, accepted, rejected, supersede_attached, rewind, attach}
use soupbintcp.Server.Port.Session.{
  IsFree, supersede_attached-lem, attach-IsExclusive, put_number-IsExclusive, IsExclusive,
}
use soupbintcp.Server.Run.{is_listed}
use soupbintcp.Server.Run.Sound.{IsSane, IsSound, IsQuiet, IsQuiet-refl, IsQuiet-IsSound}
use soupbintcp.Server.Run.Quiet.{disconnect-IsQuiet}

-- A sound state in which connection `i` has been attached, but has not entered yet.
pub record IsEntering (w : World) (i : ℕ) : Type 0 where
  pub single : IsExclusive w
  pub sane : (k : ℕ) → IsSane (w.connection_at k)
  pub fresh :
      (k p : ℕ)
      → k ≢ i
      → (w.connection_at k).state.state ≡ connected
      → (w.port_at p).connection ≢ some k
  pub back : (k p : ℕ) → (w.port_at p).connection ≡ some k → (w.connection_at k).port ≡ some p
  pub live : (k p : ℕ) → (w.port_at p).connection ≡ some k → is_listed k w.connections ≡ true
  pub waiting : (w.connection_at i).state.state ≡ connected

pub supersede_attached-IsQuiet : (w : World) (o : Option ℕ) → IsQuiet w (supersede_attached w o)
unfolding supersede_attached Link.supersede
supersede_attached-IsQuiet w none = IsQuiet-refl w
supersede_attached-IsQuiet w (some j) = disconnect-IsQuiet w j DisconnectReason.superseded

-- Another connection is superseded.
supersede_attached-other :
    (w : World) (o : Option ℕ) (i : ℕ)
    → o ≢ some i
    → (supersede_attached w o).connection_at i ≡ w.connection_at i
unfolding supersede_attached Link.supersede Link.disconnect
supersede_attached-other w none i other = refl
supersede_attached-other w (some j) i other = ground arith

attach-IsEntering :
    (w : World) (p i : ℕ)
    → IsSound w
    → IsFree w p
    → (w.connection_at i).state.state ≡ connected
    → is_listed i w.connections ≡ true
    → IsEntering (attach w p i) i
unfolding attach
attach-IsEntering w p i h free state listed = record {
  single = attach-IsExclusive w p i h.single free;
  sane = λ k.
      let old = h.sane k in
      record { closing = ground arith; signaled = ground arith; ended = ground arith };
  fresh = λ k q other e. let old = h.fresh k q in ground arith;
  back = λ k q e. let old = h.back k q in let new = h.fresh i q state in ground arith;
  live = λ k q e. let old = h.live k q in ground arith;
  waiting = ground arith;
}

put_number-IsEntering :
    (w : World) (p i n : ℕ)
    → IsEntering w i
    → IsEntering (put_port w p (record (w.port_at p) { next_sequence_number = n })) i
put_number-IsEntering w p i n h = record {
  single = put_number-IsExclusive w p n h.single;
  sane = h.sane;
  fresh = λ k q other e. let old = h.fresh k q other e in ground arith;
  back = λ k q e. let old = h.back k q in ground arith;
  live = λ k q e. let old = h.live k q in ground arith;
  waiting = h.waiting;
}

-- The connection enters.
pub entered-IsSound :
    (w : World) (i : ℕ)
    → IsEntering w i
    → IsSound (
        put_connection w i
          (record (w.connection_at i) { state = set_state (w.connection_at i).state logged_in }))
unfolding set_state
entered-IsSound w i h = record {
  single = record {
    single =
        λ k q at alive. let old = h.single.single k q in let waiting = h.waiting in ground arith;
  };
  sane = λ k.
      let own = h.sane i in
      let old = h.sane k in
      let waiting = h.waiting in
      record { closing = ground arith; signaled = ground arith; ended = ground arith };
  fresh = λ k q e. let old = h.fresh k q in ground arith;
  back = λ k q e. let old = h.back k q in ground arith;
  live = λ k q e. h.live k q e;
}

-- What a login request leaves.
unfoldable pub Leaves : ℕ → LoginResult → World → Type 0
Leaves i (accepted response) w = IsEntering w i
Leaves i (rejected reason response) w = IsSound w

pub port_login-Leaves :
    (w : World) (p i : ℕ) (request : LoginRequestPacket)
    → IsSound w
    → (w.connection_at i).state.state ≡ connected
    → is_listed i w.connections ≡ true
    → Leaves i (Port.on_login_request w p i request).1 (Port.on_login_request w p i request).0
unfolding Port.on_login_request Leaves
port_login-Leaves w p i request h state listed =
    let (exclusive, free) = supersede_attached-lem w p _ h.single refl in
    let w' : World = supersede_attached w (w.port_at p).connection in
    let quiet = supersede_attached-IsQuiet w (w.port_at p).connection in
    let same = supersede_attached-other w (w.port_at p).connection i (h.fresh i p state) in
    let sound = IsQuiet-IsSound quiet h in
    let entering =
      put_number-IsEntering (attach w' p i) p i
        (rewind request.next_sequence_number (w.port_at p).next_sequence_number)
        (attach-IsEntering w' p i sound free (rw same state) (rw quiet.same_list listed)) in
    elim (Bool-cases (bytes_eq request.password (w.port_at p).password)) [
      | inr wrong ↦ rw wrong h
      | inl right ↦
          elim (Bool-cases
            (not (bytes_eq request.session []) && not (bytes_eq request.session w.session))) [
              | inl elsewhere ↦ rw (right, elsewhere) h
              | inr here ↦ rw (right, here) entering
            ]
    ]
