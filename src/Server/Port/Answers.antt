-- ===== src/Server/Port/Answers.antt =====
-- What a port answers to a login request, and what an accepted login leaves behind.
use soupbintcp.Common.{
  ℕ, ◌≡◌, ◌<◌, ◌≤◌, true, ◌⊎◌, inl, inr, Option, none, some, arith, refl, [], ◌≢◌, bytes_eq,
  bytes_eq_sound, bytes_eq-false, Bool-cases,
}
use soupbintcp.Types.{LoginRejectReason}
use soupbintcp.LogicalPackets.{
  LoginRequestPacket, rejected_not_authorized, rejected_session_not_available,
}
use soupbintcp.Server.World.{World, put_port}
use soupbintcp.Server.Link
use soupbintcp.ConnectionState.{disconnected}
use soupbintcp.Server.Port.Session.{superseded}
use soupbintcp.Server.Port.{
  on_login_request, supersede_attached, rewind, attach, accepted, rejected,
}

-- What an accepted login leaves behind, for the number `n` that the response announces.
pub record IsLoggedIn (w : World) (p i : ℕ) (n : ℕ) (w' : World) : Type 0 where
  pub attached : (w'.port_at p).connection ≡ some i
  pub port : (w'.connection_at i).port ≡ some p
  pub handler : (w'.connection_at i).handler ≡ (w.port_at p).handler
  pub left :
      (j : ℕ)
      → (w.port_at p).connection ≡ some j
      → j ≢ i
      → (w'.connection_at j).state.state ≡ disconnected
  pub number : (w'.port_at p).next_sequence_number ≡ n

pub IsResumed : (requested next n : ℕ) → Type 0
IsResumed requested next n =
    (requested ≢ 0) × (requested < next) × (n ≡ requested)
    ⊎ ((requested ≡ 0) ⊎ (next ≤ requested)) × (n ≡ next)

rewind-IsResumed : (requested next : ℕ) → IsResumed requested next (rewind requested next)
unfolding IsResumed rewind
rewind-IsResumed requested next = ground arith

attach-IsLoggedIn :
    (w : World) (p i n : ℕ) (o : Option ℕ)
    → (w.port_at p).connection ≡ o
    → IsLoggedIn w p i n (
        put_port
          (attach (supersede_attached w o) p i)
          p
          (record ((attach (supersede_attached w o) p i).port_at p) { next_sequence_number = n }))
unfolding attach supersede_attached Link.supersede Link.disconnect
attach-IsLoggedIn w p i n none e = ground arith
attach-IsLoggedIn w p i n (some j) e = let gone = superseded (w.connection_at j) in ground arith

-- The branch of an accepted login.
granted :
    (w : World) (p i : ℕ) (request : LoginRequestPacket)
    → bytes_eq request.password (w.port_at p).password ≡ true
    → (bytes_eq request.session [] ≡ true) ⊎ (bytes_eq request.session w.session ≡ true)
    → (n : ℕ) × IsResumed request.next_sequence_number (w.port_at p).next_sequence_number n
      × IsLoggedIn w p i n (on_login_request w p i request).0
      × ((on_login_request w p i request).1
          ≡ accepted (record { session = w.session; next_sequence_number = n }))
unfolding on_login_request
granted w p i request e s =
    let requested = request.next_sequence_number in
    let next = (w.port_at p).next_sequence_number in
    let n = rewind requested next in
    let logged = attach-IsLoggedIn w p i n (w.port_at p).connection refl in
    (n, rewind-IsResumed requested next, ground (arith, logged), ground arith)

-- A login request with another password than that of the port, and one for another session than that
-- of the server, are rejected with their reasons, and nothing changes. Any other is accepted: the
-- connection and the port point to one another, a connection that the port had before is
-- disconnected, and the port goes on at the number that the response announces, which is the
-- requested one if that is not 0 and less than the port's, and the port's otherwise.
pub on_login_request-answers :
    (w : World) (p i : ℕ) (request : LoginRequestPacket)
    → (request.password ≢ (w.port_at p).password)
        × (on_login_request w p i request ≡ (
          w,
          rejected LoginRejectReason.incorrect_password
              (record { reason = rejected_not_authorized }),
        ))
      ⊎ ((request.password ≡ (w.port_at p).password)
          × (request.session ≢ [])
          × (request.session ≢ w.session)
          × (on_login_request w p i request ≡ (
            w,
            rejected LoginRejectReason.session_not_available
                (record { reason = rejected_session_not_available }),
          )))
      ⊎ ((request.password ≡ (w.port_at p).password)
          × ((request.session ≡ []) ⊎ (request.session ≡ w.session))
          × ((n : ℕ) × IsResumed request.next_sequence_number (w.port_at p).next_sequence_number n
              × IsLoggedIn w p i n (on_login_request w p i request).0
              × ((on_login_request w p i request).1
                  ≡ accepted (record { session = w.session; next_sequence_number = n }))))
unfolding on_login_request
on_login_request-answers w p i request =
    elim (Bool-cases (bytes_eq request.password (w.port_at p).password)) [
      | inr e ↦ inl (bytes_eq-false _ _ e, rw e)
      | inl e ↦ elim (Bool-cases (bytes_eq request.session [])) [
        | inl f ↦ inr (
            inr (bytes_eq_sound _ _ e, inl (bytes_eq_sound _ _ f), granted w p i request e (inl f)))
        | inr f ↦ elim (Bool-cases (bytes_eq request.session w.session)) [
          | inl g ↦ inr (
              inr
                (bytes_eq_sound _ _ e, inr (bytes_eq_sound _ _ g), granted w p i request e (inr g)))
          | inr g ↦
              inr (
                inl
                  (bytes_eq_sound _ _ e, bytes_eq-false _ _ f, bytes_eq-false _ _ g, rw (e, f, g)))
        ]
      ]
    ]
