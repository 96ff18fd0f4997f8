-- ===== src/Server/Acceptor/Accounts.antt =====
-- The accounts of an acceptor: a username that was added is found at every later login.
use soupbintcp.Common.{
  ◌⊎◌, ℕ, ◌≡◌, ◌≢◌, true, false, Option, some, List, [], ◌∷◌, ◌++◌, Bytes, bytes_eq, bytes_eq_refl,
  bytes_eq_sound, All, arith, Bool-cases, inl, inr,
}
use soupbintcp.Server.World.{World, Port, put_port}
use soupbintcp.Server.Port.{new_port}
use soupbintcp.Server.Login.{find_port}
use soupbintcp.Server.Acceptor.{added, add_port, is_in_use}

bytes_eq-differs : (xs ys : Bytes) → xs ≢ ys → bytes_eq xs ys ≡ false
bytes_eq-differs xs ys h = elim (Bool-cases (bytes_eq xs ys)) [
  | inl e ↦ absurd (h (bytes_eq_sound xs ys e))
  | inr e ↦ e
]

-- The number `p` is not that of a port.
abbrev pub IsFresh : ℕ → List ℕ → Type 0
IsFresh p ports = All (λ q. q ≢ p) ports

find_port-put :
    (at at' : ℕ → Port) (p : ℕ) (ports : List ℕ) (username : Bytes)
    → ((q : ℕ) → q ≢ p → at' q ≡ at q)
    → IsFresh p ports
    → bytes_eq username (at' p).username ≡ true
    → is_in_use at ports username ≡ false
    → find_port at' (ports ++ p ∷ []) username ≡ some p
unfolding find_port is_in_use
find_port-put at at' p [] username same fresh named free = ground arith
find_port-put at at' p (q ∷ ports) username same fresh named free =
    let e = same q fresh.0 in
    ground (arith, find_port-put at at' p ports username same fresh.1 named)

find_port-other :
    (at at' : ℕ → Port) (p : ℕ) (ports : List ℕ) (username : Bytes)
    → ((q : ℕ) → q ≢ p → at' q ≡ at q)
    → IsFresh p ports
    → bytes_eq username (at' p).username ≡ false
    → find_port at' (ports ++ p ∷ []) username ≡ find_port at ports username
unfolding find_port
find_port-other at at' p [] username same fresh named = ground arith
find_port-other at at' p (q ∷ ports) username same fresh named =
    let e = same q fresh.0 in
    ground (arith, find_port-other at at' p ports username same fresh.1 named)

-- A port that is added under a number of its own is found by its username at a later login, has the
-- given password, and changes for no other username what is found; a port that is not added changes
-- nothing.
pub add_port-found :
    (w : World) (p : ℕ) (username password other : Bytes) (handler : Option ℕ)
    → IsFresh p w.ports
    → other ≢ username
    → let (w', result) = add_port w p username password handler in
      (w' ≡ w) × (result ≢ added p)
      ⊎ (result ≡ added p)
        × (find_port w'.port_at w'.ports username ≡ some p)
        × ((w'.port_at p).password ≡ password)
        × (find_port w'.port_at w'.ports other ≡ find_port w.port_at w.ports other)
unfolding add_port new_port
add_port-found w p username password other handler fresh differs =
    let at' : ℕ → Port = (put_port w p (new_port username password handler)).port_at in
    let same : (q : ℕ) → q ≢ p → at' q ≡ w.port_at q = λ q h. ground arith in
    let here : at' p ≡ new_port username password handler = ground arith in
    let mine : bytes_eq username (at' p).username ≡ true = rw here (bytes_eq_refl username) in
    let theirs : bytes_eq other (at' p).username ≡ false =
      rw here (bytes_eq-differs other username differs) in
    let found = find_port-put w.port_at at' p w.ports username same fresh mine in
    let kept = find_port-other w.port_at at' p w.ports other same fresh theirs in
    ground (arith, found, kept)
