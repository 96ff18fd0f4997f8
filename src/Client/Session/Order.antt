-- ===== src/Client/Session/Order.antt =====
-- The messages of a client over any sequence of packets from its connections.
use soupbintcp.Common.{
  ℕ, zero, suc, ◌+◌, ◌≤◌, ◌<◌, ◌≡◌, ◌≢◌, refl, ap, ◌∙◌, ◌⊎◌, inl, inr, List, [], ◌∷◌, ◌++◌, Bytes,
  length, arith,
}
use soupbintcp.Constants.{u64_mod}
use soupbintcp.Client.World.{World, Asio}
use soupbintcp.Client.TcpConnection.{process_sequenced_data, process_login_accepted}
use soupbintcp.Client.Session.Delivery.{
  IsBehind, delivered, process_sequenced_data-IsBehind, process_login_accepted-IsBehind,
}

-- A packet that connection `i` gets: data, or the payload of a login acceptance and its size.
pub data Packet : Type 0 where
  data_packet : ℕ → Bytes → Packet
  acceptance : Asio → ℕ → Bytes → ℕ → Packet

pub step : World → Packet → World
step w (data_packet i text) = (process_sequenced_data w i text).0
step w (acceptance asio i bytes size) = (process_login_accepted asio w i bytes size).0

pub run : World → List Packet → World
run w [] = w
run w (p ∷ packets) = run (step w p) packets

-- The `k` numbers from `n` on, the latest first.
pub following : ℕ → ℕ → List ℕ
following n zero = []
following n (suc k) = (n + k) ∷ following n k

following-suc :
    (n k : ℕ) (numbers : List ℕ)
    → following (n + 1) k ++ n ∷ numbers ≡ following n (suc k) ++ numbers
unfolding following
following-suc n zero numbers = ground arith
following-suc n (suc k) numbers = ground (arith, following-suc n k numbers)

-- What has happened when `k` messages were delivered.
pub record IsOrdered (w : World) (k : ℕ) (w' : World) : Type 0 where
  pub numbers : delivered w'.calls ≡ following w.next_sequence_number k ++ delivered w.calls
  pub next : w'.next_sequence_number ≡ w.next_sequence_number + k
  pub behind : IsBehind w'

step-IsOrdered :
    (w : World) (p : Packet)
    → IsBehind w
    → w.next_sequence_number ≢ 0
    → w.next_sequence_number + 1 < u64_mod
    → IsOrdered w 0 (step w p) ⊎ IsOrdered w 1 (step w p)
unfolding step following
step-IsOrdered w (data_packet i text) h known few =
    let (behind, outcome) = process_sequenced_data-IsBehind w i text h few in
    elim outcome [
      | inl (calls, number) ↦
          inl
            (record { numbers = ap delivered calls; next = omega (arith, number); behind = behind })
      | inr (calls, number) ↦ inr (record {
        numbers = ap delivered calls ∙ (unfold delivered in ground arith);
        next = number;
        behind = behind;
      })
    ]
step-IsOrdered w (acceptance asio i bytes size) h known few =
    let (behind, number, calls) = process_login_accepted-IsBehind asio w i bytes size h known in
    inl (record { numbers = calls; next = omega (arith, number); behind = behind })

skip : {u v w : World} (k : ℕ) → IsOrdered u 0 v → IsOrdered v k w → IsOrdered u k w
skip {u} {v} k a b =
    let same : v.next_sequence_number ≡ u.next_sequence_number = omega (arith, a.next) in
    let none_yet : delivered v.calls ≡ delivered u.calls = unfold following in a.numbers in
    record {
      numbers = rw (b.numbers, same, none_yet);
      next = omega (arith, a.next, b.next);
      behind = b.behind;
    }

count : {u v w : World} (k : ℕ) → IsOrdered u 1 v → IsOrdered v k w → IsOrdered u (suc k) w
count {u} {v} k a b =
    let first : delivered v.calls ≡ u.next_sequence_number ∷ delivered u.calls =
      a.numbers ∙ (unfold following in ground arith) in
    record {
      numbers =
          rw (b.numbers, a.next, first)
            (following-suc u.next_sequence_number k (delivered u.calls));
      next = omega (arith, a.next, b.next);
      behind = b.behind;
    }

-- Packets that the connections of a client get, in any order and each from any of them: if none of
-- the connections is ahead of the client, whose next number is known and far enough from 2 ^ 64, then
-- the messages that its handler gets have consecutive numbers from the next one on, each of them
-- once and in order, and none of the connections is ahead of it afterwards.
pub run-IsOrdered :
    (w : World) (packets : List Packet)
    → IsBehind w
    → w.next_sequence_number ≢ 0
    → w.next_sequence_number + length packets < u64_mod
    → (k : ℕ) × (k ≤ length packets) × IsOrdered w k (run w packets)
unfolding run
run-IsOrdered w [] h known few =
    (0, omega arith, record { numbers = unfold following in refl; next = omega arith; behind = h })
run-IsOrdered w (p ∷ packets) h known few = elim (step-IsOrdered w p h known (omega arith)) [
  | inl s ↦
      let (k, bound, rest) =
        run-IsOrdered (step w p) packets s.behind (ground (arith, s.next))
          (omega (arith, s.next)) in
      (k, omega (arith, bound), skip k s rest)
  | inr s ↦
      let (k, bound, rest) =
        run-IsOrdered (step w p) packets s.behind (ground (arith, s.next))
          (omega (arith, s.next)) in
      (suc k, omega (arith, bound), count k s rest)
]
