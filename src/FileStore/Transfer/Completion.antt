-- ===== src/FileStore/Transfer/Completion.antt =====
-- The loop of `while_interrupted` comes to an end.
use soupbintcp.Common.{
  ◌≡◌, ◌≢◌, refl, ℕ, zero, suc, ◌==◌, ◌<◌, ◌≤◌, Bool-cases, Option, some, inl, inr, ==_iff, arith,
}
use soupbintcp.FileStore.Posix.{Called, failed, returned}
use soupbintcp.FileStore.Posix.Lawful.{Answers, refused, granted}
use soupbintcp.FileStore.Transfer.{retry, while_interrupted}

-- The call was made in some state and has failed there, with this error and these effects, and not because of
-- a signal.
pub record Fails {K A : Type 0} (eintr : ℕ) (call : K → K × Called A) (k : K) (e : ℕ) : Type 0 where
  pub asked : K
  pub answer : call asked ≡ (k, failed e)
  pub uninterrupted : e ≢ eintr

-- What a call does that is made until no signal interrupts it.
pub data Ends {K A : Type 0} (eintr : ℕ) (call : K → K × Called A) (left : K → ℕ) (before : ℕ)
    (Stays : K → Type 0) (Goes : K → A → Type 0) : Option (K × Called A) → Type 0 where
  ends_refused :
      (k : K) (e : ℕ)
      → 0 < e
      → left k ≤ before
      → Stays k
      → Fails eintr call k e
      → Ends eintr call left before Stays Goes (some (k, failed e))
  ends_granted :
      (k : K) (a : A)
      → left k ≤ before
      → Goes k a
      → Ends eintr call left before Stays Goes (some (k, returned a))

module _ {K A : Type 0} (eintr : ℕ) (call : K → K × Called A) (left : K → ℕ) (Stays : K → Type 0)
    (Goes : K → A → Type 0) where
  retry-Ends :
      (now before : ℕ) (again : K → Option (K × Called A)) (asked : K) (out : K × Called A)
      → call asked ≡ out
      → now ≤ before
      → ((k : K) → left k < now → Stays k → Ends eintr call left before Stays Goes (again k))
      → Answers eintr left now Stays Goes out
      → Ends eintr call left before Stays Goes (retry eintr again out)
  unfolding retry
  retry-Ends now before again asked out made le h (refused k e pos fewer less stays) =
      elim (Bool-cases (e == eintr)) [
        | inl same ↦ rw (same, retry) (h k (less ((==_iff e eintr).0 same)) stays)
        | inr other ↦
            rw (other, retry)
              (ends_refused k e pos (omega arith) stays (record {
                asked = asked;
                answer = made;
                uninterrupted = λ same. ground (arith, other);
              }))
      ]
  retry-Ends now before again asked out made le h (granted k a fewer goes) =
      ends_granted k a (omega arith) goes

  pub while_interrupted-Ends :
      (fuel before : ℕ) (k : K)
      → ((k' : K) → Stays k' → Answers eintr left (left k') Stays Goes (call k'))
      → left k < fuel
      → left k ≤ before
      → Stays k
      → Ends eintr call left before Stays Goes (while_interrupted fuel eintr call k)
  unfolding while_interrupted
  while_interrupted-Ends zero before k law enough le stays = absurd (omega arith)
  while_interrupted-Ends (suc fuel) before k law enough le stays =
      retry-Ends (left k) before (λ k'. while_interrupted fuel eintr call k') k (call k) refl le
        (λ k' less stays'.
          while_interrupted-Ends fuel before k' law (omega arith) (omega arith) stays')
        (law k stays)
