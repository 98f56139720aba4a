-- ===== src/Api/Claims/Polling.antt =====
-- `pollClaim` ends: its rounds are as many as its deadline leaves room for.
use boilerhouse.Common.{
  ℕ, zero, suc, ◌+◌, ◌*◌, ◌≤◌, String, Bool, true, false, ◌∷◌, ◌≡◌, refl, arith, ltb, Bool-cases,
  inl, inr,
}
use boilerhouse.Types.Claim.{Claim}
use boilerhouse.Cluster.{
  Env, Trace, or_fail, Event, event, Result, ok, err, ◌>>=◌, call, get_claim, now, sleep,
}
use boilerhouse.Api.Reply.{Server}
use boilerhouse.Api.Claims.{
  claim_key, is_settled, poll_again, look_again, poll_loop, poll_claim, poll_rounds,
}

-- The clock does not go back, and a sleep that is not cut short takes its time.
pub record Advances (env : Env) : Type 0 where
  pub forward : (t : Trace) (e : Event) → env t now ≤ env (e ∷ t) now
  pub asleep : (t : Trace) (d : ℕ) → env t now + d ≤ env (event (sleep d) true ∷ t) now

module _ (env : Env) (advances : Advances env) (s : Server) (name : String)
    (deadline interval : ℕ) where
  late : (clock : ℕ) → deadline ≤ clock → ltb clock deadline ≡ false
  late clock h = ground arith

  look : Trace → Trace
  look t =
      event (get_claim (claim_key s name))
        (env (event now (env t now) ∷ t) (get_claim (claim_key s name)))
      ∷ event now (env t now)
      ∷ t

  later_clock : (t : Trace) → env t now + interval ≤ env (event (sleep interval) true ∷ look t) now
  unfolding look
  later_clock t = omega (
    arith,
    advances.forward t (event now (env t now)),
    advances.forward (event now (env t now) ∷ t) (
        event (get_claim (claim_key s name))
          (env (event now (env t now) ∷ t) (get_claim (claim_key s name)))),
    advances.asleep (look t) interval,
  )

  module _ (k l : ℕ) where
    -- Both continue alike after one round if they do after its sleep.
    same_again :
        (t : Trace) (slept : Bool)
        → poll_loop s name deadline interval k env (event (sleep interval) true ∷ t)
          ≡ poll_loop s name deadline interval l env (event (sleep interval) true ∷ t)
        → poll_again
            (poll_loop s name deadline interval k)
            slept
            env
            (event (sleep interval) slept ∷ t)
          ≡ poll_again
              (poll_loop s name deadline interval l)
              slept
              env
              (event (sleep interval) slept ∷ t)
    unfolding poll_again
    same_again t true same = same
    same_again t false same = refl

    same_look :
        (t : Trace) (claim : Claim) (settled : Bool)
        → is_settled claim.status.phase ≡ settled
        → poll_loop s name deadline interval k env (event (sleep interval) true ∷ t)
          ≡ poll_loop s name deadline interval l env (event (sleep interval) true ∷ t)
        → look_again (poll_loop s name deadline interval k) interval claim env t
          ≡ look_again (poll_loop s name deadline interval l) interval claim env t
    unfolding look_again ◌>>=◌
    same_look t claim true is same = rw is refl
    same_look t claim false is same = rw is (same_again t (env t (sleep interval)) same)

    same_answer :
        (t : Trace) (x : Result Claim)
        → poll_loop s name deadline interval k env (event (sleep interval) true ∷ t)
          ≡ poll_loop s name deadline interval l env (event (sleep interval) true ∷ t)
        → (or_fail x >>= λ claim. look_again (poll_loop s name deadline interval k) interval claim)
            env t
          ≡ (or_fail x >>= λ claim.
                look_again (poll_loop s name deadline interval l) interval claim)
              env t
    unfolding ◌>>=◌
    same_answer t (ok claim) same = same_look t claim (is_settled claim.status.phase) refl same
    same_answer t (err e) same = refl

  poll_loop-enough :
      (k l : ℕ) (t : Trace)
      → k ≤ l
      → deadline ≤ env t now + k * interval
      → poll_loop s name deadline interval k env t ≡ poll_loop s name deadline interval l env t
  unfolding poll_loop look ◌>>=◌
  poll_loop-enough zero zero t le enough = refl
  poll_loop-enough zero (suc l) t le enough = rw (late (env t now) (omega (arith, enough))) refl
  poll_loop-enough (suc k) zero t le enough = absurd (omega arith)
  poll_loop-enough (suc k) (suc l) t le enough = elim (Bool-cases (ltb (env t now) deadline)) [
    | inl early ↦
        let rest =
          poll_loop-enough k l (event (sleep interval) true ∷ look t) (omega arith)
            (grind (arith, later_clock t)) in
        rw early (
          same_answer k l (look t) (env (event now (env t now) ∷ t) (get_claim (claim_key s name)))
            rest)
    | inr past ↦ rw past refl
  ]

-- If the clock does not go back and sleeps take their time, the 60 rounds that the model gives `pollClaim` are
-- enough for any timeout of at most 60 intervals, as the caller's is: any larger number of rounds gives the same
-- answer after the same calls.
pub poll_claim-enough :
    (env : Env) (s : Server) (name : String) (timeout interval rounds : ℕ) (t : Trace)
    → Advances env
    → timeout ≤ poll_rounds * interval
    → poll_rounds ≤ rounds
    → poll_claim s name timeout interval env t
      ≡ (call now >>= λ clock. poll_loop s name (clock + timeout) interval rounds) env t
unfolding poll_claim ◌>>=◌
poll_claim-enough env s name timeout interval rounds t advances fits more =
    poll_loop-enough env advances s name (env t now + timeout) interval poll_rounds rounds
      (event now (env t now) ∷ t) more
      (omega (arith, fits, advances.forward t (event now (env t now))))
