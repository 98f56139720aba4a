-- ===== src/Cluster/Attempt.antt =====
-- The rules for a step whose error is looked at.
use boilerhouse.Cluster.{
  M, Outcome, returns, fails, Trace, trace_of, Result, ok, err, attempt, ◌>>=◌,
}
use boilerhouse.Cluster.Keeps.{Keeps}
use boilerhouse.Cluster.Triple.{Triple, Ends, Triple-post, Triple-Keeps}

module _ {A : Type 0} where
  looked_kept :
      (P : Trace → Type 0) (o : Outcome A)
      → P (trace_of o)
      → P (
          trace_of (elim o as (λ _. Outcome (Result A)) [
            | returns a t ↦ returns (ok a) t
            | fails e t ↦ returns (err e) t
          ]))
  looked_kept P (returns a t) h = h
  looked_kept P (fails e t) h = h

  pub Keeps-attempt : {P : Trace → Type 0} (m : M A) → Keeps P m → Keeps P (attempt m)
  unfolding ◌>>=◌
  Keeps-attempt {P = P} m k = record { at = λ env t h. looked_kept P (m env t) (k.at env t h) }

  -- What holds of the history after an attempt.
  abbrev pub Attempted : (A → Trace → Type 0) → (Trace → Type 0) → Result A → Trace → Type 0
  Attempted post bad (ok a) t = post a t
  Attempted post bad (err e) t = bad t

  attempted :
      (post : A → Trace → Type 0) (bad worse : Trace → Type 0) (o : Outcome A)
      → Ends post bad o
      → Ends (Attempted post bad) worse (elim o as (λ _. Outcome (Result A)) [
        | returns a t ↦ returns (ok a) t
        | fails e t ↦ returns (err e) t
      ])
  attempted post bad worse (returns a t) h = h
  attempted post bad worse (fails e t) h = h

  pub Triple-attempt :
      {pre bad worse : Trace → Type 0} {post : A → Trace → Type 0} {m : M A}
      → Triple bad pre post m
      → Triple worse pre (Attempted post bad) (attempt m)
  unfolding ◌>>=◌
  Triple-attempt {bad = bad} {worse = worse} {post = post} {m = m} h = record {
    at = λ env t p. attempted post bad worse (m env t) (h.at env t p);
  }

module _ {A : Type 0} (P : Trace → Type 0) where
  either_way : (r : Result A) (t : Trace) → Attempted (λ _. P) P r t → P t
  either_way (ok a) t h = h
  either_way (err e) t h = h

module _ {A : Type 0} {bad P : Trace → Type 0} where
  -- An invariant holds after the step, and the attempt does not fail.
  pub Triple-attempt_kept : {m : M A} → Keeps P m → Triple bad P (λ _. P) (attempt m)
  Triple-attempt_kept k = Triple-post (either_way P) (Triple-attempt (Triple-Keeps k))
