-- ===== src/Cluster/Keeps.antt =====
-- Invariants of the history of calls: one rule for each way to build a step.
use boilerhouse.Common.{String, Bool, true, false, ◌∷◌, Option, none, some, if◌then◌else◌}
use boilerhouse.Cluster.{
  M, Env, Error, event, Request, Response, Result, ok, err, Outcome, returns, fails, Trace,
  trace_of, pure, raise, call, or_fail, succeed, or_wrap, succeed_or_wrap, wrapping, ◌>>=◌,
}

-- `m` keeps `P` of the history, whatever the world answers and however `m` ends.
pub record Keeps {A : Type 0} (P : Trace → Type 0) (m : M A) : Type 0 where
  pub at : (env : Env) (t : Trace) → P t → P (trace_of (m env t))

module _ {P : Trace → Type 0} where
  pub Keeps-call :
      (r : Request) → ((t : Trace) (x : Response r) → P t → P (event r x ∷ t)) → Keeps P (call r)
  unfolding ◌>>=◌
  Keeps-call r q = record { at = λ env t h. q t (env t r) h }

  pub Keeps-succeed : (o : Option Error) → Keeps P (succeed o)
  unfolding ◌>>=◌
  Keeps-succeed none = record { at = λ env t h. h }
  Keeps-succeed (some e) = record { at = λ env t h. h }

  pub Keeps-succeed_or_wrap : (text : String) (o : Option Error) → Keeps P (succeed_or_wrap text o)
  unfolding ◌>>=◌
  Keeps-succeed_or_wrap text none = record { at = λ env t h. h }
  Keeps-succeed_or_wrap text (some e) = record { at = λ env t h. h }

module _ {A : Type 0} {P : Trace → Type 0} where
  pub Keeps-pure : (a : A) → Keeps P (pure a)
  unfolding ◌>>=◌
  Keeps-pure a = record { at = λ env t h. h }

  pub Keeps-raise : (e : Error) → Keeps P (raise {A = A} e)
  unfolding ◌>>=◌
  Keeps-raise e = record { at = λ env t h. h }

  pub Keeps-or_fail : (x : Result A) → Keeps P (or_fail x)
  unfolding ◌>>=◌
  Keeps-or_fail (ok a) = record { at = λ env t h. h }
  Keeps-or_fail (err e) = record { at = λ env t h. h }

  pub Keeps-or_wrap : (text : String) (x : Result A) → Keeps P (or_wrap text x)
  unfolding ◌>>=◌
  Keeps-or_wrap text (ok a) = record { at = λ env t h. h }
  Keeps-or_wrap text (err e) = record { at = λ env t h. h }

  pub Keeps-if : (b : Bool) (m n : M A) → Keeps P m → Keeps P n → Keeps P (if b then m else n)
  Keeps-if true m n km kn = km
  Keeps-if false m n km kn = kn

module _ {A : Type 0} (P : Trace → Type 0) where
  trace-wrapping :
      (text : String) (m : M A) (env : Env) (t : Trace)
      → P (trace_of (m env t))
      → P (trace_of (wrapping text m env t))
  unfolding ◌>>=◌
  trace-wrapping text m env t h = go (m env t) h
    where
      go :
          (o : Outcome A)
          → P (trace_of o)
          → P (
              trace_of (elim o [
                | returns a t' ↦ returns a t'
                | fails e t' ↦ fails (Error.wrap text e) t'
              ]))
      go (returns a t') h = h
      go (fails e t') h = h

module _ {A : Type 0} {P : Trace → Type 0} where
  pub Keeps-wrapping : (text : String) (m : M A) → Keeps P m → Keeps P (wrapping text m)
  Keeps-wrapping text m k = record { at = λ env t h. trace-wrapping P text m env t (k.at env t h) }

module _ {A B : Type 0} {P : Trace → Type 0} where
  bind_outcome :
      (f : A → M B)
      → ((a : A) → Keeps P (f a))
      → (env : Env) (o : Outcome A) → P (trace_of o)
      → P (
          trace_of
            (elim o as (λ _. Outcome B) [ returns a t' ↦ f a env t' | fails e t' ↦ fails e t' ]))
  bind_outcome f kf env (returns a t') h = (kf a).at env t' h
  bind_outcome f kf env (fails e t') h = h

  pub Keeps-bind :
      (first : M A) (next : A → M B)
      → Keeps P first
      → ((a : A) → Keeps P (next a))
      → Keeps P (first >>= next)
  unfolding ◌>>=◌
  Keeps-bind first next kept rest = record {
    at = λ env t h. bind_outcome next rest env (first env t) (kept.at env t h);
  }

pub ruleset keeps_rules = (
  Keeps-pure, Keeps-raise, Keeps-call, Keeps-or_fail, Keeps-succeed, Keeps-or_wrap,
  Keeps-succeed_or_wrap, Keeps-if, Keeps-wrapping, Keeps-bind,
)
