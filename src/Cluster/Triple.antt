-- ===== src/Cluster/Triple.antt =====
-- What holds of the history before and after a step: one statement for a value that is returned, one for
-- an error.
use boilerhouse.Common.{String, Bool, true, false, [], ◌∷◌, if◌then◌else◌}
use boilerhouse.Cluster.{
  M, Env, Outcome, returns, fails, Trace, trace_of, event, Request, Response, call, pure, ◌>>=◌,
  wrapping, ok, err, Error, or_fail, raise,
}
use boilerhouse.Cluster.Keeps.{Keeps}

abbrev pub Ends : {A : Type 0} → (A → Trace → Type 0) → (Trace → Type 0) → Outcome A → Type 0
Ends post bad (returns a t) = post a t
Ends post bad (fails e t) = bad t

-- From `pre`, `m` returns with `post` or fails with `bad`, whatever the world answers.
pub record Triple {A : Type 0} (bad pre : Trace → Type 0) (post : A → Trace → Type 0) (m : M A)
    : Type 0 where
  pub at : (env : Env) (t : Trace) → pre t → Ends post bad (m env t)

module _ {A : Type 0} (P : Trace → Type 0) where
  keeps_outcome : (o : Outcome A) → P (trace_of o) → Ends (λ _. P) P o
  keeps_outcome (returns a t) h = h
  keeps_outcome (fails e t) h = h

  outcome_kept : (o : Outcome A) → Ends (λ _. P) P o → P (trace_of o)
  outcome_kept (returns a t) h = h
  outcome_kept (fails e t) h = h

module _ {A : Type 0} (bad : Trace → Type 0) where
  mono_outcome :
      (post post' : A → Trace → Type 0)
      → ((a : A) (t : Trace) → post a t → post' a t)
      → (o : Outcome A) → Ends post bad o
      → Ends post' bad o
  mono_outcome post post' f (returns a t) h = f a t h
  mono_outcome post post' f (fails e t) h = h

module _ {A : Type 0} {bad : Trace → Type 0} where
  -- An invariant holds at every end.
  pub Triple-Keeps : {m : M A} → Keeps bad m → Triple bad bad (λ _. bad) m
  Triple-Keeps {m = m} k = record { at = λ env t h. keeps_outcome bad (m env t) (k.at env t h) }

  pub Keeps-Triple : {m : M A} → Triple bad bad (λ _. bad) m → Keeps bad m
  Keeps-Triple {m = m} k = record { at = λ env t h. outcome_kept bad (m env t) (k.at env t h) }

  pub Triple-pure :
      {pre : Trace → Type 0} {post : A → Trace → Type 0} (a : A)
      → ((t : Trace) → pre t → post a t)
      → Triple bad pre post (pure a)
  unfolding ◌>>=◌
  Triple-pure a h = record { at = λ env t p. h t p }

  pub Triple-if :
      {pre : Trace → Type 0} {post : A → Trace → Type 0} (b : Bool) {m n : M A}
      → Triple bad pre post m
      → Triple bad pre post n
      → Triple bad pre post (if b then m else n)
  Triple-if true hm hn = hm
  Triple-if false hm hn = hn

  pub Triple-pre :
      {pre pre' : Trace → Type 0} {post : A → Trace → Type 0} {m : M A}
      → ((t : Trace) → pre' t → pre t)
      → Triple bad pre post m
      → Triple bad pre' post m
  Triple-pre f h = record { at = λ env t p. h.at env t (f t p) }

  pub Triple-post :
      {pre : Trace → Type 0} {post post' : A → Trace → Type 0} {m : M A}
      → ((a : A) (t : Trace) → post a t → post' a t)
      → Triple bad pre post m
      → Triple bad pre post' m
  Triple-post {post = post} {post' = post'} {m = m} f h = record {
    at = λ env t p. mono_outcome bad post post' f (m env t) (h.at env t p);
  }

module _ {A : Type 0} (bad bad' : Trace → Type 0) where
  Ends-mono :
      (post : A → Trace → Type 0)
      → ((t : Trace) → bad t → bad' t)
      → (o : Outcome A) → Ends post bad o
      → Ends post bad' o
  Ends-mono post f (returns a t) h = h
  Ends-mono post f (fails e t) h = f t h

module _ {A : Type 0} {bad bad' : Trace → Type 0} where
  pub Triple-bad :
      {pre : Trace → Type 0} {post : A → Trace → Type 0} {m : M A}
      → ((t : Trace) → bad t → bad' t)
      → Triple bad pre post m
      → Triple bad' pre post m
  Triple-bad {post = post} {m = m} f h = record {
    at = λ env t p. Ends-mono bad bad' post f (m env t) (h.at env t p);
  }

module _ {bad : Trace → Type 0} where
  pub Triple-call :
      {pre : Trace → Type 0} (r : Request) {post : Response r → Trace → Type 0}
      → ((t : Trace) (x : Response r) → pre t → post x (event r x ∷ t))
      → Triple bad pre post (call r)
  unfolding ◌>>=◌
  Triple-call r h = record { at = λ env t p. h t (env t r) p }

-- Only the trace of a failure matters to `bad`, so a wider invariant may be kept up to it.
module _ {A : Type 0} (bad P : Trace → Type 0) where
  weaken_outcome :
      ((t : Trace) → P t → bad t) → (o : Outcome A) → P (trace_of o) → Ends (λ _. P) bad o
  weaken_outcome f (returns a t) h = h
  weaken_outcome f (fails e t) h = f t h

module _ {A : Type 0} {bad P : Trace → Type 0} where
  pub Triple-within : ((t : Trace) → P t → bad t) → {m : M A} → Keeps P m → Triple bad P (λ _. P) m
  Triple-within f {m = m} k = record {
    at = λ env t h. weaken_outcome bad P f (m env t) (k.at env t h);
  }

module _ {A B : Type 0} (bad : Trace → Type 0) where
  bind_outcome :
      (mid : A → Trace → Type 0) (post : B → Trace → Type 0) (f : A → M B) (env : Env)
      (o : Outcome A)
      → Ends mid bad o
      → ((a : A) (t : Trace) → mid a t → Ends post bad (f a env t))
      → Ends post bad
          (elim o as (λ _. Outcome B) [ returns a t' ↦ f a env t' | fails e t' ↦ fails e t' ])
  bind_outcome mid post f env (returns a t) h k = k a t h
  bind_outcome mid post f env (fails e t) h k = h

module _ {A B : Type 0} {bad : Trace → Type 0} where
  pub Triple-bind :
      {pre : Trace → Type 0} (mid : A → Trace → Type 0) {post : B → Trace → Type 0} {m : M A}
      {f : A → M B}
      → Triple bad pre mid m
      → ((a : A) → Triple bad (mid a) post (f a))
      → Triple bad pre post (m >>= f)
  unfolding ◌>>=◌
  Triple-bind mid {post = post} {m = m} {f = f} hm hf = record {
    at = λ env t p.
        bind_outcome bad mid post f env (m env t) (hm.at env t p) (λ a t' h. (hf a).at env t' h);
  }

module _ {A : Type 0} (bad : Trace → Type 0) where
  wrap_outcome :
      (text : String) (post : A → Trace → Type 0) (o : Outcome A)
      → Ends post bad o
      → Ends post bad (elim o as (λ _. Outcome A) [
        | returns a t' ↦ returns a t'
        | fails e t' ↦ fails (Error.wrap text e) t'
      ])
  wrap_outcome text post (returns a t) h = h
  wrap_outcome text post (fails e t) h = h

module _ {A : Type 0} (bad : Trace → Type 0) (post : A → Trace → Type 0) where
  end_outcome :
      (P : Trace → Type 0)
      → ((a : A) (t : Trace) → post a t → P t)
      → ((t : Trace) → bad t → P t)
      → (o : Outcome A) → Ends post bad o
      → P (trace_of o)
  end_outcome P f g (returns a t) h = f a t h
  end_outcome P f g (fails e t) h = g t h

module _ {A : Type 0} {bad pre : Trace → Type 0} {post : A → Trace → Type 0} where
  pub Triple-wrapping :
      (text : String) {m : M A} → Triple bad pre post m → Triple bad pre post (wrapping text m)
  unfolding ◌>>=◌
  Triple-wrapping text {m = m} h = record {
    at = λ env t p. wrap_outcome bad text post (m env t) (h.at env t p);
  }

  pub Triple-ok : (a : A) → ((t : Trace) → pre t → post a t) → Triple bad pre post (or_fail (ok a))
  unfolding ◌>>=◌
  Triple-ok a f = record { at = λ env t p. f t p }

  -- A step that only fails returns with anything.
  pub Triple-raise : (e : Error) → ((t : Trace) → pre t → bad t) → Triple bad pre post (raise e)
  unfolding ◌>>=◌
  Triple-raise e f = record { at = λ env t p. f t p }

  pub Triple-err :
      (e : Error) → ((t : Trace) → pre t → bad t) → Triple bad pre post (or_fail (err e))
  unfolding ◌>>=◌
  Triple-err e f = record { at = λ env t p. f t p }

  -- Both ways to end give a statement about the history.
  pub at_end :
      {m : M A} (P : Trace → Type 0)
      → ((a : A) (t : Trace) → post a t → P t)
      → ((t : Trace) → bad t → P t)
      → Triple bad pre post m
      → (env : Env) → pre []
      → P (trace_of (m env []))
  at_end {m = m} P f g h env p = end_outcome bad post P f g (m env []) (h.at env [] p)

module _ {A : Type 0} where
  both-Ends :
      (bad : Trace → Type 0) (post post' : A → Trace → Type 0) (o : Outcome A)
      → Ends post bad o
      → Ends post' bad o
      → Ends (λ a t. post a t × post' a t) bad o
  both-Ends bad post post' (returns a t) h h' = (h, h')
  both-Ends bad post post' (fails e t) h h' = h

module _ {A : Type 0} {bad pre : Trace → Type 0} {post post' : A → Trace → Type 0} where
  -- Two statements about one step.
  pub Triple-both :
      {m : M A}
      → Triple bad pre post m
      → Triple bad pre post' m
      → Triple bad pre (λ a t. post a t × post' a t) m
  Triple-both {m = m} h h' = record {
    at = λ env t p. both-Ends bad post post' (m env t) (h.at env t p) (h'.at env t p);
  }
