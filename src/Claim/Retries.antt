-- ===== src/Claim/Retries.antt =====
-- `extractWithRetry`: how often it tries, how long it waits, and what its answer means.
use mathlib.Core.Path.{subst₂}
use boilerhouse.Common.{
  suc, ℕ, ◌+◌, ◌*◌, ◌≤◌, String, List, [], ◌∷◌, none, some, ◌≡◌, refl, ◌⊎◌, inl, inr, true, false,
  Bool, arith, if◌then◌else◌,
}
use boilerhouse.Common.{length}
use boilerhouse.Types.Meta.{second}
use boilerhouse.Cluster.{
  M, Env, Outcome, returns, fails, Trace, event, pure, extract_and_store, sleep,
}
use boilerhouse.Cluster.Triple.{
  Triple, Ends, Triple-call, Triple-bind, Triple-pure, Triple-pre, Triple-post,
}
use boilerhouse.Claim.Reconciler.{Reconciler}
use boilerhouse.Claim.Release.{
  Extracted, retry, extract_loop, extract_with_retry, or_default, context_canceled,
}

abbrev pub attempts : Trace → ℕ
attempts [] = 0
attempts (event (extract_and_store p tenant workload dirs) x ∷ t) = 1 + attempts t
attempts (_ ∷ t) = attempts t

-- The delays that were asked for.
abbrev pub slept : Trace → ℕ
slept [] = 0
slept (event (sleep d) x ∷ t) = d + slept t
slept (_ ∷ t) = slept t

-- The last delay of a schedule is never slept.
abbrev pub without_last : List ℕ → ℕ
without_last [] = 0
without_last (d ∷ []) = 0
without_last (d ∷ d' ∷ rest) = d + without_last (d' ∷ rest)

-- What came last: a stored snapshot, or a sleep that the end of the context cut short.
abbrev pub EndsStored : Trace → Type 0
EndsStored (event (extract_and_store p tenant workload dirs) none ∷ t) = Unit
EndsStored _ = ⊥

abbrev pub EndsCut : Trace → Type 0
EndsCut (event (sleep d) false ∷ t) = Unit
EndsCut _ = ⊥

-- Success is a stored snapshot; an error is one of all `k` attempts, or the context's.
abbrev pub Means : ℕ → Extracted → Trace → Type 0
Means k none t = EndsStored t
Means k (some e) t = (attempts t ≡ k) ⊎ EndsCut t

abbrev Never : Trace → Type 0
Never t = ⊥

abbrev At : ℕ → ℕ → Trace → Type 0
At n m t = (attempts t ≡ n) × (slept t ≡ m)

abbrev pub Within : ℕ → ℕ → Extracted → Trace → Type 0
Within k w x t = (attempts t ≤ k) × (slept t ≤ w) × Means k x t

-- After one attempt.
abbrev Tried : ℕ → ℕ → Extracted → Trace → Type 0
Tried n m none t = At (1 + n) m t × EndsStored t
Tried n m (some e) t = At (1 + n) m t

sleep-At :
    (n m d : ℕ) {k w : ℕ} {next : M Extracted}
    → n ≤ k
    → d + m ≤ w
    → Triple Never (At n (d + m)) (Within k w) next
    → (on_time : Bool)
    → Triple Never
        (λ t. At n (d + m) t × (if on_time then Unit else EndsCut t))
        (Within k w)
        (if on_time then next else pure (some context_canceled))
sleep-At n m d few short rest true = Triple-pre (λ t h. h.0) rest
sleep-At n m d few short rest false =
    Triple-pure (some context_canceled) (λ t h. (rw h.0.0 few, rw h.0.1 short, inr h.1))

slept_event :
    (n m d : ℕ) (t : Trace) (on_time : Bool)
    → At (1 + n) m t
    → At (1 + n) (d + m) (event (sleep d) on_time ∷ t)
      × (if on_time then Unit else EndsCut (event (sleep d) on_time ∷ t))
slept_event n m d t true h = ((h.0, rw h.1 refl), tt)
slept_event n m d t false h = ((h.0, rw h.1 refl), tt)

retry-Within :
    (n m d : ℕ) {k w : ℕ} {next : M Extracted}
    → 1 + n ≤ k
    → d + m ≤ w
    → Triple Never (At (1 + n) (d + m)) (Within k w) next
    → (x : Extracted) → Triple Never (Tried n m x) (Within k w) (retry d next x)
unfolding retry
retry-Within n m d few short rest none =
    Triple-pure none (λ t h. (rw h.0.0 few, ground (h.0.1, short, arith), h.1))
retry-Within n m d few short rest (some e) =
    Triple-bind (λ on_time t. At (1 + n) (d + m) t × (if on_time then Unit else EndsCut t))
      (Triple-call (sleep d) (slept_event n m d)) (sleep-At (1 + n) m d few short rest)

-- The bounds of a later attempt are those of the whole schedule.
later : (n l d m w : ℕ) → (1 + n + l ≡ n + suc l) × (w + (d + m) ≡ d + w + m)
later n l d m w = (omega arith, omega arith)

module _ (pod tenant workload : String) (dirs : List String) where
  Tried-event :
      (n m : ℕ) (t : Trace) (x : Extracted)
      → At n m t
      → Tried n m x (event (extract_and_store pod tenant workload dirs) x ∷ t)
  Tried-event n m t none h = ((rw h.0 refl, h.1), tt)
  Tried-event n m t (some e) h = (rw h.0 refl, h.1)

  last_event : (n m : ℕ) (x : Extracted) (t : Trace) → Tried n m x t → Within (n + 1) (0 + m) x t
  last_event n m none t h = (rw h.0.0 (omega arith), rw h.0.1 (omega arith), h.1)
  last_event n m (some e) t h =
      (rw h.0 (omega arith), rw h.1 (omega arith), inl (ground (h.0, arith)))

  extract_loop-Within :
      (n m d : ℕ) (rest : List ℕ)
      → Triple Never
          (At n m)
          (Within (n + length (d ∷ rest)) (without_last (d ∷ rest) + m))
          (extract_loop pod tenant workload dirs (d ∷ rest))
  unfolding extract_loop
  extract_loop-Within n m d [] =
      Triple-post (last_event n m)
        (Triple-call (extract_and_store pod tenant workload dirs) (Tried-event n m))
  extract_loop-Within n m d (d' ∷ rest) =
      Triple-bind (Tried n m)
        (Triple-call (extract_and_store pod tenant workload dirs) (Tried-event n m))
        (retry-Within n m d (omega arith) (omega arith) (
          subst₂
            (λ k w.
              Triple Never (At (1 + n) (d + m)) (Within k w)
                (extract_loop pod tenant workload dirs (d' ∷ rest)))
            (later n (length (d' ∷ rest)) d m (without_last (d' ∷ rest))).0
            (later n (length (d' ∷ rest)) d m (without_last (d' ∷ rest))).1
            (extract_loop-Within (1 + n) (d + m) d' rest)))

from_start : (l w : ℕ) → (0 + l ≡ l) × (w + 0 ≡ w)
from_start l w = (omega arith, omega arith)

loop-Within :
    (pod tenant workload : String) (dirs : List String) (d : ℕ) (rest : List ℕ)
    → Triple Never
        (At 0 0)
        (Within (length (d ∷ rest)) (without_last (d ∷ rest)))
        (extract_loop pod tenant workload dirs (d ∷ rest))
loop-Within pod tenant workload dirs d rest =
    subst₂
      (λ k w. Triple Never (At 0 0) (Within k w) (extract_loop pod tenant workload dirs (d ∷ rest)))
      (from_start (length (d ∷ rest)) (without_last (d ∷ rest))).0
      (from_start (length (d ∷ rest)) (without_last (d ∷ rest))).1
      (extract_loop-Within pod tenant workload dirs 0 0 d rest)

schedule-Within :
    (pod tenant workload : String) (dirs : List String) (backoff : List ℕ)
    → Triple Never
        (At 0 0)
        (Within (length (or_default backoff)) (without_last (or_default backoff)))
        (extract_loop pod tenant workload dirs (or_default backoff))
unfolding or_default
schedule-Within pod tenant workload dirs [] =
    loop-Within pod tenant workload dirs (1 * second) ((4 * second) ∷ (16 * second) ∷ [])
schedule-Within pod tenant workload dirs (d ∷ rest) = loop-Within pod tenant workload dirs d rest

-- A step that never fails returns.
returned :
    (post : Extracted → Trace → Type 0) (o : Outcome Extracted)
    → Ends post Never o
    → (x : Extracted) × (t : Trace) × (o ≡ returns x t) × post x t
returned post (returns x t) h = (x, t, refl, h)
returned post (fails e t) h = absurd h

-- Whatever the world answers, `extractWithRetry` comes to an answer, after at most as many attempts as the
-- schedule has delays, and after asking for sleeps of at most the sum of all its delays but the last. The answer
-- is none only if the last call stored a snapshot; it is an error only if every attempt of the schedule was
-- made, or the context ended during the last sleep.
pub extract_with_retry-Within :
    (r : Reconciler) (pod tenant workload : String) (dirs : List String) (env : Env)
    → (x : Extracted) × (t : Trace) × (extract_with_retry r pod tenant workload dirs env []
        ≡ returns x t)
      × Within
          (length (or_default r.extract_retry_backoff))
          (without_last (or_default r.extract_retry_backoff))
          x
          t
unfolding extract_with_retry
extract_with_retry-Within r pod tenant workload dirs env =
    returned _ _
      ((schedule-Within pod tenant workload dirs r.extract_retry_backoff).at env [] (refl, refl))
