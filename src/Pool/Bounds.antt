-- ===== src/Pool/Bounds.antt =====
-- `PoolReconciler.Reconcile` keeps a pool within its size and its filling limit.
use boilerhouse.Common.{
  ◌+◌, ◌≡◌, refl, ◌∙◌, ℕ, arith, inl, inr, String, Option, none, some, List, [], ◌∷◌, ltb, length,
  if◌then◌else◌,
}
use boilerhouse.Types.Workload.{Workload}
use boilerhouse.Types.Pool.{Pool, healthy, degraded, PoolPhase}
use boilerhouse.Types.Pod.{Pod}
use boilerhouse.Translate.Container.{DecodeEnv}
use boilerhouse.Translate.Objects.{label_workload}
use boilerhouse.Cluster.{
  M, Requeue, ◌>>=◌, is_not_found, Env, Result, ok, err, event, Request, Response, Trace, trace_of,
  call, list_pods, create_pod, delete_pod, get_workload, or_fail, unless_missing,
}
use boilerhouse.Cluster.Keeps.{
  Keeps, keeps_rules, Keeps-call, Keeps-bind, Keeps-if, Keeps-succeed, Keeps-raise,
}
use boilerhouse.Cluster.Triple.{
  Triple, Triple-Keeps, Triple-call, Triple-bind, Triple-pure, Triple-pre, Triple-if,
  Triple-wrapping, Triple-ok, Triple-err, at_end,
}
use boilerhouse.Pool.Reconcile.{
  pool_pods, list_pool_pods, relabel, fill_gap, set_pool_status, manage_pods, of_workload,
  has_pool_status, delete_listed, delete_pool_pods, finalize_pool, reconcile_found, live_or_deleted,
  is_workload_ready,
}
use boilerhouse.Claim.Reconciler.{contains_finalizer}
use boilerhouse.Pool.Fill.{
  Bounded, creations, Listed, Made, still_warming, relabel-Made, fill_gap-Bounded,
}

-- Requests that create no Pod.
abbrev Uncreating : Request → Type 0
Uncreating (create_pod p) = ⊥
Uncreating _ = Unit

Listed-cons :
    (pods : List Pod) (r : Request) (x : Response r) (t : Trace)
    → Listed pods t
    → Listed pods (event r x ∷ t)
Listed-cons pods (list_pods ns labels) (ok ps) t h = inr h
Listed-cons pods _ x t h = h

creations-cons :
    (r : Request) (x : Response r) (t : Trace)
    → Uncreating r
    → creations (event r x ∷ t) ≡ creations t
creations-cons (create_pod p) x t h = absurd h
creations-cons _ x t h = refl

-- Nothing has been created.
abbrev Unused : Trace → Type 0
Unused t = creations t ≡ 0

-- What an answer to a listing says.
abbrev Answered : Result (List Pod) → Trace → Type 0
Answered (ok pods) t = Made pods 0 t
Answered (err e) t = Unused t

module _ (pool : Pool) where
  Bounded-cons :
      (r : Request) (x : Response r) (t : Trace)
      → Uncreating r
      → Bounded pool t
      → Bounded pool (event r x ∷ t)
  Bounded-cons r x t u (inl none_made) = inl (creations-cons r x t u ∙ none_made)
  Bounded-cons r x t u (inr (pods, listed, size, limit)) = inr (
    pods,
    Listed-cons pods r x t listed,
    rw (creations-cons r x t u) size,
    rw (creations-cons r x t u) limit,
  )

  Keeps-Uncreating : (r : Request) → Uncreating r → Keeps (Bounded pool) (call r)
  Keeps-Uncreating r u = Keeps-call r (λ t x h. Bounded-cons r x t u h)

  set_pool_status-Bounded :
      (ready_count warming : ℕ) (phase : PoolPhase)
      → Keeps (Bounded pool) (set_pool_status pool ready_count warming phase)
  unfolding set_pool_status
  set_pool_status-Bounded ready_count warming phase = search keeps_rules

  delete_listed-Bounded : (pods : List Pod) → Keeps (Bounded pool) (delete_listed pods)
  unfolding delete_listed
  delete_listed-Bounded [] = search keeps_rules
  delete_listed-Bounded (p ∷ ps) =
      let ih = delete_listed-Bounded ps in
      Keeps-if (has_pool_status p) _ _
        (Keeps-bind (call (delete_pod p)) _ (Keeps-Uncreating (delete_pod p) tt)
          (λ outcome. Keeps-bind _ _ (Keeps-succeed (unless_missing outcome)) (λ _. ih)))
        ih

  finalize_pool-Bounded : Keeps (Bounded pool) (finalize_pool pool)
  unfolding finalize_pool delete_pool_pods
  finalize_pool-Bounded = search (keeps_rules, Keeps-Uncreating, delete_listed-Bounded) depth 14

  list_pool_pods-Fresh :
      (ns workload : String)
      → Triple
          (Bounded pool)
          Unused
          (λ found t. (pods : List Pod) × (found ≡ pool_pods pods) × Made pods 0 t)
          (list_pool_pods ns workload)
  unfolding list_pool_pods
  list_pool_pods-Fresh ns workload =
      Triple-bind Answered (Triple-call (list_pods ns ((label_workload, workload) ∷ [])) answered)
        (λ answer.
          Triple-bind (λ pods. Made pods 0) (fresh answer)
            (λ pods. Triple-pure (pool_pods pods) (λ t m. (pods, refl, m))))
    where
      answered :
          (t : Trace) (x : Result (List Pod))
          → Unused t
          → Answered x (event (list_pods ns ((label_workload, workload) ∷ [])) x ∷ t)
      answered t (ok pods) h = (inl refl, omega (arith, h))
      answered t (err e) h = h

      fresh :
          (x : Result (List Pod))
          → Triple (Bounded pool) (Answered x) (λ pods. Made pods 0) (or_fail x)
      fresh (ok pods) = Triple-ok pods (λ t m. m)
      fresh (err e) = Triple-err e (λ t. inl)

  -- `manage_pods` behind its listing.
  abbrev with_found : DecodeEnv → Workload → List Pod → M Requeue
  with_found decode wl found = do
    counts ← relabel found 0 0
    warming ← fill_gap decode pool wl (length found) counts.0
    set_pool_status pool counts.1 warming (if ltb 0 warming then degraded else healthy)

  with_found-Fresh :
      (decode : DecodeEnv) (wl : Workload) (pods : List Pod)
      → Triple
          (Bounded pool)
          (Made pods 0)
          (λ _. Bounded pool)
          (with_found decode wl (pool_pods pods))
  with_found-Fresh decode wl pods =
      Triple-bind (λ counts t. (counts.0 ≡ still_warming (pool_pods pods) + 0) × Made pods 0 t)
        (relabel-Made pool pods (pool_pods pods) 0 0)
        (λ counts. record {
          at = λ env t h.
              (Triple-bind (λ _. Bounded pool)
                  (fill_gap-Bounded pool pods decode wl counts.0 (omega (arith, h.0)))
                  (λ warming. Triple-Keeps (set_pool_status-Bounded counts.1 warming _))).at
                env t h.1;
        })

  with_found-Bounded :
      (decode : DecodeEnv) (wl : Workload) (found : List Pod)
      → Triple
          (Bounded pool)
          (λ t. (pods : List Pod) × (found ≡ pool_pods pods) × Made pods 0 t)
          (λ _. Bounded pool)
          (with_found decode wl found)
  with_found-Bounded decode wl found = record {
    at = λ env t known. rw known.1 ((with_found-Fresh decode wl known.0).at env t known.2);
  }

  manage_pods-Bounded :
      (decode : DecodeEnv) (wl : Workload)
      → Triple (Bounded pool) Unused (λ _. Bounded pool) (manage_pods decode pool wl)
  unfolding manage_pods
  manage_pods-Bounded decode wl =
      Triple-bind (λ found t. (pods : List Pod) × (found ≡ pool_pods pods) × Made pods 0 t)
        (Triple-wrapping "listing pool pods"
          (list_pool_pods-Fresh pool.meta.namespace pool.spec.workload_ref))
        (with_found-Bounded decode wl)

  of_workload-Bounded :
      (decode : DecodeEnv) (answer : Result Workload)
      → Triple (Bounded pool) Unused (λ _. Bounded pool) (of_workload decode pool answer)
  unfolding of_workload
  of_workload-Bounded decode (err e) =
      Triple-pre (λ t. inl)
        (Triple-Keeps
          (Keeps-if (is_not_found e) _ _ (set_pool_status-Bounded 0 0 _) (Keeps-raise e)))
  of_workload-Bounded decode (ok wl) =
      Triple-if (is_workload_ready wl) (manage_pods-Bounded decode wl)
        (Triple-pre (λ t. inl) (Triple-Keeps (set_pool_status-Bounded 0 0 _)))

  live-Bounded :
      (decode : DecodeEnv) (deletion : Option ℕ)
      → Triple (Bounded pool) Unused (λ _. Bounded pool) (live_or_deleted decode pool deletion)
  unfolding live_or_deleted
  live-Bounded decode (some time) = Triple-pre (λ t. inl) (Triple-Keeps finalize_pool-Bounded)
  live-Bounded decode none =
      Triple-bind (λ _. Unused) (Triple-call (get_workload _) (λ t x h. h))
        (of_workload-Bounded decode)

  reconcile_found-Bounded :
      (decode : DecodeEnv)
      → Triple (Bounded pool) Unused (λ _. Bounded pool) (reconcile_found decode pool)
  unfolding reconcile_found
  reconcile_found-Bounded decode =
      Triple-if (contains_finalizer pool.meta) (live-Bounded decode pool.meta.deletion_timestamp)
        (Triple-pre (λ t. inl) (Triple-Keeps (search keeps_rules depth 8)))

pub reconcile_found-bounds :
    (decode : DecodeEnv) (pool : Pool) (env : Env)
    → Bounded pool (trace_of (reconcile_found decode pool env []))
reconcile_found-bounds decode pool env =
    at_end (Bounded pool) (λ _ t h. h) (λ t h. h) (reconcile_found-Bounded pool decode) env refl
