-- ===== src/Claim/Revocation.antt =====
-- `releaseClaim` and `handleDeletion`: the API token of a claim is gone before the claim is.
use boilerhouse.Common.{String, [], ◌∷◌, Option, none, some, ◌≡◌, refl, ◌⊎◌, inl}
use boilerhouse.Types.Meta.{Key}
use boilerhouse.Types.Workload.{Workload, IdleAction}
use boilerhouse.Types.Claim.{Claim, released}
use boilerhouse.Types.Pod.{Pod}
use boilerhouse.Cluster.{
  Env, Error, Result, Trace, event, trace_of, get_workload, update_claim, update_claim_status,
  delete_secret, delete_pod, succeed_or_wrap, unless_missing, ◌>>=◌,
}
use boilerhouse.Cluster.Keeps.{
  Keeps, keeps_rules, Keeps-call, Keeps-pure, Keeps-bind, Keeps-if, Keeps-succeed,
}
use boilerhouse.Cluster.Triple.{
  Triple, Triple-Keeps, Keeps-Triple, Triple-call, Triple-bind, Triple-wrapping,
}
use boilerhouse.Claim.Reconciler.{Reconciler, write_status, contains_finalizer}
use boilerhouse.Claim.Token.{claim_token_secret_name, delete_claim_token}
use boilerhouse.Claim.Release
use boilerhouse.Claim.Release.{
  Extracted, find_tenant_pod, release_pod, release_claim, mark_released, mark_release_failed,
  remove_pod, workload_key,
}
use boilerhouse.Claim.Deletion
use boilerhouse.Claim.Deletion.{delete_pod_of, finish_deletion, handle_deletion}
use boilerhouse.Claim.Quiet
use boilerhouse.Claim.Quiet.{IgnoresQuiet}

module _ (claim : Claim) where
  abbrev pub IsTokenKey : Key → Type 0
  IsTokenKey k =
      (k.name ≡ claim_token_secret_name claim.meta.name) × (k.namespace ≡ claim.meta.namespace)

  -- The Secret of the claim was deleted, or found missing.
  abbrev pub Revoked : Trace → Type 0
  Revoked [] = ⊥
  Revoked (event (delete_secret k) x ∷ t) = (IsTokenKey k × (unless_missing x ≡ none)) ⊎ Revoked t
  Revoked (_ ∷ t) = Revoked t

  -- Every write of the claim that lets it go, and every write of its status as released, comes after that.
  abbrev pub RevokesFirst : Trace → Type 0
  RevokesFirst [] = Unit
  RevokesFirst (event (update_claim c) x ∷ t) = Revoked t × RevokesFirst t
  RevokesFirst (event (update_claim_status c) x ∷ t) =
      (c.status.phase ≡ released → Revoked t) × RevokesFirst t
  RevokesFirst (_ ∷ t) = RevokesFirst t

  RevokesFirst-Quiet : IgnoresQuiet RevokesFirst
  RevokesFirst-Quiet (update_claim c) x t h s = absurd h
  RevokesFirst-Quiet (update_claim_status c) x t h s = absurd h
  RevokesFirst-Quiet _ x t h s = s

  abbrev Cleared : Trace → Type 0
  Cleared t = Revoked t × RevokesFirst t

  -- Only a tolerated answer lets the step return.
  succeed-Cleared :
      (text : String) (o : Option Error)
      → Triple RevokesFirst
          (λ t. (o ≡ none → Revoked t) × RevokesFirst t)
          (λ _. Cleared)
          (succeed_or_wrap text o)
  unfolding ◌>>=◌
  succeed-Cleared text none = record { at = λ env t h. (h.0 refl, h.1) }
  succeed-Cleared text (some e) = record { at = λ env t h. h.1 }

  delete_claim_token-Cleared :
      Triple RevokesFirst RevokesFirst (λ _. Cleared) (delete_claim_token claim)
  unfolding delete_claim_token
  delete_claim_token-Cleared =
      Triple-bind (λ o t. (unless_missing o ≡ none → Revoked t) × RevokesFirst t)
        (Triple-call (delete_secret _) (λ t x h. (λ gone. inl ((refl, refl), gone), h)))
        (λ o. succeed-Cleared "deleting token secret" (unless_missing o))

  mark_released-First : (action : IdleAction) → Keeps RevokesFirst (mark_released action claim)
  unfolding mark_released write_status
  mark_released-First action = Keeps-Triple (
      Triple-bind (λ _. Cleared) (Triple-wrapping "revoking claim token" delete_claim_token-Cleared)
        (λ _.
          Triple-bind (λ _. RevokesFirst)
            (Triple-bind (λ _. RevokesFirst)
              (Triple-call (update_claim_status _) (λ t x h. (λ _. h.0, h.1)))
              (λ o. Triple-Keeps (Keeps-succeed o)))
            (λ _. Triple-Keeps (Keeps-pure _))))

  finish_deletion-First : Keeps RevokesFirst (finish_deletion claim)
  unfolding finish_deletion
  finish_deletion-First = Keeps-Triple (
      Triple-bind (λ _. Cleared)
        (Triple-wrapping "revoking claim token on deletion" delete_claim_token-Cleared)
        (λ _.
          Triple-bind (λ _. RevokesFirst) (Triple-call (update_claim _) (λ t x h. h))
            (λ o. Triple-Keeps (search keeps_rules))))

  mark_release_failed-First :
      (detail : String) → Keeps RevokesFirst (mark_release_failed claim detail)
  unfolding mark_release_failed write_status
  mark_release_failed-First detail =
      Keeps-bind _ _
        (Keeps-bind _ _ (Keeps-call (update_claim_status _) (λ t x h. (λ e. absurd cc, h)))
          (λ o. Keeps-succeed o))
        (λ _. Keeps-pure _)

  remove_pod-First :
      (r : Reconciler) (action : IdleAction) (text : String) (pod : Pod)
      → Keeps RevokesFirst (remove_pod r action text claim pod)
  remove_pod-First r action text pod =
      Quiet.remove_pod-Keeps RevokesFirst-Quiet r action text claim pod
        (Keeps-call (delete_pod pod) (λ t x h. h))

  module _ (r : Reconciler) where
    after_release-First :
        (action : IdleAction) (pod : Pod) (x : Extracted)
        → Keeps RevokesFirst (Release.after_extract r action claim pod x)
    unfolding Release.after_extract
    after_release-First action pod (some e) = mark_release_failed-First _
    after_release-First action pod none =
        Keeps-bind _ _ (remove_pod-First r action _ pod) (λ _. mark_released-First action)

    release_pod-First :
        (action : IdleAction) (o : Option Pod) → Keeps RevokesFirst (release_pod r action claim o)
    unfolding release_pod
    release_pod-First action none = mark_released-First action
    release_pod-First action (some pod) =
        Keeps-bind _ _ (Quiet.extract_first-Keeps RevokesFirst-Quiet r action claim pod)
          (after_release-First action pod)

    release_claim-First : (action : IdleAction) → Keeps RevokesFirst (release_claim r claim action)
    unfolding release_claim
    release_claim-First action =
        Keeps-bind _ _ (Quiet.find_tenant_pod-Keeps RevokesFirst-Quiet _ _ _)
          (release_pod-First action)

    after_deletion-First :
        (action : IdleAction) (pod : Pod) (x : Extracted)
        → Keeps RevokesFirst (Deletion.after_extract r action claim pod x)
    unfolding Deletion.after_extract
    after_deletion-First action pod (some e) = Keeps-pure _
    after_deletion-First action pod none =
        Keeps-bind _ _ (remove_pod-First r action _ pod) (λ _. finish_deletion-First)

    delete_pod_of-First :
        (wl : Result Workload) (o : Option Pod) → Keeps RevokesFirst (delete_pod_of r wl claim o)
    unfolding delete_pod_of
    delete_pod_of-First wl none = finish_deletion-First
    delete_pod_of-First wl (some pod) =
        Keeps-bind _ _ (Quiet.extract_before_deletion-Keeps RevokesFirst-Quiet r _ claim pod _)
          (after_deletion-First _ pod)

    handle_deletion-First : Keeps RevokesFirst (handle_deletion r claim)
    unfolding handle_deletion
    handle_deletion-First =
        Keeps-if (contains_finalizer claim.meta) _ _
          (Keeps-bind _ _ (Quiet.Keeps-Quiet RevokesFirst-Quiet (get_workload _) tt) (λ wl.
            Keeps-bind _ _ (Quiet.find_tenant_pod-Keeps RevokesFirst-Quiet _ _ _)
              (delete_pod_of-First wl)))
          (Keeps-pure _)

pub claim_end-RevokesFirst :
    (r : Reconciler) (claim : Claim) (action : IdleAction) (env : Env)
    → RevokesFirst claim (trace_of (release_claim r claim action env []))
      × RevokesFirst claim (trace_of (handle_deletion r claim env []))
claim_end-RevokesFirst r claim action env = (
  (release_claim-First claim r action).at env [] tt,
  (handle_deletion-First claim r).at env [] tt,
)
