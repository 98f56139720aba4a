-- ===== src/Claim/Saves/Release.antt =====
-- `releaseClaim` with action `hibernate`: no Pod is deleted unsaved.
use boilerhouse.Common.{String, inr, [], Option, none, some, ◌≡◌, true, inl}
use boilerhouse.Types.Workload.{Workload, IdleAction, hibernate}
use boilerhouse.Types.Claim.{Claim}
use boilerhouse.Types.Pod.{Pod}
use boilerhouse.Translate.Build.{overlay_dirs}
use boilerhouse.Cluster.{Env, Result, ok, err, trace_of, get_workload, call, update_claim_status}
use boilerhouse.Cluster.Keeps.{Keeps, keeps_rules, Keeps-call, Keeps-bind}
use boilerhouse.Cluster.Triple.{
  Triple, Triple-Keeps, Keeps-Triple, Triple-call, Triple-bind, Triple-pure,
}
use boilerhouse.Claim.Reconciler.{Reconciler, write_status}
use boilerhouse.Claim.Release.{
  Extracted, extract_of, extract_first, after_extract, release_pod, release_claim, find_tenant_pod,
  workload_key, mark_release_failed, mark_released,
}
use boilerhouse.Claim.Token.{delete_claim_token}
use boilerhouse.Claim.Quiet
use boilerhouse.Claim.Saves.Extraction.{
  SafeDeletes, SafeDeletes-Quiet, Ready, extract_dirs-Ready, remove_pod-Safe, Excused,
}

-- A release asks for no snapshot of a workload that cannot be read or has no overlay directories.
abbrev pub Unsaved : Result Workload → Type 0
Unsaved (err e) = Unit
Unsaved (ok wl) = overlay_dirs wl.spec ≡ []

saves_status : (c : Claim) → Keeps (SafeDeletes Unsaved) (call (update_claim_status c))
saves_status c = Keeps-call (update_claim_status c) (λ t x h. h)

saves_token : (claim : Claim) → Keeps (SafeDeletes Unsaved) (delete_claim_token claim)
saves_token claim = Quiet.delete_claim_token-Keeps (SafeDeletes-Quiet Unsaved) claim

-- No status update of a claim is a deletion.
module _ (claim : Claim) where
  mark_release_failed-Keeps :
      (detail : String) → Keeps (SafeDeletes Unsaved) (mark_release_failed claim detail)
  unfolding mark_release_failed write_status
  mark_release_failed-Keeps detail = search (keeps_rules, saves_status)

  mark_released-Keeps :
      (action : IdleAction) → Keeps (SafeDeletes Unsaved) (mark_released action claim)
  unfolding mark_released write_status
  mark_released-Keeps action = search (keeps_rules, saves_status, saves_token) depth 8

module _ (r : Reconciler) (claim : Claim) (pod : Pod) where
  extract_of-Ready :
      (answer : Result Workload)
      → Triple
          (SafeDeletes Unsaved)
          (λ t. (Unsaved answer → Excused Unsaved t) × SafeDeletes Unsaved t)
          (Ready Unsaved pod.meta.name)
          (extract_of r claim pod answer)
  unfolding extract_of
  extract_of-Ready (err e) = Triple-pure none (λ t h. (inr (h.0 tt), h.1))
  extract_of-Ready (ok wl) = extract_dirs-Ready Unsaved r claim pod (overlay_dirs wl.spec)

  extract_first-Ready :
      r.snapshots ≡ true
      → Triple
          (SafeDeletes Unsaved)
          (SafeDeletes Unsaved)
          (Ready Unsaved pod.meta.name)
          (extract_first r hibernate claim pod)
  unfolding extract_first
  extract_first-Ready on = rw on (
      Triple-bind (λ answer t. (Unsaved answer → Excused Unsaved t) × SafeDeletes Unsaved t)
        (Triple-call (get_workload (workload_key claim)) (λ t x h. (λ u. inl u, h)))
        extract_of-Ready)

  after_extract-Safe :
      (x : Extracted)
      → Triple
          (SafeDeletes Unsaved)
          (Ready Unsaved pod.meta.name x)
          (λ _. SafeDeletes Unsaved)
          (after_extract r hibernate claim pod x)
  unfolding after_extract
  after_extract-Safe (some e) = Triple-Keeps (mark_release_failed-Keeps claim _)
  after_extract-Safe none =
      Triple-bind (λ _. SafeDeletes Unsaved)
        (remove_pod-Safe Unsaved r hibernate "deleting pod on release" claim pod)
        (λ _. Triple-Keeps (mark_released-Keeps claim hibernate))

  release_pod-Safe :
      r.snapshots ≡ true → Keeps (SafeDeletes Unsaved) (release_pod r hibernate claim (some pod))
  unfolding release_pod
  release_pod-Safe on =
      Keeps-Triple
        (Triple-bind (Ready Unsaved pod.meta.name) (extract_first-Ready on) after_extract-Safe)

module _ (r : Reconciler) (claim : Claim) where
  release_found-Safe :
      r.snapshots ≡ true
      → (o : Option Pod) → Keeps (SafeDeletes Unsaved) (release_pod r hibernate claim o)
  unfolding release_pod
  release_found-Safe on none = mark_released-Keeps claim hibernate
  release_found-Safe on (some pod) = release_pod-Safe r claim pod on

  pub release_claim-SafeDeletes :
      (env : Env)
      → r.snapshots ≡ true
      → SafeDeletes Unsaved (trace_of (release_claim r claim hibernate env []))
  unfolding release_claim
  release_claim-SafeDeletes env on =
      (Keeps-bind (find_tenant_pod _ _ _) _
          (Quiet.find_tenant_pod-Keeps (SafeDeletes-Quiet Unsaved) _ _ _)
          (release_found-Safe on)).at
        env [] tt
