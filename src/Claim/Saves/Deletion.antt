-- ===== src/Claim/Saves/Deletion.antt =====
-- `handleDeletion`: no Pod is deleted unsaved.
use boilerhouse.Common.{String, List, [], Option, none, some, ◌≡◌, ◌≢◌, true, ◌⊎◌, inl, inr}
use boilerhouse.Types.Workload.{Workload, IdleAction, hibernate, destroy, unset}
use boilerhouse.Types.Claim.{Claim}
use boilerhouse.Types.Pod.{Pod}
use boilerhouse.Cluster.{Env, Trace, Result, trace_of, call, get_workload, update_claim}
use boilerhouse.Cluster.Keeps.{Keeps, keeps_rules, Keeps-call, Keeps-pure, Keeps-if}
use boilerhouse.Cluster.Triple.{
  Triple, Triple-Keeps, Keeps-Triple, Triple-call, Triple-bind, Triple-pure, Triple-pre,
  Triple-within,
}
use boilerhouse.Claim.Reconciler.{Reconciler, contains_finalizer}
use boilerhouse.Claim.Release.{Extracted, workload_key}
use boilerhouse.Claim.Deletion.{
  deletion_action, deletion_dirs, extract_before_deletion, after_extract, finish_deletion,
  delete_pod_of, handle_deletion,
}
use boilerhouse.Claim.Token.{delete_claim_token}
use boilerhouse.Claim.Quiet
use boilerhouse.Claim.Saves.Extraction.{
  SafeDeletes, SafeDeletes-Quiet, Ready, extract_dirs-Ready, remove_pod-Safe, Excused, Excused-cons,
}

-- A deletion saves no workload that cannot be read, is not to hibernate, or has no overlay directories.
abbrev pub Discarded : Result Workload → Type 0
Discarded wl = (deletion_action wl ≢ hibernate) ⊎ (deletion_dirs wl ≡ [])

-- The workload's answer is known, and has been recorded where it excuses.
abbrev Known : Result Workload → Trace → Type 0
Known wl t = (Discarded wl → Excused Discarded t) × SafeDeletes Discarded t

Known-Quiet : (wl : Result Workload) → Quiet.IgnoresQuiet (Known wl)
Known-Quiet wl r x t quiet h =
    (λ u. Excused-cons Discarded r x t (h.0 u), SafeDeletes-Quiet Discarded r x t quiet h.1)

module _ (r : Reconciler) (claim : Claim) where
  update_claim-Keeps : (c : Claim) → Keeps (SafeDeletes Discarded) (call (update_claim c))
  update_claim-Keeps c = Keeps-call (update_claim c) (λ t x h. h)

  saves_token : Keeps (SafeDeletes Discarded) (delete_claim_token claim)
  saves_token = Quiet.delete_claim_token-Keeps (SafeDeletes-Quiet Discarded) claim

  finish_deletion-Keeps : Keeps (SafeDeletes Discarded) (finish_deletion claim)
  unfolding finish_deletion
  finish_deletion-Keeps = search (keeps_rules, update_claim-Keeps, saves_token) depth 10

  module _ (pod : Pod) where
    extract-Ready :
        r.snapshots ≡ true
        → (action : IdleAction) (dirs : List String)
        → Triple
            (SafeDeletes Discarded)
            (λ t.
              ((action ≢ hibernate) ⊎ (dirs ≡ []) → Excused Discarded t) × SafeDeletes Discarded t)
            (Ready Discarded pod.meta.name)
            (extract_before_deletion r action claim pod dirs)
    unfolding extract_before_deletion
    extract-Ready on hibernate dirs = rw on (
        Triple-pre (λ t h. (λ e. h.0 (inr e), h.1)) (extract_dirs-Ready Discarded r claim pod dirs))
    extract-Ready on destroy dirs =
        Triple-pure none (λ t h. (inr (h.0 (inl (λ e. absurd (cc)))), h.1))
    extract-Ready on unset dirs =
        Triple-pure none (λ t h. (inr (h.0 (inl (λ e. absurd (cc)))), h.1))

    after_extract-Safe :
        (action : IdleAction) (x : Extracted)
        → Triple
            (SafeDeletes Discarded)
            (Ready Discarded pod.meta.name x)
            (λ _. SafeDeletes Discarded)
            (after_extract r action claim pod x)
    unfolding after_extract
    after_extract-Safe action (some e) = Triple-pure _ (λ t h. h)
    after_extract-Safe action none =
        Triple-bind (λ _. SafeDeletes Discarded)
          (remove_pod-Safe Discarded r action "deleting pod on claim deletion" claim pod)
          (λ _. Triple-Keeps finish_deletion-Keeps)

  found-Safe :
      r.snapshots ≡ true
      → (wl : Result Workload) (o : Option Pod)
      → Triple
          (SafeDeletes Discarded)
          (Known wl)
          (λ _. SafeDeletes Discarded)
          (delete_pod_of r wl claim o)
  unfolding delete_pod_of
  found-Safe on wl none = Triple-pre (λ t h. h.1) (Triple-Keeps finish_deletion-Keeps)
  found-Safe on wl (some pod) =
      Triple-bind (Ready Discarded pod.meta.name)
        (extract-Ready pod on (deletion_action wl) (deletion_dirs wl))
        (after_extract-Safe pod (deletion_action wl))

  handled-Safe : r.snapshots ≡ true → Keeps (SafeDeletes Discarded) (handle_deletion r claim)
  unfolding handle_deletion
  handled-Safe on =
      Keeps-if (contains_finalizer claim.meta) _ _
        (Keeps-Triple (
          Triple-bind Known
            (Triple-call (get_workload (workload_key claim)) (λ t x h. (λ u. inl u, h)))
            (λ wl.
              Triple-bind (λ _. Known wl)
                (Triple-within (λ t h. h.1) (Quiet.find_tenant_pod-Keeps (Known-Quiet wl) _ _ _))
                (found-Safe on wl))))
        (Keeps-pure _)

pub handle_deletion-SafeDeletes :
    (r : Reconciler) (claim : Claim) (env : Env)
    → r.snapshots ≡ true
    → SafeDeletes Discarded (trace_of (handle_deletion r claim env []))
handle_deletion-SafeDeletes r claim env on = (handled-Safe r claim on).at env [] tt
