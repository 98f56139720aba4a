-- ===== src/Workload/Readiness.antt =====
-- When `WorkloadReconciler.Reconcile` calls a workload ready.
use boilerhouse.Common.{
  ℕ, String, true, List, [], ◌∷◌, Option, none, some, ◌≡◌, refl, ◌⊎◌, inl, inr, ◌==◌, ◌&&◌, nat_eq,
  Bool-cases,
}
use boilerhouse.Types.Meta.{Key}
use boilerhouse.Types.Workload.{Workload, WorkloadPhase, creating, ready}
use boilerhouse.Types.Pod.{Pod}
use boilerhouse.Cluster.{
  Env, Error, Result, ok, err, event, Trace, trace_of, is_not_found, get_workload,
  update_workload_status, build_image, delete_pod, unless_missing,
}
use boilerhouse.Cluster.Keeps.{
  Keeps, keeps_rules, Keeps-call, Keeps-if, Keeps-pure, Keeps-raise, Keeps-succeed, Keeps-bind,
}
use boilerhouse.Cluster.Triple.{
  Triple, Triple-Keeps, Keeps-Triple, Triple-call, Triple-bind, Triple-pre, Triple-if,
}
use boilerhouse.Claim.Reconciler.{contains_finalizer}
use boilerhouse.Workload.Reconcile.{
  validate_workload_spec, set_status, finish, image_tag, after_build, is_creating, build, prepare,
  by_errors, is_ready, check_spec, delete_all, delete_owned_pods, finalize_workload, enroll,
  ending_or_live, answer_workload, reconcile_workload,
}

-- The image of the Dockerfile was built under the tag.
abbrev pub WasBuilt : String → String → Trace → Type 0
WasBuilt dockerfile tag [] = ⊥
WasBuilt dockerfile tag (event (build_image d g) none ∷ t) =
    ((d ≡ dockerfile) × (g ≡ tag)) ⊎ WasBuilt dockerfile tag t
WasBuilt dockerfile tag (_ ∷ t) = WasBuilt dockerfile tag t

-- What a phase says of a workload, with the history before it.
abbrev pub Grounded : WorkloadPhase → Workload → Trace → Type 0
Grounded ready wl t =
    (validate_workload_spec wl.spec ≡ [])
    × (wl.status.observed_generation ≡ wl.meta.generation)
    × (((wl.spec.image.dockerfile == "") ≡ true)
        ⊎ WasBuilt wl.spec.image.dockerfile (image_tag wl) t)
Grounded _ wl t = Unit

-- Every status that is written is grounded.
abbrev pub IsSound : Trace → Type 0
IsSound [] = Unit
IsSound (event (update_workload_status wl) x ∷ t) = Grounded wl.status.phase wl t × IsSound t
IsSound (_ ∷ t) = IsSound t

delete_all-IsSound : (pods : List Pod) → Keeps IsSound (delete_all pods)
unfolding delete_all
delete_all-IsSound [] = search keeps_rules
delete_all-IsSound (p ∷ ps) = Keeps-bind _ _ (Keeps-call (delete_pod p) (λ t x h. h)) (λ outcome.
    Keeps-bind _ _ (Keeps-succeed (unless_missing outcome)) (λ _. delete_all-IsSound ps))

finalize_workload-IsSound : (wl : Workload) → Keeps IsSound (finalize_workload wl)
unfolding finalize_workload delete_owned_pods
finalize_workload-IsSound wl = search (keeps_rules, delete_all-IsSound) depth 14

module _ (wl : Workload) where
  -- The workload as a status update writes it.
  abbrev written : WorkloadPhase → String → Workload
  written phase detail = record wl {
    status = record { phase = phase; detail = detail; observed_generation = wl.meta.generation };
  }

  set_status-IsSound :
      (phase : WorkloadPhase) (detail : String)
      → Triple IsSound
          (λ t. Grounded phase (written phase detail) t × IsSound t)
          (λ _. IsSound)
          (set_status wl phase detail)
  unfolding set_status
  set_status-IsSound phase detail =
      Triple-bind (λ _. IsSound)
        (Triple-call (update_workload_status (written phase detail)) (λ t x h. h))
        (λ outcome. Triple-Keeps (Keeps-succeed outcome))

  finish-IsSound :
      (phase : WorkloadPhase) (detail : String)
      → Triple IsSound
          (λ t. Grounded phase (written phase detail) t × IsSound t)
          (λ _. IsSound)
          (finish wl phase detail)
  unfolding finish
  finish-IsSound phase detail =
      Triple-bind (λ _. IsSound) (set_status-IsSound phase detail)
        (λ _. Triple-Keeps (Keeps-pure _))

  abbrev Answered : Option Error → Trace → Type 0
  Answered none t = WasBuilt wl.spec.image.dockerfile (image_tag wl) t × IsSound t
  Answered (some e) t = IsSound t

  answered :
      (t : Trace) (x : Option Error)
      → IsSound t
      → Answered x (event (build_image wl.spec.image.dockerfile (image_tag wl)) x ∷ t)
  answered t none h = (inl (refl, refl), h)
  answered t (some e) h = h

  module _ (valid : validate_workload_spec wl.spec ≡ []) where
    after_build-IsSound :
        (x : Option Error) → Triple IsSound (Answered x) (λ _. IsSound) (after_build wl x)
    unfolding after_build image_tag
    after_build-IsSound none =
        Triple-pre (λ t h. ((valid, refl, inr h.0), h.1)) (finish-IsSound ready "")
    after_build-IsSound (some e) =
        Triple-pre (λ t h. (tt, h)) (finish-IsSound WorkloadPhase.error _)

    build-IsSound : Triple IsSound IsSound (λ _. IsSound) (build wl)
    unfolding build
    build-IsSound =
        Triple-if (is_creating wl.status.phase)
          (Triple-bind Answered (Triple-call (build_image _ _) answered) after_build-IsSound)
          (Triple-bind (λ _. IsSound) (Triple-pre (λ t h. (tt, h)) (set_status-IsSound creating _))
            (λ _. Triple-Keeps (Keeps-pure _)))

    prepare-IsSound : Triple IsSound IsSound (λ _. IsSound) (prepare wl)
    unfolding prepare
    prepare-IsSound = elim (Bool-cases (wl.spec.image.dockerfile == "")) [
      | inl plain ↦
          rw plain (Triple-pre (λ t h. ((valid, refl, inl plain), h)) (finish-IsSound ready ""))
      | inr built ↦ rw built build-IsSound
    ]

  by_errors-IsSound :
      (errors : List String)
      → validate_workload_spec wl.spec ≡ errors
      → Triple IsSound IsSound (λ _. IsSound) (by_errors wl errors)
  unfolding by_errors
  by_errors-IsSound [] valid = prepare-IsSound valid
  by_errors-IsSound (e ∷ es) invalid =
      Triple-pre (λ t h. (tt, h)) (finish-IsSound WorkloadPhase.error _)

  check_spec-IsSound : Keeps IsSound (check_spec wl)
  unfolding check_spec
  check_spec-IsSound =
      Keeps-if (is_ready wl.status.phase && nat_eq wl.status.observed_generation wl.meta.generation)
        _ _ (Keeps-pure _) (Keeps-Triple (by_errors-IsSound (validate_workload_spec wl.spec) refl))

  enroll-IsSound : Keeps IsSound (enroll wl)
  unfolding enroll
  enroll-IsSound =
      Keeps-if (contains_finalizer wl.meta) _ _ check_spec-IsSound (search keeps_rules depth 8)

  ending_or_live-IsSound : (deletion : Option ℕ) → Keeps IsSound (ending_or_live wl deletion)
  unfolding ending_or_live
  ending_or_live-IsSound (some time) = finalize_workload-IsSound wl
  ending_or_live-IsSound none = enroll-IsSound

answer_workload-IsSound : (x : Result Workload) → Keeps IsSound (answer_workload x)
unfolding answer_workload
answer_workload-IsSound (err e) = Keeps-if (is_not_found e) _ _ (Keeps-pure _) (Keeps-raise e)
answer_workload-IsSound (ok wl) = ending_or_live-IsSound wl wl.meta.deletion_timestamp

-- A workload is called ready only with reason, in any world: every status with that phase that
-- a reconciliation writes is for a spec without validation errors, names the generation that was read, and, if
-- the spec has a Dockerfile, comes after its image was built under the workload's tag.
pub reconcile_workload-IsSound :
    (key : Key) (env : Env) → IsSound (trace_of (reconcile_workload key env []))
unfolding reconcile_workload
reconcile_workload-IsSound key env =
    (Keeps-bind _ _ (Keeps-call (get_workload key) (λ t x h. h)) answer_workload-IsSound).at env []
      tt
