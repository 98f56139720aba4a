-- ===== src/Tests/Claims.antt =====
-- The reconciler of claims, run on one claim.
use boilerhouse.Common.{All, [], ◌∷◌, ◌≡◌, length, refl}
use boilerhouse.Types.Workload.{hibernate}
use boilerhouse.Types.Meta.{Key}
use boilerhouse.Cluster.{trace_of, Trace, returns}
use boilerhouse.Claim.Reconcile.{reconcile}
use boilerhouse.Claim.Release.{Extracted, extract_with_retry, or_default, release_claim}
use boilerhouse.Claim.Deletion.{handle_deletion}
use boilerhouse.Claim.Idle.{handle_active}
use boilerhouse.Claim.Phases.{Allowed}
use boilerhouse.Claim.Lifecycle.{reconcile-Allowed}
use boilerhouse.Claim.Saves.Extraction.{SafeDeletes}
use boilerhouse.Claim.Saves.Release.{Unsaved, release_claim-SafeDeletes}
use boilerhouse.Claim.Saves.Deletion.{Discarded, handle_deletion-SafeDeletes}
use boilerhouse.Claim.Revocation.{RevokesFirst, claim_end-RevokesFirst}
use boilerhouse.Claim.Retries.{Within, without_last, extract_with_retry-Within}
use boilerhouse.Claim.Patience.{Patient, handle_active-Patient}
use boilerhouse.Tests.Fixtures.{claim, reconciler, world}

abbrev key : Key
key = record { name = "claim-ann-shell"; namespace = "default" }

reconcile-Allowed_example : All (Allowed claim) (trace_of (reconcile reconciler key world []))
reconcile-Allowed_example = reconcile-Allowed reconciler key world claim refl

release_claim-SafeDeletes_example :
    SafeDeletes Unsaved (trace_of (release_claim reconciler claim hibernate world []))
release_claim-SafeDeletes_example = release_claim-SafeDeletes reconciler claim world refl

handle_deletion-SafeDeletes_example :
    SafeDeletes Discarded (trace_of (handle_deletion reconciler claim world []))
handle_deletion-SafeDeletes_example = handle_deletion-SafeDeletes reconciler claim world refl

handle_active-Patient_example :
    Patient reconciler claim (trace_of (handle_active reconciler claim world []))
handle_active-Patient_example = handle_active-Patient reconciler claim world

claim_end-RevokesFirst_example :
    RevokesFirst claim (trace_of (release_claim reconciler claim hibernate world []))
    × RevokesFirst claim (trace_of (handle_deletion reconciler claim world []))
claim_end-RevokesFirst_example = claim_end-RevokesFirst reconciler claim hibernate world

extract_with_retry-Within_example :
    (x : Extracted) × (t : Trace) × (extract_with_retry reconciler "pod" "ann" "shell"
        ("/home" ∷ [])
        world
        []
      ≡ returns x t)
    × Within
        (length (or_default reconciler.extract_retry_backoff))
        (without_last (or_default reconciler.extract_retry_backoff))
        x
        t
extract_with_retry-Within_example =
    extract_with_retry-Within reconciler "pod" "ann" "shell" ("/home" ∷ []) world
