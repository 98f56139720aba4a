-- ===== src/Tests/Events.antt =====
-- The watch of claims, run on the life of one claim.
use boilerhouse.Common.{[], ◌∷◌, ◌≡◌}
use boilerhouse.Types.Claim.{Phase}
use boilerhouse.Api.Events.{changed, deleted, watch_claims}
use boilerhouse.Api.Events.PerClaim.{named, changes_of, follow, watch_claims-follow}
use boilerhouse.Tests.Fixtures.{claim}

watch_claims-follow_example :
    named "claim-ann-shell" (watch_claims [] (changed claim ∷ changed claim ∷ deleted claim ∷ []))
    ≡ follow Phase.unset
        (changes_of "claim-ann-shell" (changed claim ∷ changed claim ∷ deleted claim ∷ []))
watch_claims-follow_example =
    watch_claims-follow "claim-ann-shell" (changed claim ∷ changed claim ∷ deleted claim ∷ [])
