-- ===== src/Claim/Phases.antt =====
-- The life cycle of a claim, as a step relation on its phase, and what one reconciliation writes.
use boilerhouse.Common.{◌≡◌, ◌≢◌, Option, none, some, All}
use boilerhouse.Types.Claim.{Claim, ClaimEndpoint, Phase, pending, active, released, release_failed}
use boilerhouse.Cluster.{
  Event, event, update_claim, update_claim_status, create_claim, delete_claim,
}
use boilerhouse.Claim.Quiet.{IgnoresQuiet}

-- The phases in which a claim has no Pod of its own yet.
abbrev pub IsNew : Phase → Type 0
IsNew active = ⊥
IsNew released = ⊥
IsNew release_failed = ⊥
IsNew _ = Unit

-- One step of the life cycle.
pub data Transition (p q : Phase) : Type 0 where
  enroll : IsNew p → q ≡ pending → Transition p q
  activate : p ≡ pending → q ≡ active → Transition p q
  reject : p ≡ pending → q ≡ Phase.error → Transition p q
  release : p ≡ active → q ≡ released → Transition p q
  fail_release : p ≡ active → q ≡ release_failed → Transition p q

-- An endpoint that a client can connect to.
abbrev pub HasHost : Option ClaimEndpoint → Type 0
HasHost none = ⊥
HasHost (some endpoint) = endpoint.host ≢ ""

-- What a phase says of the endpoint beside it.
abbrev pub Connectable : Phase → Option ClaimEndpoint → Type 0
Connectable active endpoint = HasHost endpoint
Connectable _ endpoint = Unit

-- A status write against the claim that was read.
pub record StatusWrite (old new : Claim) : Type 0 where
  pub same_meta : new.meta ≡ old.meta
  pub same_spec : new.spec ≡ old.spec
  pub step : Transition old.status.phase new.status.phase
  pub connectable : Connectable new.status.phase new.status.endpoint

-- What a reconciliation of `old` may write to claims.
abbrev pub Allowed : Claim → Event → Type 0
Allowed old (event (update_claim_status new) x) = StatusWrite old new
Allowed old (event (update_claim new) x) = (new.spec ≡ old.spec) × (new.status ≡ old.status)
Allowed old (event (create_claim new) x) = ⊥
Allowed old (event (delete_claim new) x) = ⊥
Allowed old _ = Unit

pub Allowed-Quiet : (old : Claim) → IgnoresQuiet (All (Allowed old))
Allowed-Quiet old (update_claim c) x t h p = absurd h
Allowed-Quiet old (update_claim_status c) x t h p = absurd h
Allowed-Quiet old (create_claim c) x t h p = absurd h
Allowed-Quiet old (delete_claim c) x t h p = absurd h
Allowed-Quiet old _ x t h p = (tt, p)
