-- ===== src/Api/Events/PerClaim.antt =====
-- The events of one claim among those of all, as go/internal/api/websocket.go sends them.
use boilerhouse.Common.{
  String, Bool, true, false, List, [], ◌∷◌, ◌++◌, none, some, ◌==◌, ◌≡◌, refl, sym, ap, ◌∙◌,
  ==_sound, if◌then◌else◌, if_same, ◌&&◌, not,
}
use boilerhouse.Common.Dict.{Dict, lookup, insert, remove, lookup-insert, lookup-remove}
use boilerhouse.Types.Claim.{Claim, Phase}
use boilerhouse.Api.Events.{
  Change, changed, deleted, WsEvent, instance_state, pool_instance_ready, tenant_claimed,
  tenant_released, or_unset, is_active_phase, is_released_phase, claimed_events, released_events,
  phase_events, watch_claim, watch_claims,
}

abbrev pub event_name : WsEvent → String
event_name (instance_state name phase workload tenant) = name
event_name (pool_instance_ready name workload) = name
event_name (tenant_claimed name tenant workload source) = name
event_name (tenant_released name tenant) = name

-- The events of this name, in order.
abbrev pub named : String → List WsEvent → List WsEvent
named name [] = []
named name (e ∷ es) = let rest = named name es in if event_name e == name then e ∷ rest else rest

abbrev pub claim_of : Change Claim → Claim
claim_of (changed claim) = claim
claim_of (deleted claim) = claim

-- The changes of this claim, in order.
abbrev pub changes_of : String → List (Change Claim) → List (Change Claim)
changes_of name [] = []
changes_of name (c ∷ cs) =
    let rest = changes_of name cs in if (claim_of c).meta.name == name then c ∷ rest else rest

-- A single claim, watched from the phase that it was last seen in.
abbrev pub follow : Phase → List (Change Claim) → List WsEvent
follow prev [] = []
follow prev (changed claim ∷ cs) = phase_events prev claim ++ follow claim.status.phase cs
follow prev (deleted claim ∷ cs) =
    tenant_released claim.meta.name claim.spec.tenant_id ∷ follow Phase.unset cs

named-append :
    (name : String) (es fs : List WsEvent) → named name (es ++ fs) ≡ named name es ++ named name fs
named-append name [] fs = refl
named-append name (e ∷ es) fs = go (event_name e == name) (named-append name es fs)
  where
    go :
        (b : Bool)
        → named name (es ++ fs) ≡ named name es ++ named name fs
        → (if b then e ∷ named name (es ++ fs) else named name (es ++ fs))
          ≡ (if b then e ∷ named name es else named name es) ++ named name fs
    go true ih = ap (λ rest. e ∷ rest) ih
    go false ih = ih

named-if :
    (name : String) (b : Bool) (e : WsEvent)
    → named name (if b then e ∷ [] else [])
      ≡ (if event_name e == name then (if b then e ∷ [] else []) else [])
named-if name true e = refl
named-if name false e = sym (if_same (event_name e == name) [])

named-phase_events :
    (name : String) (prev : Phase) (claim : Claim)
    → named name (phase_events prev claim)
      ≡ (if claim.meta.name == name then phase_events prev claim else [])
unfolding phase_events claimed_events released_events
named-phase_events name prev claim =
    named-append name (claimed_events prev claim) (released_events prev claim)
    ∙ rw
        (
          named-if name (is_active_phase claim.status.phase && not (is_active_phase prev)) (
              tenant_claimed claim.meta.name claim.spec.tenant_id claim.spec.workload_ref
                claim.status.source),
          named-if name (is_released_phase claim.status.phase && not (is_released_phase prev))
              (tenant_released claim.meta.name claim.spec.tenant_id),
        )
        (go (claim.meta.name == name))
  where
    go :
        (b : Bool)
        → (if b then claimed_events prev claim else [])
            ++ (if b then released_events prev claim else [])
          ≡ (if b then claimed_events prev claim ++ released_events prev claim else [])
    go true = refl
    go false = refl

watched :
    (name : String) (changes : List (Change Claim)) (phases : Dict Phase)
    → named name (watch_claims phases changes)
      ≡ follow (or_unset (lookup name phases)) (changes_of name changes)
unfolding watch_claims watch_claim
watched name [] phases = refl
watched name (changed claim ∷ cs) phases =
    named-append name (phase_events (or_unset (lookup claim.meta.name phases)) claim)
      (watch_claims (insert claim.meta.name claim.status.phase phases) cs)
    ∙ rw
        (
          named-phase_events name (or_unset (lookup claim.meta.name phases)) claim,
          watched name cs (insert claim.meta.name claim.status.phase phases),
          lookup-insert,
        )
        (go (claim.meta.name == name) refl)
  where
    go :
        (b : Bool)
        → (claim.meta.name == name) ≡ b
        → (if b then phase_events (or_unset (lookup claim.meta.name phases)) claim else [])
            ++ follow
                (or_unset (if b then some claim.status.phase else lookup name phases))
                (changes_of name cs)
          ≡ follow
              (or_unset (lookup name phases))
              (if b then changed claim ∷ changes_of name cs else changes_of name cs)
    go true is = rw (==_sound claim.meta.name name is) refl
    go false is = refl
watched name (deleted claim ∷ cs) phases =
    rw (watched name cs (remove claim.meta.name phases), lookup-remove)
      (go (claim.meta.name == name))
  where
    go :
        (b : Bool)
        → (if b
            then tenant_released claim.meta.name claim.spec.tenant_id
              ∷ follow (or_unset (if b then none else lookup name phases)) (changes_of name cs)
            else follow (or_unset (if b then none else lookup name phases)) (changes_of name cs))
          ≡ follow
              (or_unset (lookup name phases))
              (if b then deleted claim ∷ changes_of name cs else changes_of name cs)
    go true = refl
    go false = refl

-- For any interleaving of the changes of any claims, the events that the watch sends for one claim are those of that
-- claim watched alone: the shared map of last phases lets no claim disturb another.
pub watch_claims-follow :
    (name : String) (changes : List (Change Claim))
    → named name (watch_claims [] changes) ≡ follow Phase.unset (changes_of name changes)
unfolding lookup
watch_claims-follow name changes = watched name changes []
