-- ===== src/Trigger/Forwarding.antt =====
-- The handling of an event by the gateway keeps to the guards.
use boilerhouse.Common.{
  ℕ, zero, suc, String, Bool, List, [], ◌∷◌, Option, none, some, ◌≡◌, refl, inl,
}
use boilerhouse.Types.Meta.{Key}
use boilerhouse.Types.Claim.{Claim, Phase, releasing, released}
use boilerhouse.Types.Trigger.{Trigger}
use boilerhouse.Trigger.Tenant.{Raw, resolve_tenant_id}
use boilerhouse.Trigger.Guards.{Guard, run_guards}
use boilerhouse.Trigger.Gateway.{
  active_url, by_poll_phase, after_url, look, wait_for_claim, wait_for_claim_deleted, is_missing,
  new_claim, create_and_wait, replace_claim, by_claim_phase, use_claim, by_claim, claim_key,
  ensure_claim, handle_event, claim_poll_rounds, delete_poll_rounds,
}
use boilerhouse.Trigger.Clearing.{ClearedAll-cons, Reached, Guarded, Past, run_guards-ClearedAll}
use boilerhouse.Cluster.{
  M, Env, Result, ok, err, event, Had, Trace, trace_of, call, is_not_found, unless_missing,
  unless_exists, get_claim, create_claim, delete_claim, send_event, tick, ◌>>=◌, or_wrap, wrapping,
  ◌>>◌,
}
use boilerhouse.Cluster.Keeps.{Keeps-or_wrap, Keeps-succeed_or_wrap}
use boilerhouse.Cluster.Triple.{
  Triple, Triple-Keeps, Triple-call, Triple-bind, Triple-pure, Triple-pre, Triple-post, Triple-if,
  Triple-within, Triple-wrapping, Triple-raise, at_end,
}

module _ (tenant : String) (key : Key) (guards : List Guard) where
  -- The guards have let the tenant through.
  abbrev Free : Trace → Type 0
  Free t = Past tenant key guards guards t

  abbrev Safe : Trace → Type 0
  Safe t = Guarded tenant key guards t

  -- A URL at which the claim was read active.
  abbrev Found : String → Trace → Type 0
  Found url t = Reached tenant key guards url t × Free t

  Free-poll : (t : Trace) (x : Bool) → Free t → Free (event tick x ∷ t)
  Free-poll t x h = (ClearedAll-cons tenant guards tick x t h.0, h.1)

  Free-get : (t : Trace) (x : Result Claim) → Free t → Free (event (get_claim key) x ∷ t)
  Free-get t x h = (ClearedAll-cons tenant guards (get_claim key) x t h.0, h.1)

  -- The claim was read.
  abbrev Looked : Result Claim → Trace → Type 0
  Looked x t = Had (event (get_claim key) x) t × Free t

  read_claim : (t : Trace) (x : Result Claim) → Free t → Looked x (event (get_claim key) x ∷ t)
  read_claim t x h = (inl refl, Free-get t x h)

  by_poll_phase-Found :
      (next : M String) (detail : String) (phase : Phase)
      → Triple Safe Free Found next
      → Triple Safe Free Found (by_poll_phase key next detail phase)
  unfolding by_poll_phase
  by_poll_phase-Found next detail Phase.error k = Triple-raise _ (λ t h. h.1)
  by_poll_phase-Found next detail _ k = k

  after_url-Found :
      (next : M String) (claim : Claim) (o : Option String)
      → active_url claim.status ≡ o
      → Triple Safe Free Found next
      → Triple Safe (Looked (ok claim)) Found (after_url key next claim o)
  unfolding after_url
  after_url-Found next claim (some url) is k = Triple-pure url (λ t h. ((claim, h.0, is), h.1))
  after_url-Found next claim none is k =
      Triple-pre (λ t h. h.1) (by_poll_phase-Found next claim.status.detail claim.status.phase k)

  look-Found :
      (next : M String) (x : Result Claim)
      → Triple Safe Free Found next
      → Triple Safe (Looked x) Found (look key next x)
  unfolding look
  look-Found next (err e) k = Triple-pre (λ t h. h.1) k
  look-Found next (ok claim) k = after_url-Found next claim (active_url claim.status) refl k

  wait_for_claim-Found : (rounds : ℕ) → Triple Safe Free Found (wait_for_claim key rounds)
  unfolding wait_for_claim
  wait_for_claim-Found zero = Triple-raise _ (λ t h. h.1)
  wait_for_claim-Found (suc rounds) =
      Triple-bind (λ _. Free) (Triple-call tick Free-poll)
        (λ ticked.
          Triple-if ticked
            (Triple-bind Looked (Triple-call (get_claim key) read_claim)
              (λ x. look-Found (wait_for_claim key rounds) x (wait_for_claim-Found rounds)))
            (Triple-raise _ (λ t h. h.1)))

  wait_for_claim_deleted-Free :
      (rounds : ℕ) → Triple Safe Free (λ _. Free) (wait_for_claim_deleted key rounds)
  unfolding wait_for_claim_deleted
  wait_for_claim_deleted-Free zero = Triple-raise _ (λ t h. h.1)
  wait_for_claim_deleted-Free (suc rounds) =
      Triple-bind (λ _. Free) (Triple-call tick Free-poll)
        (λ ticked.
          Triple-if ticked
            (Triple-bind (λ _. Free) (Triple-call (get_claim key) Free-get)
              (λ x.
                Triple-if (is_missing x) (Triple-pure tt (λ t h. h))
                  (wait_for_claim_deleted-Free rounds)))
            (Triple-raise _ (λ t h. h.1)))

  module _ (workload : String) where
    create_and_wait-Found : Triple Safe Free Found (create_and_wait key tenant workload)
    unfolding create_and_wait new_claim
    create_and_wait-Found =
        Triple-bind (λ _. Free)
          (Triple-call (create_claim (new_claim key tenant workload)) (λ t x h. (
            ClearedAll-cons tenant guards (create_claim (new_claim key tenant workload)) x t h.0,
            (refl, h.0, h.1),
          )))
          (λ outcome.
            Triple-bind (λ _. Free)
              (Triple-within (λ t h. h.1)
                (Keeps-succeed_or_wrap "create claim" (unless_exists outcome)))
              (λ _. wait_for_claim-Found claim_poll_rounds))

    replace_claim-Found :
        (phase : String) (claim : Claim)
        → Triple Safe Free Found (replace_claim key tenant workload phase claim)
    unfolding replace_claim
    replace_claim-Found phase claim =
        Triple-bind (λ _. Free)
          (Triple-call (delete_claim claim)
            (λ t x h. (ClearedAll-cons tenant guards (delete_claim claim) x t h.0, (h.0, h.1))))
          (λ outcome.
            Triple-bind (λ _. Free)
              (Triple-within (λ t h. h.1) (Keeps-succeed_or_wrap _ (unless_missing outcome)))
              (λ _.
                Triple-bind (λ _. Free)
                  (Triple-wrapping _ (wait_for_claim_deleted-Free delete_poll_rounds))
                  (λ _. create_and_wait-Found)))

    by_claim_phase-Found :
        (claim : Claim) (phase : Phase)
        → Triple Safe Free Found (by_claim_phase key tenant workload claim phase)
    unfolding by_claim_phase
    by_claim_phase-Found claim released = replace_claim-Found "Released" claim
    by_claim_phase-Found claim Phase.error = replace_claim-Found "Error" claim
    by_claim_phase-Found claim releasing = replace_claim-Found "Releasing" claim
    by_claim_phase-Found claim _ = wait_for_claim-Found claim_poll_rounds

    use_claim-Found :
        (claim : Claim) (o : Option String)
        → active_url claim.status ≡ o
        → Triple Safe (Looked (ok claim)) Found (use_claim key tenant workload claim o)
    unfolding use_claim
    use_claim-Found claim (some url) is = Triple-pure url (λ t h. ((claim, h.0, is), h.1))
    use_claim-Found claim none is =
        Triple-pre (λ t h. h.1) (by_claim_phase-Found claim claim.status.phase)

    by_claim-Found :
        (x : Result Claim) → Triple Safe (Looked x) Found (by_claim key tenant workload x)
    unfolding by_claim
    by_claim-Found (err e) =
        Triple-pre (λ t h. h.1)
          (Triple-if (is_not_found e) create_and_wait-Found (Triple-raise _ (λ t h. h.1)))
    by_claim-Found (ok claim) = use_claim-Found claim (active_url claim.status) refl

module _ (tenant ns : String) (trigger : Trigger) (guards : List Guard) where
  abbrev key_of_event : Key
  key_of_event = claim_key ns tenant trigger.spec.workload_ref

  ensure_claim-Found :
      Triple
        (Safe tenant key_of_event guards)
        (Free tenant key_of_event guards)
        (Found tenant key_of_event guards)
        (ensure_claim ns tenant trigger.spec.workload_ref)
  unfolding ensure_claim
  ensure_claim-Found =
      Triple-bind (Looked tenant key_of_event guards)
        (Triple-call (get_claim key_of_event) (read_claim tenant key_of_event guards))
        (by_claim-Found tenant key_of_event guards trigger.spec.workload_ref)

  -- `handle_event` once the tenant is resolved.
  abbrev for_tenant : M String
  for_tenant = do
    run_guards guards tenant
    url ← wrapping "ensure claim" (ensure_claim ns tenant trigger.spec.workload_ref)
    answer ← call (send_event url tenant)
    or_wrap "driver send" answer

  for_tenant-Safe :
      Triple
        (Safe tenant key_of_event guards)
        (Safe tenant key_of_event guards)
        (λ _. Safe tenant key_of_event guards)
        for_tenant
  for_tenant-Safe =
      Triple-bind (λ _ t. Free tenant key_of_event guards t)
        (Triple-pre (λ t h. (tt, h))
          (Triple-post (λ _ t h. (h.0, h.1.1))
            (run_guards-ClearedAll tenant key_of_event guards [] guards)))
        (λ _.
          Triple-bind (Found tenant key_of_event guards)
            (Triple-wrapping "ensure claim" ensure_claim-Found)
            (λ url.
              Triple-bind (λ _. Safe tenant key_of_event guards)
                (Triple-call (send_event url tenant) (λ t x h. (refl, h.0, h.1.0, h.1.1)))
                (λ answer. Triple-Keeps (Keeps-or_wrap "driver send" answer))))

pub handle_event-Guarded :
    (ns : String) (trigger : Trigger) (guards : List Guard) (raw : Raw) (tenant : String)
    (env : Env)
    → resolve_tenant_id trigger.spec.tenant raw ≡ ok tenant
    → Guarded tenant
        (claim_key ns tenant trigger.spec.workload_ref)
        guards
        (trace_of (handle_event ns trigger guards raw env []))
unfolding handle_event ◌>>=◌
handle_event-Guarded ns trigger guards raw tenant env is = rw is (
    at_end (Guarded tenant (claim_key ns tenant trigger.spec.workload_ref) guards) (λ _ t h. h)
      (λ t h. h) (for_tenant-Safe tenant ns trigger guards) env tt)
