-- ===== src/Api/Tenants/Claiming.antt =====
-- The route that claims an instance: what it may do to claims, and what it shows as active.
use boilerhouse.Common.{ℕ, String, Bool, true, false, [], ◌∷◌, Option, suc, zero, ◌==◌, ◌+◌}
use boilerhouse.Types.Meta.{Key}
use boilerhouse.Types.Claim.{Claim}
use boilerhouse.Cluster.{M, Env, Trace, trace_of, event, Result, ok, attempt, get_claim, now, sleep}
use boilerhouse.Cluster.Keeps.{
  Keeps, Keeps-call, Keeps-pure, Keeps-bind, Keeps-if, Keeps-or_fail, Keeps-raise,
}
use boilerhouse.Cluster.Attempt.{Keeps-attempt}
use boilerhouse.Api.Reply.{Server, or_refuse}
use boilerhouse.Api.Reply.Rules.{Keeps-or_refuse}
use boilerhouse.Api.Claims.{
  AcquireOutcome, created, existing_active, poll_again, look_again, last_look, poll_loop,
  poll_claim, poll_rounds, acquire_claim, claim_key,
}
use boilerhouse.Api.Claims.Acquiring.{Careful, acquire-Careful}
use boilerhouse.Api.Tenants.{ClaimRequest, workload_name, show_acquired, claim_instance}

-- Polling only reads.
module _ (s : Server) (tenant workload : String) (resume : Option Bool) where
  abbrev P : Trace → Type 0
  P = Careful s tenant workload resume

  read_kept : (key : Key) (t : Trace) (x : Result Claim) → P t → P (event (get_claim key) x ∷ t)
  read_kept key t x h = h

  last_look-Careful : (name : String) → Keeps P (last_look s name)
  unfolding last_look
  last_look-Careful name =
      Keeps-bind _ _ (Keeps-call (get_claim _) (read_kept (claim_key s name)))
        (λ answer. Keeps-or_fail answer)

  again-Careful : (next : M Claim) (slept : Bool) → Keeps P next → Keeps P (poll_again next slept)
  unfolding poll_again
  again-Careful next true k = k
  again-Careful next false k = Keeps-raise _

  look-Careful :
      (next : M Claim) (interval : ℕ) (claim : Claim)
      → Keeps P next
      → Keeps P (look_again next interval claim)
  unfolding look_again
  look-Careful next interval claim k = Keeps-if _ _ _ (Keeps-pure claim) (
      Keeps-bind _ _ (Keeps-call (sleep interval) (λ t x h. h))
        (λ slept. again-Careful next slept k))

  poll_loop-Careful :
      (name : String) (deadline interval rounds : ℕ)
      → Keeps P (poll_loop s name deadline interval rounds)
  unfolding poll_loop
  poll_loop-Careful name deadline interval zero =
      Keeps-bind _ _ (Keeps-call now (λ t x h. h)) (λ clock. last_look-Careful name)
  poll_loop-Careful name deadline interval (suc rounds) =
      Keeps-bind _ _ (Keeps-call now (λ t x h. h)) (λ clock.
        Keeps-if _ _ _
          (Keeps-bind _ _ (Keeps-call (get_claim _) (read_kept (claim_key s name))) (λ answer.
            Keeps-bind _ _ (Keeps-or_fail answer) (λ claim.
              look-Careful _ interval claim (poll_loop-Careful name deadline interval rounds))))
          (last_look-Careful name))

  poll_claim-Careful :
      (name : String) (timeout interval : ℕ) → Keeps P (poll_claim s name timeout interval)
  unfolding poll_claim
  poll_claim-Careful name timeout interval =
      Keeps-bind _ _ (Keeps-call now (λ t x h. h))
        (λ clock. poll_loop-Careful name (clock + timeout) interval poll_rounds)

  show-Careful : (c : Claim) (o : AcquireOutcome) → Keeps P (show_acquired s c o)
  unfolding show_acquired
  show-Careful c existing_active = Keeps-pure _
  show-Careful c created =
      Keeps-bind _ _ (Keeps-attempt _ (poll_claim-Careful _ _ _))
        (λ result. Keeps-or_refuse _ _ result _ (λ polled. Keeps-pure _))

  claim-Careful : Keeps P (attempt (acquire_claim s tenant workload resume))
  claim-Careful = Keeps-attempt _ (acquire-Careful s tenant workload resume)

-- A request to claim an instance, in any world and however it ends: claims are updated or deleted only after the
-- claim of this tenant and workload was read as released, and then only that claim without its finalizers; every
-- claim that is created has that name, the tenant, the workload and the `resume` of the request, and no status;
-- and no status is written.
pub claim_instance-Careful :
    (s : Server) (tenant : String) (req : ClaimRequest) (env : Env)
    → Careful s tenant
        (workload_name req)
        req.resume
        (trace_of (claim_instance s tenant (ok req) env []))
unfolding claim_instance or_refuse
claim_instance-Careful s tenant req env =
    (Keeps-if (workload_name req == "") _ _ (Keeps-pure _) (
        Keeps-bind _ _ (claim-Careful s tenant (workload_name req) req.resume) (λ acquired.
          Keeps-or_refuse _ _ acquired _
            (λ pair. show-Careful s tenant (workload_name req) req.resume pair.0 pair.1)))).at
      env [] tt
