-- ===== src/Api/Claims.antt =====
-- go/internal/api/claims.go.
pub mod Polling
pub mod Acquiring
use boilerhouse.Common.{
  ℕ, zero, suc, String, Bool, true, false, List, [], ◌∷◌, ◌++◌, ◌*◌, ◌+◌, Option, none, some, ◌==◌,
  ◌<>◌, ltb, map, if◌then◌else◌,
}
use boilerhouse.Common.Dict.{Dict, lookup, insert}
use boilerhouse.Types.Meta.{Key, ObjectMeta, second}
use boilerhouse.Types.Claim.{
  Claim, ClaimEndpoint, ClaimStatus, Phase, Source, active, released, error,
}
use boilerhouse.Scope
use boilerhouse.Cluster.{
  M, Error, message, Result, ok, err, ◌>>=◌, ◌>>◌, pure, raise, call, or_fail, attempt,
  succeed_or_wrap, unless_missing, get_claim, update_claim, delete_claim, create_claim, list_claims,
  now, sleep,
}
use boilerhouse.Api.Reply.{Reply, wrote, refused, Server, or_refuse, unless_refused, show_time}

pub data AcquireOutcome : Type 0 where
  created existing_active : AcquireOutcome

unfoldable pub claim_name : String → String → String
claim_name tenant workload = "claim-" <> tenant <> "-" <> workload

unfoldable pub claim_key : Server → String → Key
claim_key s name = record { name = name; namespace = s.namespace }

unfoldable pub bare_meta : Key → ObjectMeta
bare_meta key = record {
  name = key.name;
  namespace = key.namespace;
  labels = [];
  annotations = [];
  finalizers = [];
  owners = [];
  deletion_timestamp = none;
  creation_timestamp = none;
  generation = 0;
}

abbrev pub no_status : ClaimStatus
no_status = record {
  phase = Phase.unset;
  instance_id = "";
  endpoint = none;
  source = Source.unset;
  claimed_at = none;
  detail = "";
}

unfoldable pub fresh_claim : Server → String → String → Option Bool → ℕ → Claim
unfolding bare_meta claim_key claim_name
fresh_claim s tenant workload resume clock = record {
  meta = record (bare_meta (claim_key s (claim_name tenant workload))) {
    labels = (Scope.label_tenant, tenant) ∷ [];
    annotations = ("boilerhouse.dev/last-activity", s.time.format clock) ∷ [];
  };
  spec = record { tenant_id = tenant; workload_ref = workload; resume = resume };
  status = no_status;
}

unfoldable pub create_fresh : Server → String → String → Option Bool → M (Claim × AcquireOutcome)
unfolding fresh_claim
create_fresh s tenant workload resume = do
  clock ← call now
  let claim = fresh_claim s tenant workload resume clock
  outcome ← call (create_claim claim)
  succeed_or_wrap "create claim" outcome
  pure (claim, created)

-- `if len(existing.Finalizers) > 0`
unfoldable pub clear_finalizers : Claim → List String → M (Unit {0})
clear_finalizers claim [] = pure tt
clear_finalizers claim (f ∷ fs) = do
  outcome ← call (update_claim claim)
  succeed_or_wrap "clear finalizer" outcome

-- A released claim is taken away before a new one is created.
unfoldable pub revive : Server → String → String → Option Bool → Claim → M (Claim × AcquireOutcome)
unfolding clear_finalizers create_fresh
revive s tenant workload resume claim = do
  let bared = record claim { meta = record (claim.meta) { finalizers = [] } }
  clear_finalizers bared claim.meta.finalizers
  outcome ← call (delete_claim bared)
  succeed_or_wrap "delete old claim" (unless_missing outcome)
  slept ← call (sleep 500_000_000)
  create_fresh s tenant workload resume

unfoldable pub by_phase :
    Server → String → String → Option Bool → Claim → Phase → M (Claim × AcquireOutcome)
unfolding revive create_fresh
by_phase s tenant workload resume claim released = revive s tenant workload resume claim
by_phase s tenant workload resume claim active = pure (claim, existing_active)
by_phase s tenant workload resume claim _ = create_fresh s tenant workload resume

-- Any failure to read the claim counts as its absence.
unfoldable pub by_answer :
    Server → String → String → Option Bool → Result Claim → M (Claim × AcquireOutcome)
unfolding by_phase create_fresh
by_answer s tenant workload resume (err e) = create_fresh s tenant workload resume
by_answer s tenant workload resume (ok claim) =
    by_phase s tenant workload resume claim claim.status.phase

unfoldable pub acquire_claim : Server → String → String → Option Bool → M (Claim × AcquireOutcome)
unfolding claim_key claim_name by_answer
acquire_claim s tenant workload resume = do
  answer ← call (get_claim (claim_key s (claim_name tenant workload)))
  by_answer s tenant workload resume answer

abbrev pub is_settled : Phase → Bool
is_settled active = true
is_settled error = true
is_settled _ = false

-- `case <-ctx.Done()` returns the claim with the context's error, which the caller answers for.
unfoldable pub poll_again : M Claim → Bool → M Claim
poll_again next true = next
poll_again next false = raise (message "context canceled")

-- After the deadline the claim is read once more.
unfoldable pub last_look : Server → String → M Claim
unfolding claim_key
last_look s name = do answer ← call (get_claim (claim_key s name)); or_fail answer

unfoldable pub look_again : M Claim → ℕ → Claim → M Claim
unfolding poll_again
look_again next interval claim =
    if is_settled claim.status.phase
    then pure claim
    else (do slept ← call (sleep interval); poll_again next slept)

-- One round for each look at the claim before the deadline.
unfoldable pub poll_loop : Server → String → ℕ → ℕ → ℕ → M Claim
unfolding claim_key look_again last_look
poll_loop s name deadline interval zero = do clock ← call now; last_look s name
poll_loop s name deadline interval (suc rounds) = do
  clock ← call now
  if ltb clock deadline
      then (do
        answer ← call (get_claim (claim_key s name))
        claim ← or_fail answer
        look_again (poll_loop s name deadline interval rounds) interval claim)
      else last_look s name

abbrev pub poll_rounds : ℕ
poll_rounds = 60

unfoldable pub poll_claim : Server → String → ℕ → ℕ → M Claim
unfolding poll_loop
poll_claim s name timeout interval = do
  clock ← call now
  poll_loop s name (clock + timeout) interval poll_rounds
