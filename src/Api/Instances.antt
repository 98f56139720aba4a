-- ===== src/Api/Instances.antt =====
-- go/internal/api/routes_instance.go.
use Prim.Native.Char.{code}
use boilerhouse.Common.{
  ℕ, zero, suc, nat_eq, String, List, [], ◌∷◌, Option, none, some, ◌==◌, ◌<>◌, map, if◌then◌else◌,
}
use boilerhouse.Common.Dict.{Dict, lookup, insert}
use boilerhouse.Common.Int.{ℤ, is_positive}
use boilerhouse.Common.Text.{show_ℤ, show_ℕ}
use boilerhouse.Types.Meta.{Key}
use boilerhouse.Types.Claim.{Claim}
use boilerhouse.Types.Pod.{Pod, PodPhase}
use boilerhouse.Translate.Objects.{label_tenant, label_workload, label_managed}
use boilerhouse.Cluster.{
  M, Result, ok, err, Ran, exited, not_started, error_text, ◌>>=◌, pure, call, get_pod, list_pods,
  list_claims, delete_pod, kubectl,
}
use boilerhouse.Api.TokenStore.{value_at}
use boilerhouse.Api.Reply.{Reply, wrote, refused, Server, or_refuse, unless_refused, show_time}
use boilerhouse.Api.Tenants.{claimed_at_text}

pub record InstanceResponse : Type 0 where
  pub name : String
  pub phase : PodPhase
  pub tenant_id : String
  pub workload_ref : String
  pub ip : String
  pub labels : Dict String
  pub created_at : String
  pub last_activity : String
  pub claimed_at : String

unfoldable pub to_instance_response : Server → Pod → InstanceResponse
unfolding value_at show_time
to_instance_response s pod = record {
  name = pod.meta.name;
  phase = pod.phase;
  tenant_id = value_at label_tenant pod.meta.labels;
  workload_ref = value_at label_workload pod.meta.labels;
  ip = pod.pod_ip;
  labels = pod.meta.labels;
  created_at = show_time s.time pod.meta.creation_timestamp;
  last_activity = "";
  claimed_at = "";
}

-- `claimByInstance`: of two claims on one instance, the later counts.
unfoldable pub claims_by_instance : Dict Claim → List Claim → Dict Claim
unfolding insert
claims_by_instance m [] = m
claims_by_instance m (c ∷ cs) =
    claims_by_instance (if c.status.instance_id == "" then m else insert c.status.instance_id c m)
      cs

-- A failure to list the claims leaves the map empty.
unfoldable pub known_claims : Result (List Claim) → Dict Claim
unfolding claims_by_instance
known_claims (err e) = []
known_claims (ok cs) = claims_by_instance [] cs

unfoldable pub with_claim : Server → InstanceResponse → Option Claim → InstanceResponse
unfolding value_at claimed_at_text
with_claim s resp none = resp
with_claim s resp (some claim) = record resp {
  last_activity = value_at "boilerhouse.dev/last-activity" claim.meta.annotations;
  claimed_at = claimed_at_text s claim.status.claimed_at;
}

unfoldable pub enrich : Server → Dict Claim → Pod → InstanceResponse
unfolding to_instance_response with_claim lookup
enrich s claims pod = with_claim s (to_instance_response s pod) (lookup pod.meta.name claims)

unfoldable pub list_instances : Server → M (Reply (List InstanceResponse))
unfolding or_refuse known_claims enrich
list_instances s = do
  answer ← call (list_pods s.namespace ((label_managed, "true") ∷ []))
  or_refuse 500 "failed to list instances: " answer (λ pods. do
    claims ← call (list_claims s.namespace [])
    pure (wrote 200 (map (enrich s (known_claims claims)) pods)))

unfoldable pub instance_key : Server → String → Key
instance_key s id = record { name = id; namespace = s.namespace }

unfoldable pub get_instance : Server → String → M (Reply InstanceResponse)
unfolding or_refuse to_instance_response instance_key
get_instance s id = do
  answer ← call (get_pod (instance_key s id))
  or_refuse 404 "instance not found: " answer (λ pod. pure (wrote 200 (to_instance_response s pod)))

-- `--tail n` is passed on where the parameter, read by `strconv.Atoi`, is a positive number.
unfoldable pub tail_args : Option ℤ → List String
tail_args none = []
tail_args (some n) = if is_positive n then "--tail" ∷ show_ℤ n ∷ [] else []

-- `cmd.Output()` fails on any exit code but 0.
unfoldable pub show_logs : Ran → Reply String
show_logs (exited zero out errors) = wrote 200 out
show_logs (exited (suc code) out errors) =
    refused 500 ("failed to get logs: exit status " <> show_ℕ (suc code))
show_logs (not_started e) = refused 500 ("failed to get logs: " <> error_text e)

unfoldable pub get_instance_logs : Server → String → Option ℤ → M (Reply String)
unfolding or_refuse instance_key tail_args show_logs
get_instance_logs s id tail = do
  answer ← call (get_pod (instance_key s id))
  or_refuse 404 "instance not found: " answer (λ pod. do
    ran ← call (kubectl ("logs" ∷ id ∷ "-n" ∷ s.namespace ∷ tail_args tail) "")
    pure (show_logs ran))

pub record ExecResponse : Type 0 where
  pub stdout : String
  pub stderr : String
  pub exit_code : ℕ

-- `strings.TrimRight(s, "\n")`
unfoldable pub trim_newlines : String → String
trim_newlines String.[] = ""
trim_newlines (String.◌∷◌ c s) =
    let rest = trim_newlines s in
    if rest == "" then (if nat_eq (code c) 10 then "" else String.◌∷◌ c rest) else String.◌∷◌ c rest

unfoldable pub show_exec : Ran → Reply ExecResponse
unfolding trim_newlines
show_exec (exited code out errors) =
    wrote 200
      (record { stdout = trim_newlines out; stderr = trim_newlines errors; exit_code = code })
show_exec (not_started e) = refused 500 ("exec failed: " <> error_text e)

unfoldable pub run_command : Server → String → List String → M (Reply ExecResponse)
unfolding show_exec
run_command s id [] = pure (refused 400 "command is required")
run_command s id (c ∷ cs) = do
  ran ← call (kubectl ("exec" ∷ id ∷ "-n" ∷ s.namespace ∷ "--" ∷ c ∷ cs) "")
  pure (show_exec ran)

unfoldable pub exec_in_instance : Server → String → Result (List String) → M (Reply ExecResponse)
unfolding or_refuse run_command
exec_in_instance s id body = or_refuse 400 "invalid JSON: " body (run_command s id)

unfoldable pub destroy_instance : Server → String → M (Reply (Dict String))
unfolding or_refuse unless_refused instance_key
destroy_instance s id = do
  answer ← call (get_pod (instance_key s id))
  or_refuse 404 "instance not found: " answer (λ pod. do
    outcome ← call (delete_pod pod)
    unless_refused 500 "failed to destroy instance: " outcome
        (pure (wrote 200 (("status", "destroyed") ∷ ("instance", id) ∷ []))))
