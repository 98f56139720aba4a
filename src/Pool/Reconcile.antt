-- ===== src/Pool/Reconcile.antt =====
-- go/internal/operator/pool_controller.go.
use boilerhouse.Common.{
  ℕ, suc, zero, ◌-◌, ◌*◌, String, Bool, true, false, ◌&&◌, List, [], ◌∷◌, Option, none, some, ◌==◌,
  ◌<>◌, ltb, length, if◌then◌else◌,
}
use boilerhouse.Common.Dict.{lookup, insert}
use boilerhouse.Types.Meta.{Key, second}
use boilerhouse.Types.Workload.{Workload, ready}
use boilerhouse.Types.Pool.{Pool, PoolPhase, healthy, degraded}
use boilerhouse.Types.Pod.{Pod, PodPhase, Condition, running, ConfigMap}
use boilerhouse.Translate.Container.{DecodeEnv}
use boilerhouse.Translate.Objects.{label_workload, label_pool_status, ProxyConfig}
use boilerhouse.Translate.Build.{translate}
use boilerhouse.Workload.Image.{resolved_image_ref}
use boilerhouse.Claim.Reconciler.{contains_finalizer, add_finalizer, remove_finalizer}
use boilerhouse.Claim.Pods.{proxy_config_for}
use boilerhouse.Cluster.{
  M, Result, ok, err, is_not_found, wrapping, Requeue, stop, again, after, ◌>>=◌, ◌>>◌, pure, raise,
  call, or_fail, or_wrap, succeed, succeed_or_wrap, unless_missing, unless_exists, get_pool,
  get_workload, list_pods, update_pod, create_pod, delete_pod, create_config_map, update_pool,
  update_pool_status, random_suffix,
}

abbrev pub default_max_fill_concurrency : ℕ
default_max_fill_concurrency = 2

abbrev any_ready : List Condition → Bool
any_ready [] = false
any_ready (c ∷ cs) =
    if (c.type == "ContainersReady") && (c.status == "True") then true else any_ready cs

abbrev is_running : PodPhase → Bool
is_running running = true
is_running _ = false

unfoldable pub is_pod_ready : Pod → Bool
is_pod_ready pod = is_running pod.phase && any_ready pod.conditions

unfoldable pub is_pool_status : Option String → Bool
is_pool_status none = false
is_pool_status (some status) = if status == "warming" then true else status == "ready"

-- The filter of `listPoolPods`.
unfoldable pub pool_pods : List Pod → List Pod
unfolding is_pool_status
pool_pods [] = []
pool_pods (p ∷ ps) =
    let rest = pool_pods ps in
    if is_pool_status (lookup label_pool_status p.meta.labels) then p ∷ rest else rest

unfoldable pub list_pool_pods : String → String → M (List Pod)
list_pool_pods ns workload = do
  answer ← call (list_pods ns ((label_workload, workload) ∷ []))
  pods ← or_fail answer
  pure (pool_pods pods)

unfoldable pub has_pool_status : Pod → Bool
has_pool_status p = elim (lookup label_pool_status p.meta.labels) [
  | none ↦ false
  | some status ↦ true
]

unfoldable pub delete_listed : List Pod → M (Unit {0})
unfolding has_pool_status
delete_listed [] = pure tt
delete_listed (p ∷ ps) =
    if has_pool_status p
    then (do outcome ← call (delete_pod p); succeed (unless_missing outcome); delete_listed ps)
    else delete_listed ps

unfoldable pub delete_pool_pods : String → String → M (Unit {0})
unfolding delete_listed
delete_pool_pods ns workload = do
  answer ← call (list_pods ns ((label_workload, workload) ∷ []))
  pods ← or_fail answer
  delete_listed pods

-- `pod.Labels[LabelPoolStatus]`, which is empty where there is no such label.
unfoldable pub status_of : Pod → String
status_of p = elim (lookup label_pool_status p.meta.labels) [ none ↦ "" | some status ↦ status ]

unfoldable pub relabeled : Pod → Pod
relabeled p = record p {
  meta = record (p.meta) { labels = insert label_pool_status "ready" p.meta.labels };
}

-- The counts of warming and of ready Pods, after the warming ones that are ready are relabelled.
unfoldable pub relabel : List Pod → ℕ → ℕ → M (ℕ × ℕ)
unfolding status_of relabeled is_pod_ready
relabel [] warming done = pure (warming, done)
relabel (p ∷ ps) warming done =
    if (status_of p == "warming") && is_pod_ready p
    then (do
      answer ← call (update_pod (relabeled p))
      written ← or_wrap ("relabeling pod " <> p.meta.name) answer
      relabel ps warming (suc done))
    else if status_of p == "ready"
    then relabel ps warming (suc done)
    else if status_of p == "warming"
    then relabel ps (suc warming) done
    else relabel ps warming done

unfoldable pub create_config_map_of : Option ConfigMap → M (Unit {0})
create_config_map_of none = pure tt
create_config_map_of (some cm) = do
  outcome ← call (create_config_map cm)
  succeed_or_wrap "creating proxy configmap" (unless_exists outcome)

-- One round of the loop that fills the pool.
unfoldable pub create_pool_pod : DecodeEnv → Pool → Workload → Option ProxyConfig → M Pod
unfolding create_config_map_of
create_pool_pod decode pool wl proxy = do
  suffix ← call random_suffix
  result ← or_wrap "translating pool pod" (
      translate decode wl.spec (record {
        instance_id = pool.spec.workload_ref <> "-pool-" <> suffix;
        workload_name = pool.spec.workload_ref;
        tenant_id = "";
        namespace = pool.meta.namespace;
        pool_status = "warming";
        image_ref = resolved_image_ref wl;
        proxy_config = proxy;
        claim_token_secret = "";
        api_service_url = "";
      }))
  create_config_map_of result.config_map
  answer ← call (create_pod result.pod)
  or_wrap "creating pool pod" answer

-- `for i := 0; i < canCreate; i++`, with the count of warming Pods that it keeps.
unfoldable pub fill : DecodeEnv → Pool → Workload → Option ProxyConfig → ℕ → ℕ → M ℕ
unfolding create_pool_pod
fill decode pool wl proxy zero warming = pure warming
fill decode pool wl proxy (suc n) warming = do
  pod ← create_pool_pod decode pool wl proxy
  fill decode pool wl proxy n (suc warming)

unfoldable pub max_fill : Pool → ℕ
max_fill pool = elim pool.spec.max_fill_concurrency [
  | none ↦ default_max_fill_concurrency
  | some n ↦ n
]

-- The loop runs no round where the source's `canCreate` is negative, as where it is 0.
unfoldable pub can_create : ℕ → ℕ → ℕ → ℕ
can_create gap limit warming = if ltb gap (limit - warming) then gap else limit - warming

unfoldable pub set_pool_status : Pool → ℕ → ℕ → PoolPhase → M Requeue
set_pool_status pool ready_count warming phase = do
  outcome ← call (
      update_pool_status
        (record pool { status = record { ready = ready_count; warming = warming; phase = phase } }))
  succeed outcome
  pure (after (10 * second))

-- Steps 7 and 8: fill the gap, then write the status.
unfoldable pub fill_gap : DecodeEnv → Pool → Workload → ℕ → ℕ → M ℕ
unfolding fill max_fill can_create
fill_gap decode pool wl total warming =
    if ltb total pool.spec.size
    then (do
      proxy ← proxy_config_for pool.meta.namespace "building proxy config for pool" wl.spec.network
      fill decode pool wl proxy (can_create (pool.spec.size - total) (max_fill pool) warming)
          warming)
    else pure warming

unfoldable pub manage_pods : DecodeEnv → Pool → Workload → M Requeue
unfolding list_pool_pods relabel fill_gap set_pool_status
manage_pods decode pool wl = do
  pods ← wrapping "listing pool pods" (list_pool_pods pool.meta.namespace pool.spec.workload_ref)
  counts ← relabel pods 0 0
  warming ← fill_gap decode pool wl (length pods) counts.0
  set_pool_status pool counts.1 warming (if ltb 0 warming then degraded else healthy)

abbrev pub is_workload_ready : Workload → Bool
is_workload_ready wl = elim wl.status.phase [ ready ↦ true | _ ↦ false ]

unfoldable pub of_workload : DecodeEnv → Pool → Result Workload → M Requeue
unfolding manage_pods set_pool_status
of_workload decode pool (err e) =
    if is_not_found e then set_pool_status pool 0 0 PoolPhase.error else raise e
of_workload decode pool (ok wl) =
    if is_workload_ready wl
    then manage_pods decode pool wl
    else set_pool_status pool 0 0 PoolPhase.error

unfoldable pub finalize_pool : Pool → M Requeue
unfolding delete_pool_pods
finalize_pool pool =
    if contains_finalizer pool.meta
    then (do
      wrapping "cleaning up pool pods" (delete_pool_pods pool.meta.namespace pool.spec.workload_ref)
      outcome ← call (update_pool (record pool { meta = remove_finalizer pool.meta }))
      succeed outcome
      pure stop)
    else pure stop

-- Steps 3 to 8.
unfoldable pub live_or_deleted : DecodeEnv → Pool → Option ℕ → M Requeue
unfolding of_workload finalize_pool
live_or_deleted decode pool (some time) = finalize_pool pool
live_or_deleted decode pool none = do
  answer ←
      call
        (get_workload (record { name = pool.spec.workload_ref; namespace = pool.meta.namespace }))
  of_workload decode pool answer

unfoldable pub reconcile_found : DecodeEnv → Pool → M Requeue
unfolding live_or_deleted
reconcile_found decode pool =
    if contains_finalizer pool.meta
    then live_or_deleted decode pool pool.meta.deletion_timestamp
    else (do
      outcome ← call (update_pool (record pool { meta = add_finalizer pool.meta }))
      succeed outcome
      pure again)

unfoldable pub answer_pool : DecodeEnv → Result Pool → M Requeue
unfolding reconcile_found
answer_pool decode (err e) = if is_not_found e then pure stop else raise e
answer_pool decode (ok pool) = reconcile_found decode pool

unfoldable pub reconcile : DecodeEnv → Key → M Requeue
unfolding answer_pool
reconcile decode key = do answer ← call (get_pool key); answer_pool decode answer
