-- ===== src/Claim/Pods.antt =====
-- go/internal/operator/claim_pods.go: acquiring a pool Pod, cold boot, the proxy configuration.
use boilerhouse.Common.{
  String, Bool, true, List, [], ◌∷◌, Option, none, some, ◌<>◌, if◌then◌else◌, map,
}
use boilerhouse.Common.Dict.{insert}
use boilerhouse.Types.Workload.{Workload, WorkloadNetwork, NetworkCredential}
use boilerhouse.Types.Claim.{Claim, Source, cold, pool, pool_data}
use boilerhouse.Types.Pod.{Pod, ConfigMap}
use boilerhouse.Envoy.{ResolvedCredential, generate_envoy_yaml}
use boilerhouse.Sidecar.{resolve_credentials}
use boilerhouse.Translate.Objects.{ProxyConfig, label_tenant, label_pool_status}
use boilerhouse.Translate.Build.{translate, TranslateResult}
use boilerhouse.Cluster.{
  M, Error, Result, ok, Requeue, ◌>>=◌, ◌>>◌, pure, call, or_wrap, succeed_or_wrap, wrapping,
  update_pod, create_pod, create_config_map, has_snapshot, inject_snapshot, generate_tls,
  random_suffix,
}
use boilerhouse.Claim.Reconciler.{Reconciler, api_service_url_of}
use boilerhouse.Claim.Token.{ensure_claim_token}
use boilerhouse.Claim.Activate.{activate_claim}
use boilerhouse.Workload.Image.{resolved_image_ref}

unfoldable pub relabel : Pod → String → Pod
unfolding insert
relabel pod tenant = record pod {
  meta = record (pod.meta) {
    labels = insert label_pool_status "acquired" (insert label_tenant tenant pod.meta.labels);
  };
}

-- Whether an injection made the Pod hold the tenant's data; errors are logged only.
injected : Option Error → Source
injected none = pool_data
injected (some e) = pool

unfoldable pub inject : Pod → String → String → Result Bool → M Source
unfolding injected
inject pod tenant workload (ok true) = do
  outcome ← call (inject_snapshot pod.meta.name tenant workload)
  pure (injected outcome)
inject pod tenant workload answer = pure pool

unfoldable pub restore_snapshot : Reconciler → Claim → Pod → M Source
unfolding inject
restore_snapshot r claim pod =
    if r.snapshots
    then (do
      answer ← call (has_snapshot claim.spec.tenant_id claim.spec.workload_ref)
      inject pod claim.spec.tenant_id claim.spec.workload_ref answer)
    else pure pool

unfoldable pub claim_from_pool : Reconciler → Claim → Pod → M Requeue
unfolding relabel restore_snapshot activate_claim
claim_from_pool r claim pool_pod = do
  answer ← call (update_pod (relabel pool_pod claim.spec.tenant_id))
  pod ← or_wrap "relabeling pool pod" answer
  source ← restore_snapshot r claim pod
  activate_claim claim pod source

domain_of : ResolvedCredential → String
domain_of c = c.domain

-- `BuildProxyConfig`; the key material comes from the crypto library.
unfoldable pub build_proxy_config : String → List NetworkCredential → List String → M ProxyConfig
unfolding resolve_credentials domain_of
build_proxy_config ns credentials allowlist = do
  resolved ← wrapping "resolving credentials" (resolve_credentials ns credentials)
  answer ← call (generate_tls (map domain_of resolved))
  material ← or_wrap "generating TLS material" answer
  pure (record {
    envoy_yaml =
        generate_envoy_yaml (record { allowlist = allowlist; credentials = resolved; tls = true });
    ca_cert = some material.ca_cert;
    tls = some material.certs;
  })

unfoldable pub proxy_config_of :
    String → String → List NetworkCredential → List String → M (Option ProxyConfig)
unfolding build_proxy_config
proxy_config_of ns text [] allowlist = pure none
proxy_config_of ns text (c ∷ cs) allowlist = do
  proxy ← wrapping text (build_proxy_config ns (c ∷ cs) allowlist)
  pure (some proxy)

-- The proxy configuration of a workload with credentials, and none of any other.
unfoldable pub proxy_config_for : String → String → Option WorkloadNetwork → M (Option ProxyConfig)
unfolding proxy_config_of
proxy_config_for ns text none = pure none
proxy_config_for ns text (some network) =
    proxy_config_of ns text network.credentials network.allowlist

unfoldable pub create_proxy_config_map : Option ConfigMap → M (Unit {0})
create_proxy_config_map none = pure tt
create_proxy_config_map (some cm) = do
  outcome ← call (create_config_map cm)
  succeed_or_wrap "creating proxy configmap" outcome

create_objects : TranslateResult → M Pod
unfolding create_proxy_config_map
create_objects result = do
  create_proxy_config_map result.config_map
  answer ← call (create_pod result.pod)
  or_wrap "creating tenant pod" answer

unfoldable pub create_tenant_pod : Reconciler → Claim → Workload → String → M Pod
unfolding proxy_config_for create_objects
create_tenant_pod r claim wl token_secret = do
  suffix ← call random_suffix
  proxy ← proxy_config_for r.namespace "building proxy config" wl.spec.network
  result ← or_wrap "translating workload" (
      translate r.decode_env wl.spec (record {
        instance_id = claim.spec.workload_ref <> "-" <> claim.spec.tenant_id <> "-" <> suffix;
        workload_name = claim.spec.workload_ref;
        tenant_id = claim.spec.tenant_id;
        namespace = claim.meta.namespace;
        pool_status = "";
        image_ref = resolved_image_ref wl;
        proxy_config = proxy;
        claim_token_secret = token_secret;
        api_service_url = api_service_url_of r;
      }))
  create_objects result

unfoldable pub cold_boot : Reconciler → Claim → Workload → M Requeue
unfolding create_tenant_pod ensure_claim_token activate_claim
cold_boot r claim wl = do
  token ← wrapping "ensuring claim token" (ensure_claim_token r claim wl)
  pod ← create_tenant_pod r claim wl (if token.1 then "" else token.0)
  activate_claim claim pod cold
