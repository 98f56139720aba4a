-- ===== src/Translate/Build.antt =====
-- go/internal/operator/translator.go: `buildPod` and `Translate`.
use boilerhouse.Common.{ℕ, suc, String, false, List, [], ◌∷◌, ◌++◌, Option, none, some, ◌<>◌}
use boilerhouse.Common.Dict.{Dict}
use boilerhouse.Common.Text.{show_ℕ}
use boilerhouse.Types.Workload.{WorkloadSpec, WorkloadNetwork}
use boilerhouse.Types.Pod.{Pod, PodPhase, Container, Volume, VolumeMount, VolumeSource, ConfigMap}
use boilerhouse.Cluster.{Result, ok, err, wrap}
use boilerhouse.Sidecar.{inject_sidecar}
use boilerhouse.Translate.Objects.{
  ProxyConfig, TranslateOpts, Service, NetworkPolicy, meta_of, build_labels, build_service,
  build_network_policy, build_proxy_config_map,
}
use boilerhouse.Translate.Container.{DecodeEnv, build_container}

overlay_volumes : ℕ → List String → List Volume
overlay_volumes i [] = []
overlay_volumes i (dir ∷ rest) =
    record { name = "overlay-" <> show_ℕ i; source = VolumeSource.empty_dir }
    ∷ overlay_volumes (suc i) rest

overlay_mounts : ℕ → List String → List VolumeMount
overlay_mounts i [] = []
overlay_mounts i (dir ∷ rest) =
    record { name = "overlay-" <> show_ℕ i; mount_path = dir; sub_path = ""; read_only = false }
    ∷ overlay_mounts (suc i) rest

abbrev pub overlay_dirs : WorkloadSpec → List String
overlay_dirs spec = elim spec.filesystem [ none ↦ [] | some fs ↦ fs.overlay_dirs ]

-- A new Pod has no address and no condition yet; its phase is what the server shows for it.
unfoldable pub pod_of : WorkloadSpec → TranslateOpts → Dict String → Container → Pod
unfolding overlay_volumes overlay_mounts
pod_of spec opts labels c = record {
  meta = meta_of opts.instance_id opts.namespace labels;
  containers = record c { mounts = c.mounts ++ overlay_mounts 0 (overlay_dirs spec) } ∷ [];
  init_containers = [];
  volumes = overlay_volumes 0 (overlay_dirs spec);
  automount_token = false;
  phase = PodPhase.unset;
  pod_ip = "";
  conditions = [];
}

unfoldable pub pod_around :
    WorkloadSpec → TranslateOpts → Dict String → Result Container → Result Pod
unfolding pod_of
pod_around spec opts labels (ok c) = ok (pod_of spec opts labels c)
pod_around spec opts labels (err e) = err e

unfoldable pub build_pod : DecodeEnv → WorkloadSpec → TranslateOpts → Dict String → Result Pod
unfolding pod_around
build_pod decode spec opts labels = pod_around spec opts labels (build_container decode spec opts)

pub record TranslateResult : Type 0 where
  pub pod : Pod
  pub service : Option Service
  pub network_policy : NetworkPolicy
  pub config_map : Option ConfigMap

service_of : Option WorkloadNetwork → TranslateOpts → Dict String → Option Service
service_of none opts labels = none
service_of (some network) opts labels = elim network.expose [
  | [] ↦ none
  | p ∷ ps ↦ some (build_service network opts labels)
]

unfoldable pub with_proxy : TranslateOpts → Option ProxyConfig → Pod → Pod
with_proxy opts none pod = pod
with_proxy opts (some proxy) pod = inject_sidecar pod ("proxy-" <> opts.instance_id)

config_map_of : TranslateOpts → Dict String → Option ProxyConfig → Option ConfigMap
config_map_of opts labels none = none
config_map_of opts labels (some proxy) =
    some (build_proxy_config_map proxy opts labels ("proxy-" <> opts.instance_id))

unfoldable pub translated : WorkloadSpec → TranslateOpts → Dict String → Pod → TranslateResult
unfolding service_of with_proxy config_map_of
translated spec opts labels pod = record {
  pod = with_proxy opts opts.proxy_config pod;
  service = service_of spec.network opts labels;
  network_policy = build_network_policy spec.network opts labels;
  config_map = config_map_of opts labels opts.proxy_config;
}

unfoldable pub translate_with :
    WorkloadSpec → TranslateOpts → Dict String → Result Pod → Result TranslateResult
unfolding translated
translate_with spec opts labels (ok pod) = ok (translated spec opts labels pod)
translate_with spec opts labels (err e) = err (wrap "building pod" e)

unfoldable pub translate : DecodeEnv → WorkloadSpec → TranslateOpts → Result TranslateResult
unfolding translate_with
translate decode spec opts =
    translate_with spec opts (build_labels opts) (build_pod decode spec opts (build_labels opts))
