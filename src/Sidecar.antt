-- ===== src/Sidecar.antt =====
-- go/internal/operator/sidecar.go: the Envoy sidecar and the resolution of its credentials.
use boilerhouse.Common.{
  ℕ, String, true, false, List, [], ◌∷◌, ◌++◌, Option, none, some, ◌==◌, ◌<>◌, ◌||◌, not,
  if◌then◌else◌,
}
use boilerhouse.Common.Dict.{Dict, lookup, insert}
use boilerhouse.Common.Int.{pos}
use boilerhouse.Common.Text.{show_ℕ}
use boilerhouse.Types.Workload.{NetworkCredential, HeaderEntry, HeaderValueSource, SecretKeyRef}
use boilerhouse.Types.Pod.{Pod, Container, PullPolicy, VolumeSource}
use boilerhouse.Envoy.{ResolvedCredential}
use boilerhouse.Cluster.{M, message, ◌>>=◌, pure, raise, call, or_wrap, get_secret, wrapping}

abbrev pub envoy_proxy_port : ℕ
envoy_proxy_port = 18080

abbrev pub envoy_tls_port : ℕ
envoy_tls_port = 18443

abbrev pub envoy_run_as_uid : ℕ
envoy_run_as_uid = 101

iptables_script : String
unfolding show_ℕ
iptables_script =
    "set -eu\napk add --no-cache -q iptables >/dev/null 2>&1\n"
    <> "iptables -A OUTPUT -d 169.254.0.0/16 -j DROP\n"
    <> "iptables -t nat -A OUTPUT -m owner --uid-owner "
    <> show_ℕ envoy_run_as_uid
    <> " -j RETURN\niptables -t nat -A OUTPUT -p tcp --dport 80  -j REDIRECT --to-port "
    <> show_ℕ envoy_proxy_port
    <> "\niptables -t nat -A OUTPUT -p tcp --dport 443 -j REDIRECT --to-port "
    <> show_ℕ envoy_tls_port
    <> "\necho \"iptables rules installed\"\n"

abbrev init_container : String → Container
init_container script = record {
  name = "iptables-init";
  image = "docker.io/alpine:3.21";
  pull_policy = PullPolicy.unset;
  command = "sh" ∷ "-c" ∷ script ∷ [];
  args = [];
  working_dir = "";
  env = [];
  ports = [];
  resources = record {
    cpu_request = "10m";
    memory_request = "16Mi";
    cpu_limit = "100m";
    memory_limit = "64Mi";
  };
  security = record {
    run_as_user = some 0;
    drop = "ALL" ∷ [];
    add = "NET_ADMIN" ∷ [];
    allow_privilege_escalation = some false;
    read_only_root_filesystem = none;
  };
  mounts = [];
  readiness = none;
}

abbrev pub envoy_container : Container
envoy_container = record {
  name = "envoy";
  image = "docker.io/envoyproxy/envoy:v1.32-latest";
  pull_policy = PullPolicy.unset;
  command = "envoy" ∷ "-c" ∷ "/etc/envoy/envoy.yaml" ∷ "--log-level" ∷ "warn" ∷ [];
  args = [];
  working_dir = "";
  env = [];
  ports = pos envoy_proxy_port ∷ pos envoy_tls_port ∷ [];
  resources = record {
    cpu_request = "50m";
    memory_request = "32Mi";
    cpu_limit = "200m";
    memory_limit = "128Mi";
  };
  security = record {
    run_as_user = some envoy_run_as_uid;
    drop = "ALL" ∷ [];
    add = [];
    allow_privilege_escalation = some false;
    read_only_root_filesystem = some true;
  };
  mounts =
      record { name = "proxy-config"; mount_path = "/etc/envoy"; sub_path = ""; read_only = true }
      ∷ [];
  readiness = none;
}

abbrev pub trusting : Container → Container
trusting c = record c {
  env =
      c.env
      ++ record { name = "NODE_EXTRA_CA_CERTS"; value = "/etc/envoy/ca.crt"; secret_key_ref = none }
        ∷ [];
  mounts =
      c.mounts
      ++ record {
        name = "proxy-config";
        mount_path = "/etc/envoy/ca.crt";
        sub_path = "ca.crt";
        read_only = true;
      }
        ∷ [];
}

-- Only the first container trusts the proxy's certificate authority.
abbrev pub trust_first : List Container → List Container
trust_first [] = []
trust_first (c ∷ cs) = trusting c ∷ cs

unfoldable pub inject_sidecar : Pod → String → Pod
unfolding iptables_script
inject_sidecar pod config_map_name = record pod {
  init_containers = pod.init_containers ++ init_container iptables_script ∷ [];
  containers = trust_first (pod.containers ++ envoy_container ∷ []);
  volumes =
      pod.volumes
      ++ record { name = "proxy-config"; source = VolumeSource.config_map config_map_name } ∷ [];
}

-- The cache of Secrets that one call of `ResolveCredentials` has read.
abbrev pub Cache : Type 0
Cache = Dict (Dict String)

abbrev pub quote : String → String
quote s = "\"" <> s <> "\""

unfoldable pub secret_data :
    String → String → Option (Dict String) → Cache → M (Dict String × Cache)
secret_data ns name (some entries) cache = pure (entries, cache)
secret_data ns name none cache = do
  answer ← call (get_secret (record { name = name; namespace = ns }))
  secret ← or_wrap ("secret " <> quote name) answer
  pure (secret.entries, insert name secret.entries cache)

unfoldable pub key_of : String → String → Option String → M String
key_of name key (some value) = pure value
key_of name key none =
    raise (message ("secret " <> quote name <> ": key " <> quote key <> " not found"))

unfoldable pub resolve_secret_key_ref : String → Option SecretKeyRef → Cache → M (String × Cache)
unfolding secret_data key_of
resolve_secret_key_ref ns none cache = raise (message "valueFrom.secretKeyRef is nil")
resolve_secret_key_ref ns (some ref) cache =
    if ref.name == "" || ref.key == ""
    then raise (message "secretKeyRef requires name and key")
    else do
      found ← secret_data ns ref.name (lookup ref.name cache) cache
      value ← key_of ref.name ref.key (lookup ref.key found.0)
      pure (value, found.1)

-- The last argument is the entry's `value_from`.
unfoldable pub resolve_header :
    String → String → HeaderEntry → Cache → Option HeaderValueSource → M (String × Cache)
unfolding resolve_secret_key_ref
resolve_header ns domain h cache none =
    if h.value == ""
    then raise (
        message (
          "credential for domain "
          <> domain
          <> ": header "
          <> quote h.name
          <> " has neither value nor valueFrom"))
    else pure (h.value, cache)
resolve_header ns domain h cache (some source) =
    if not (h.value == "")
    then raise (
        message (
          "credential for domain "
          <> domain
          <> ": header "
          <> quote h.name
          <> " sets both value and valueFrom"))
    else wrapping ("credential for domain " <> domain <> ", header " <> quote h.name)
        (resolve_secret_key_ref ns source.secret_key_ref cache)

unfoldable pub resolve_headers :
    String → String → List HeaderEntry → Dict String → Cache → M (Dict String × Cache)
unfolding resolve_header
resolve_headers ns domain [] headers cache = pure (headers, cache)
resolve_headers ns domain (h ∷ hs) headers cache =
    if h.name == ""
    then raise (message ("credential for domain " <> domain <> ": header entry missing name"))
    else do
      found ← resolve_header ns domain h cache h.value_from
      resolve_headers ns domain hs (insert h.name found.0 headers) found.1

unfoldable pub resolve_each :
    String → List NetworkCredential → List ResolvedCredential → Cache → M (List ResolvedCredential)
unfolding resolve_headers
resolve_each ns [] resolved cache = pure resolved
resolve_each ns (c ∷ cs) resolved cache =
    if c.domain == "" then resolve_each ns cs resolved cache else do
      found ← resolve_headers ns c.domain c.headers [] cache
      resolve_each ns cs (resolved ++ record { domain = c.domain; headers = found.0 } ∷ []) found.1

unfoldable pub resolve_credentials : String → List NetworkCredential → M (List ResolvedCredential)
unfolding resolve_each
resolve_credentials ns credentials = resolve_each ns credentials [] []
