-- ===== src/Translate/Container.antt =====
-- go/internal/operator/translator.go: `buildContainer` and `parseEnvVars`.
use boilerhouse.Common.{
  String, false, List, [], ◌∷◌, ◌++◌, Option, none, some, ◌==◌, ◌<>◌, if◌then◌else◌, map,
}
use boilerhouse.Common.Dict.{Dict}
use boilerhouse.Common.Int.{ℤ, to_int32, mul_int}
use boilerhouse.Common.Text.{show_ℤ, sort_entries}
use boilerhouse.Types.Workload.{
  WorkloadSpec, WorkloadNetwork, WorkloadEntrypoint, WorkloadHealth, WorkloadResources,
}
use boilerhouse.Types.Pod.{Container, EnvVar, PullPolicy, Probe, ProbeHandler, Resources}
use boilerhouse.Cluster.{Result, ok, err, wrap}
use boilerhouse.Translate.Objects.{TranslateOpts}

-- `json.Unmarshal` of a raw object into a `map[string]string`.
abbrev pub DecodeEnv : Type 0
DecodeEnv = String → Result (Dict String)

literal : String × String → EnvVar
literal (k, v) = record { name = k; value = v; secret_key_ref = none }

unfoldable pub parse_env_vars : DecodeEnv → String → Result (List EnvVar)
unfolding literal
parse_env_vars decode raw = elim (decode raw) [
  | ok m ↦ ok (map literal (sort_entries m))
  | err e ↦ err e
]

-- A request equals its limit, which gives the Pod the Guaranteed quality of service.
resources : WorkloadResources → Resources
resources r =
    let cpu = show_ℤ (mul_int r.vcpus 1000) <> "m" in
    let memory = show_ℤ r.memory_mb <> "Mi" in
    record { cpu_request = cpu; memory_request = memory; cpu_limit = cpu; memory_limit = memory }

handler : WorkloadHealth → ProbeHandler
handler health = elim health.http_get [
  | some get ↦ ProbeHandler.http_get get.path (to_int32 get.port)
  | none ↦ elim health.exec [ some command ↦ ProbeHandler.exec command | none ↦ ProbeHandler.unset ]
]

probe : Option WorkloadHealth → Option Probe
unfolding handler
probe none = none
probe (some health) = some (record {
  period_seconds = to_int32 health.interval_seconds;
  failure_threshold = to_int32 health.unhealthy_threshold;
  handler = handler health;
})

token_env : TranslateOpts → List EnvVar
token_env opts =
    if opts.claim_token_secret == ""
    then []
    else record {
      name = "BOILERHOUSE_API_KEY";
      value = "";
      secret_key_ref = some (record { name = opts.claim_token_secret; key = "token" });
    }
      ∷ record { name = "BOILERHOUSE_API_URL"; value = opts.api_service_url; secret_key_ref = none }
      ∷ []

exposed : Option WorkloadNetwork → List ℤ
exposed none = []
exposed (some network) = map to_int32 network.expose

unfoldable pub main_container : WorkloadSpec → TranslateOpts → Container
unfolding resources exposed probe
main_container spec opts = record {
  name = "main";
  image = if opts.image_ref == "" then spec.image.ref else opts.image_ref;
  pull_policy = if spec.image.dockerfile == "" then PullPolicy.if_not_present else PullPolicy.never;
  command = [];
  args = [];
  working_dir = "";
  env = [];
  ports = exposed spec.network;
  resources = resources spec.resources;
  security = record {
    run_as_user = none;
    drop = "ALL" ∷ [];
    add = [];
    allow_privilege_escalation = some false;
    read_only_root_filesystem = none;
  };
  mounts = [];
  readiness = probe spec.health;
}

unfoldable pub with_env : Container → Result (List EnvVar) → Result Container
with_env c (ok vars) = ok (record c { env = vars })
with_env c (err error) = err (wrap "parsing env vars" error)

unfoldable pub with_raw_env : DecodeEnv → Container → Option String → Result Container
unfolding parse_env_vars with_env
with_raw_env decode c none = ok c
with_raw_env decode c (some raw) = with_env c (parse_env_vars decode raw)

-- The entrypoint's part of the container; only its environment can fail to decode.
unfoldable pub with_entrypoint :
    DecodeEnv → Option WorkloadEntrypoint → Container → Result Container
unfolding with_raw_env
with_entrypoint decode none c = ok c
with_entrypoint decode (some e) c =
    with_raw_env decode
      (record c {
        command = if e.cmd == "" then [] else e.cmd ∷ [];
        args = e.args;
        working_dir = e.workdir;
      })
      e.env

unfoldable pub with_token : TranslateOpts → Result Container → Result Container
unfolding token_env
with_token opts (ok c) = ok (record c { env = c.env ++ token_env opts })
with_token opts (err error) = err error

unfoldable pub build_container : DecodeEnv → WorkloadSpec → TranslateOpts → Result Container
unfolding with_entrypoint main_container with_token
build_container decode spec opts =
    with_token opts (with_entrypoint decode spec.entrypoint (main_container spec opts))
