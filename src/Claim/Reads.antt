-- ===== src/Claim/Reads.antt =====
-- The steps that resolve credentials and issue certificates keep every property of the history that looks
-- at neither.
use boilerhouse.Common.{String, List, [], ◌∷◌, Option, none, some}
use boilerhouse.Common.Dict.{Dict}
use boilerhouse.Types.Workload.{
  WorkloadNetwork, NetworkCredential, HeaderEntry, HeaderValueSource, SecretKeyRef,
}
use boilerhouse.Sidecar.{
  Cache, secret_data, key_of, resolve_secret_key_ref, resolve_header, resolve_headers, resolve_each,
}
use boilerhouse.Envoy.{ResolvedCredential}
use boilerhouse.Cluster.{Trace, event, Request, Response, call, get_secret, generate_tls}
use boilerhouse.Cluster.Keeps.{Keeps, keeps_rules, Keeps-call}
use boilerhouse.Claim.Pods.{build_proxy_config, proxy_config_of, proxy_config_for}

-- The requests of `BuildProxyConfig`.
abbrev pub Reads : Request → Type 0
Reads (get_secret _) = Unit
Reads (generate_tls _) = Unit
Reads _ = ⊥

-- `P` looks at neither of them.
abbrev pub IgnoresReads : (Trace → Type 0) → Type 0
IgnoresReads P = (r : Request) (x : Response r) (t : Trace) → Reads r → P t → P (event r x ∷ t)

module _ {P : Trace → Type 0} (q : IgnoresReads P) where
  Keeps-read : (r : Request) → Reads r → Keeps P (call r)
  Keeps-read r h = Keeps-call r (λ t x p. q r x t h p)

  secret_data-Keeps :
      (ns name : String) (o : Option (Dict String)) (cache : Cache)
      → Keeps P (secret_data ns name o cache)
  unfolding secret_data
  secret_data-Keeps ns name none cache = search (keeps_rules, Keeps-read)
  secret_data-Keeps ns name (some d) cache = search keeps_rules

  key_of-Keeps : (name key : String) (o : Option String) → Keeps P (key_of name key o)
  unfolding key_of
  key_of-Keeps name key none = search keeps_rules
  key_of-Keeps name key (some v) = search keeps_rules

  resolve_secret_key_ref-Keeps :
      (ns : String) (o : Option SecretKeyRef) (cache : Cache)
      → Keeps P (resolve_secret_key_ref ns o cache)
  unfolding resolve_secret_key_ref
  resolve_secret_key_ref-Keeps ns none cache = search keeps_rules
  resolve_secret_key_ref-Keeps ns (some ref) cache =
      search (keeps_rules, secret_data-Keeps, key_of-Keeps) depth 8

  resolve_header-Keeps :
      (ns domain : String) (h : HeaderEntry) (cache : Cache) (o : Option HeaderValueSource)
      → Keeps P (resolve_header ns domain h cache o)
  unfolding resolve_header
  resolve_header-Keeps ns domain h cache none = search keeps_rules
  resolve_header-Keeps ns domain h cache (some source) =
      search (keeps_rules, resolve_secret_key_ref-Keeps)

  resolve_headers-Keeps :
      (ns domain : String) (hs : List HeaderEntry) (headers : Dict String) (cache : Cache)
      → Keeps P (resolve_headers ns domain hs headers cache)
  unfolding resolve_headers
  resolve_headers-Keeps ns domain [] headers cache = search keeps_rules
  resolve_headers-Keeps ns domain (h ∷ hs) headers cache =
      let ih = resolve_headers-Keeps ns domain hs in search (keeps_rules, resolve_header-Keeps, ih)

  resolve_each-Keeps :
      (ns : String) (cs : List NetworkCredential) (resolved : List ResolvedCredential)
      (cache : Cache)
      → Keeps P (resolve_each ns cs resolved cache)
  unfolding resolve_each
  resolve_each-Keeps ns [] resolved cache = search keeps_rules
  resolve_each-Keeps ns (c ∷ cs) resolved cache =
      let ih = resolve_each-Keeps ns cs in search (keeps_rules, resolve_headers-Keeps, ih)

  build_proxy_config-Keeps :
      (ns : String) (cs : List NetworkCredential) (allowlist : List String)
      → Keeps P (build_proxy_config ns cs allowlist)
  unfolding build_proxy_config
  build_proxy_config-Keeps ns cs allowlist =
      search (keeps_rules, Keeps-read, resolve_each-Keeps) depth 10

  proxy_config_of-Keeps :
      (ns text : String) (cs : List NetworkCredential) (allowlist : List String)
      → Keeps P (proxy_config_of ns text cs allowlist)
  unfolding proxy_config_of
  proxy_config_of-Keeps ns text [] allowlist = search keeps_rules
  proxy_config_of-Keeps ns text (c ∷ cs) allowlist = search (keeps_rules, build_proxy_config-Keeps)

  pub proxy_config_for-Keeps :
      (ns text : String) (o : Option WorkloadNetwork) → Keeps P (proxy_config_for ns text o)
  unfolding proxy_config_for
  proxy_config_for-Keeps ns text none = search keeps_rules
  proxy_config_for-Keeps ns text (some network) = proxy_config_of-Keeps ns text _ _
