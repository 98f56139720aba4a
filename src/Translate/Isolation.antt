-- ===== src/Translate/Isolation.antt =====
-- What `Translate` guarantees of the Pod of a tenant and of its network policy.
use boilerhouse.Common.{
  String, false, List, [], ◌∷◌, Option, none, some, ◌≡◌, refl, ◌⊎◌, inl, inr, All, All-append, ◌==◌,
  Bool-cases, sym, ◌∙◌, ap,
}
use boilerhouse.Common.Dict.{Dict, lookup, lookup-insert}
use boilerhouse.Types.Workload.{
  WorkloadSpec, WorkloadNetwork, WorkloadEntrypoint, Access, unset, deny, restricted, unrestricted,
}
use boilerhouse.Types.Pod.{Pod, Container, EnvVar}
use boilerhouse.Sidecar.{inject_sidecar, trust_first}
use boilerhouse.Cluster.{Result, ok, err}
use boilerhouse.Translate.Objects.{
  TranslateOpts, EgressRule, Peer, Protocol, build_labels, insert_unless_empty, label_instance,
  egress_rules, build_network_policy, or_deny, access_of, label_pool_status, label_tenant,
  ProxyConfig,
}
use boilerhouse.Translate.Container.{
  DecodeEnv, build_container, with_entrypoint, with_raw_env, with_env, with_token, parse_env_vars,
  main_container,
}
use boilerhouse.Translate.Build.{
  TranslateResult, pod_of, build_pod, pod_around, with_proxy, translated, translate_with, translate,
}

-- A peer that leaves out the link-local addresses, where clouds serve their metadata.
abbrev pub AvoidsLinkLocal : Peer → Type 0
AvoidsLinkLocal Peer.all_namespaces = Unit
AvoidsLinkLocal (Peer.ip_block cidr except) = except ≡ "169.254.0.0/16" ∷ []

-- Traffic that a restricted workload may send: DNS, or HTTPS.
abbrev pub IsRestricted : EgressRule → Type 0
IsRestricted rule =
    (rule.ports
      ≡ record { protocol = Protocol.udp; port = 53 }
        ∷ record { protocol = Protocol.tcp; port = 53 }
        ∷ [])
    ⊎ (rule.ports ≡ record { protocol = Protocol.tcp; port = 443 } ∷ [])

-- The traffic that each access allows; no setting allows none.
abbrev pub Allows : Access → List EgressRule → Type 0
Allows unrestricted rules = Unit
Allows restricted rules = All IsRestricted rules
Allows _ rules = rules ≡ []

abbrev pub Permits : Option WorkloadNetwork → List EgressRule → Type 0
Permits none rules = Allows deny rules
Permits (some network) rules = Allows network.access rules

-- A container without capabilities, root or not, that cannot gain any.
abbrev pub IsConfined : Container → Type 0
IsConfined c =
    (c.security.drop ≡ "ALL" ∷ [])
    × (c.security.add ≡ [])
    × (c.security.allow_privilege_escalation ≡ some false)

-- The policy is the Pod's, and the Pod and the policy are confined.
pub record Isolates (network : Option WorkloadNetwork) (result : TranslateResult) : Type 0 where
  pub labelled : lookup label_instance result.pod.meta.labels ≡ some result.pod.meta.name
  pub selected : result.network_policy.pod_selector ≡ (label_instance, result.pod.meta.name) ∷ []
  pub no_link_local : All (λ rule. All AvoidsLinkLocal rule.to) result.network_policy.egress
  pub permitted : Permits network result.network_policy.egress
  pub confined : All IsConfined result.pod.containers
  pub no_token : result.pod.automount_token ≡ false

-- A statement about the value, if there is one.
abbrev Holds : {A : Type 0} → (A → Type 0) → Result A → Type 0
Holds P (ok a) = P a
Holds P (err e) = Unit

module _ {A : Type 0} (P : A → Type 0) where
  Holds-ok : (x : Result A) (a : A) → x ≡ ok a → Holds P x → P a
  Holds-ok (ok b) a e h = let same : b ≡ a = cc in rw (sym same) h
  Holds-ok (err error) a e h = absurd cc

-- The access of a policy.
no_link_local_rules :
    (access : Access) → All (λ rule. All AvoidsLinkLocal rule.to) (egress_rules access)
unfolding egress_rules
no_link_local_rules unset = tt
no_link_local_rules deny = tt
no_link_local_rules restricted = ((tt, tt), ((refl, tt), tt))
no_link_local_rules unrestricted = ((tt, tt), ((refl, tt), tt))

egress_rules-Allows : (access : Access) → Allows access (egress_rules (or_deny access))
unfolding egress_rules
egress_rules-Allows unset = refl
egress_rules-Allows deny = refl
egress_rules-Allows restricted = (inl refl, (inr refl, tt))
egress_rules-Allows unrestricted = tt

egress_rules-Permits :
    (network : Option WorkloadNetwork) → Permits network (egress_rules (access_of network))
egress_rules-Permits none = egress_rules-Allows deny
egress_rules-Permits (some network) = egress_rules-Allows network.access

lookup-insert_unless_empty :
    (k v : String) (m : Dict String)
    → (k == label_instance) ≡ false
    → lookup label_instance (insert_unless_empty k v m) ≡ lookup label_instance m
unfolding insert_unless_empty
lookup-insert_unless_empty k v m differs = elim (Bool-cases (v == "")) [
  | inl missing ↦ rw missing
  | inr given ↦ rw (given, lookup-insert, differs)
]

instance_labelled :
    (opts : TranslateOpts) → lookup label_instance (build_labels opts) ≡ some opts.instance_id
unfolding build_labels
instance_labelled opts = rw (
  lookup-insert_unless_empty label_pool_status opts.pool_status _ refl,
  lookup-insert_unless_empty label_tenant opts.tenant_id _ refl,
  lookup-insert,
)

with_raw_env-IsConfined :
    (decode : DecodeEnv) (c : Container) (o : Option String)
    → IsConfined c
    → Holds IsConfined (with_raw_env decode c o)
unfolding with_raw_env with_env
with_raw_env-IsConfined decode c none h = h
with_raw_env-IsConfined decode c (some raw) h = go (parse_env_vars decode raw)
  where
    go : (x : Result (List EnvVar)) → Holds IsConfined (with_env c x)
    go (ok vars) = h
    go (err e) = tt

with_entrypoint-IsConfined :
    (decode : DecodeEnv) (o : Option WorkloadEntrypoint) (c : Container)
    → IsConfined c
    → Holds IsConfined (with_entrypoint decode o c)
unfolding with_entrypoint
with_entrypoint-IsConfined decode none c h = h
with_entrypoint-IsConfined decode (some e) c h = with_raw_env-IsConfined decode _ e.env h

with_token-IsConfined :
    (opts : TranslateOpts) (x : Result Container)
    → Holds IsConfined x
    → Holds IsConfined (with_token opts x)
unfolding with_token
with_token-IsConfined opts (ok c) h = h
with_token-IsConfined opts (err e) h = tt

build_container-IsConfined :
    (decode : DecodeEnv) (spec : WorkloadSpec) (opts : TranslateOpts)
    → Holds IsConfined (build_container decode spec opts)
unfolding build_container main_container
build_container-IsConfined decode spec opts = with_token-IsConfined opts _ (
    with_entrypoint-IsConfined decode spec.entrypoint (main_container spec opts) (refl, refl, refl))

trust_first-IsConfined : (cs : List Container) → All IsConfined cs → All IsConfined (trust_first cs)
trust_first-IsConfined [] h = tt
trust_first-IsConfined (c ∷ cs) h = h

module _ (spec : WorkloadSpec) (opts : TranslateOpts) where
  -- The Pod that is built, before and after the sidecar.
  IsBuilt : Pod → Type 0
  IsBuilt pod =
      (pod.meta.name ≡ opts.instance_id)
      × (lookup label_instance pod.meta.labels ≡ some opts.instance_id)
      × All IsConfined pod.containers
      × (pod.automount_token ≡ false)

  pod_around-IsBuilt :
      (x : Result Container)
      → Holds IsConfined x
      → Holds IsBuilt (pod_around spec opts (build_labels opts) x)
  unfolding pod_around pod_of IsBuilt
  pod_around-IsBuilt (ok c) h = (refl, instance_labelled opts, (h, tt), refl)
  pod_around-IsBuilt (err e) h = tt

  with_proxy-IsBuilt :
      (o : Option ProxyConfig) (pod : Pod) → IsBuilt pod → IsBuilt (with_proxy opts o pod)
  unfolding with_proxy inject_sidecar IsBuilt
  with_proxy-IsBuilt none pod h = h
  with_proxy-IsBuilt (some proxy) pod h = (
    h.0,
    h.1,
    trust_first-IsConfined _ (All-append IsConfined pod.containers _ h.2 ((refl, refl, refl), tt)),
    h.3,
  )

  translated-Isolates :
      (pod : Pod)
      → IsBuilt pod
      → Isolates spec.network (translated spec opts (build_labels opts) pod)
  unfolding translated build_network_policy IsBuilt
  translated-Isolates pod h =
      let built : IsBuilt (with_proxy opts opts.proxy_config pod) =
        with_proxy-IsBuilt opts.proxy_config pod h in
      record {
        labelled = built.1 ∙ ap some (sym built.0);
        selected = ap (λ name. (label_instance, name) ∷ []) (sym built.0);
        no_link_local = no_link_local_rules (access_of spec.network);
        permitted = egress_rules-Permits spec.network;
        confined = built.2;
        no_token = built.3;
      }

  translate_with-Isolates :
      (x : Result Pod)
      → Holds IsBuilt x
      → Holds (Isolates spec.network) (translate_with spec opts (build_labels opts) x)
  unfolding translate_with
  translate_with-Isolates (ok pod) h = translated-Isolates pod h
  translate_with-Isolates (err e) h = tt

-- What `Translate` returns is isolated, for any workload: the network policy selects the Pod by the Pod's
-- own name and label; no rule of it reaches the link-local addresses by address, a restricted workload is let
-- send nothing but DNS and HTTPS, and one without an access setting, or with any other, nothing at all; and no
-- container of the Pod, the sidecar included, keeps a capability or may gain privileges, nor is a service
-- account's token mounted. The init container of the sidecar is not among the containers.
pub translate-Isolates :
    (decode : DecodeEnv) (spec : WorkloadSpec) (opts : TranslateOpts) (result : TranslateResult)
    → translate decode spec opts ≡ ok result
    → Isolates spec.network result
unfolding translate build_pod
translate-Isolates decode spec opts result is =
    Holds-ok (Isolates spec.network) (translate decode spec opts) result is (
      translate_with-Isolates spec opts (build_pod decode spec opts (build_labels opts)) (
        pod_around-IsBuilt spec opts (build_container decode spec opts)
          (build_container-IsConfined decode spec opts)))
