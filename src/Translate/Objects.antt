-- ===== src/Translate/Objects.antt =====
-- go/internal/operator/translator.go: labels, Service, NetworkPolicy and proxy ConfigMap.
use boilerhouse.Common.{
  ℕ, suc, String, Bool, List, [], ◌∷◌, Option, none, some, ◌==◌, ◌<>◌, if◌then◌else◌, ltb, length,
}
use boilerhouse.Common.Dict.{Dict, insert}
use boilerhouse.Common.Int.{ℤ, to_int32}
use boilerhouse.Common.Text.{show_ℕ}
use boilerhouse.Types.Meta.{ObjectMeta}
use boilerhouse.Types.Workload.{WorkloadNetwork, Access, unset, deny, restricted, unrestricted}
use boilerhouse.Types.Pod.{ConfigMap}
use boilerhouse.Envoy.{safe_domain}
use boilerhouse.Cluster.{DomainCert}

abbrev pub label_managed : String
label_managed = "boilerhouse.dev/managed"

abbrev pub label_workload : String
label_workload = "boilerhouse.dev/workload"

abbrev pub label_instance : String
label_instance = "boilerhouse.dev/instance"

abbrev pub label_tenant : String
label_tenant = "boilerhouse.dev/tenant"

abbrev pub label_pool_status : String
label_pool_status = "boilerhouse.dev/pool-status"

abbrev link_local_cidr : String
link_local_cidr = "169.254.0.0/16"

-- `tls` holds the certificates of the TLS material, if there is one.
pub record ProxyConfig : Type 0 where
  pub envoy_yaml : String
  pub ca_cert : Option String
  pub tls : Option (List DomainCert)

pub record TranslateOpts : Type 0 where
  pub instance_id : String
  pub workload_name : String
  pub tenant_id : String
  pub namespace : String
  pub pool_status : String
  pub image_ref : String
  pub proxy_config : Option ProxyConfig
  pub claim_token_secret : String
  pub api_service_url : String

unfoldable pub insert_unless_empty : String → String → Dict String → Dict String
insert_unless_empty k v m = if v == "" then m else insert k v m

unfoldable pub build_labels : TranslateOpts → Dict String
unfolding insert_unless_empty insert
build_labels opts = insert_unless_empty label_pool_status opts.pool_status (
    insert_unless_empty label_tenant opts.tenant_id (
      insert label_instance opts.instance_id
        (insert label_workload opts.workload_name (insert label_managed "true" []))))

abbrev pub meta_of : String → String → Dict String → ObjectMeta
meta_of name namespace labels = record {
  name = name;
  namespace = namespace;
  labels = labels;
  annotations = [];
  finalizers = [];
  owners = [];
  deletion_timestamp = none;
  creation_timestamp = none;
  generation = 0;
}

pub record ServicePort : Type 0 where
  pub name : String
  pub port : ℤ
  pub target_port : ℤ

pub record Service : Type 0 where
  pub meta : ObjectMeta
  pub selector : Dict String
  pub ports : List ServicePort

-- The ports of a Service have names if there are several.
service_ports : Bool → ℕ → List ℤ → List ServicePort
service_ports several i [] = []
service_ports several i (guest ∷ rest) =
    record {
      name = if several then "port-" <> show_ℕ i else "";
      port = to_int32 guest;
      target_port = to_int32 guest;
    }
    ∷ service_ports several (suc i) rest

unfoldable pub build_service : WorkloadNetwork → TranslateOpts → Dict String → Service
unfolding service_ports
build_service network opts labels = record {
  meta = meta_of opts.instance_id opts.namespace labels;
  selector = (label_instance, opts.instance_id) ∷ [];
  ports = service_ports (ltb 1 (length network.expose)) 0 network.expose;
}

pub data Protocol : Type 0 where
  tcp udp : Protocol

pub record PolicyPort : Type 0 where
  pub protocol : Protocol
  pub port : ℕ

pub data Peer : Type 0 where
  all_namespaces : Peer
  ip_block : String → List String → Peer

-- No ports stands for every port.
pub record EgressRule : Type 0 where
  pub ports : List PolicyPort
  pub to : List Peer

-- The only policy type is `Egress`.
pub record NetworkPolicy : Type 0 where
  pub meta : ObjectMeta
  pub pod_selector : Dict String
  pub egress : List EgressRule

abbrev pub dns_egress_rule : EgressRule
dns_egress_rule = record {
  ports =
      record { protocol = Protocol.udp; port = 53 }
      ∷ record { protocol = Protocol.tcp; port = 53 }
      ∷ [];
  to = Peer.all_namespaces ∷ [];
}

abbrev internet : Peer
internet = Peer.ip_block "0.0.0.0/0" (link_local_cidr ∷ [])

unfoldable pub egress_rules : Access → List EgressRule
egress_rules unrestricted = dns_egress_rule ∷ record { ports = []; to = internet ∷ [] } ∷ []
egress_rules restricted =
    dns_egress_rule
    ∷ record { ports = record { protocol = Protocol.tcp; port = 443 } ∷ []; to = internet ∷ [] }
    ∷ []
egress_rules _ = []

-- The default of an access that is not set.
abbrev pub or_deny : Access → Access
or_deny unset = deny
or_deny other = other

abbrev pub access_of : Option WorkloadNetwork → Access
access_of none = deny
access_of (some network) = or_deny network.access

unfoldable pub build_network_policy :
    Option WorkloadNetwork → TranslateOpts → Dict String → NetworkPolicy
unfolding egress_rules
build_network_policy network opts labels = record {
  meta = meta_of opts.instance_id opts.namespace labels;
  pod_selector = (label_instance, opts.instance_id) ∷ [];
  egress = egress_rules (access_of network);
}

insert_certs : List DomainCert → Dict String → Dict String
insert_certs [] entries = entries
insert_certs (dc ∷ rest) entries =
    let safe = safe_domain dc.domain in
    insert_certs rest (insert (safe <> ".key") dc.key (insert (safe <> ".crt") dc.cert entries))

unfoldable pub build_proxy_config_map :
    ProxyConfig → TranslateOpts → Dict String → String → ConfigMap
unfolding insert_certs
build_proxy_config_map proxy opts labels name =
    let yaml : Dict String = ("envoy.yaml", proxy.envoy_yaml) ∷ [] in
    let with_ca : Dict String = elim proxy.ca_cert [
      | none ↦ yaml
      | some ca ↦ insert "ca.crt" ca yaml
    ] in
    let entries : Dict String = elim proxy.tls [
      | none ↦ with_ca
      | some certs ↦ insert_certs certs with_ca
    ] in
    record { meta = meta_of name opts.namespace labels; entries = entries }
