-- ===== src/Envoy.antt =====
-- go/internal/envoy/config.go: the bootstrap YAML of the sidecar proxy. The template's `{{-` strips
-- the line break in front of an action, so every line but the first stands behind its line break.
use Prim.Native.Char.{code}
use boilerhouse.Common.{String, Bool, List, [], ◌∷◌, ◌++◌, ◌<>◌, ◌||◌, if◌then◌else◌, nat_eq}
use boilerhouse.Common.Dict.{Dict}
use boilerhouse.Common.Text.{lines, sort_entries}

pub record ResolvedCredential : Type 0 where
  pub domain : String
  pub headers : Dict String

-- `tls` says whether the TLS material is there; the template reads nothing else of it.
pub record EnvoyConfig : Type 0 where
  pub allowlist : List String
  pub credentials : List ResolvedCredential
  pub tls : Bool

-- `strings.NewReplacer(".", "_", "*", "_")`
unfoldable pub safe_domain : String → String
safe_domain String.[] = ""
safe_domain (String.◌∷◌ c s) =
    String.◌∷◌ (if nat_eq (code c) b'.' || nat_eq (code c) b'*' then "_" else c) (safe_domain s)

header_lines : Dict String → List String
header_lines [] = []
header_lines ((key, value) ∷ rest) =
    ("                            - header:"
      ∷ ("                                key: \"" <> key <> "\"")
      ∷ ("                                value: \"" <> value <> "\"")
      ∷ "                              append_action: OVERWRITE_IF_EXISTS_OR_ADD"
      ∷ [])
    ++ header_lines rest

virtual_host : ResolvedCredential → List String
unfolding header_lines
virtual_host c =
    let domain = c.domain in
    let safe = safe_domain domain in
    (("                    - name: " <> safe)
      ∷ "                      domains:"
      ∷ ("                        - \"" <> domain <> "\"")
      ∷ "                      routes:"
      ∷ "                        - match:"
      ∷ "                            prefix: \"/\""
      ∷ "                          route:"
      ∷ ("                            cluster: upstream_" <> safe)
      ∷ "                            # LLM streaming responses can take minutes."
      ∷ "                            timeout: 600s"
      ∷ "                          request_headers_to_add:"
      ∷ [])
    ++ header_lines (sort_entries c.headers)

deny_all : List String
deny_all =
    ("                    - name: deny_all" ∷ "                      domains:"
      ∷ "                        - \"*\"" ∷ "                      routes:"
      ∷ "                        - match:" ∷ "                            prefix: \"/\""
      ∷ "                          direct_response:" ∷ "                            status: 403"
      ∷ "                            body:"
      ∷ "                              inline_string: \"blocked by boilerhouse proxy\""
      ∷ "                http_filters:" ∷ "                  - name: envoy.filters.http.router"
      ∷ "                    typed_config:"
      ∷ "                      \"@type\": type.googleapis.com/envoy.extensions.filters.http.router.v3.Router"
      ∷ [])

filter_chain : ResolvedCredential → List String
unfolding header_lines
filter_chain c =
    let domain = c.domain in
    let safe = safe_domain domain in
    ("        - filter_chain_match:"
      ∷ "            server_names:"
      ∷ ("              - \"" <> domain <> "\"")
      ∷ "          transport_socket:"
      ∷ "            name: envoy.transport_sockets.tls"
      ∷ "            typed_config:"
      ∷ "              \"@type\": type.googleapis.com/envoy.extensions.transport_sockets.tls.v3.DownstreamTlsContext"
      ∷ "              common_tls_context:"
      ∷ "                tls_certificates:"
      ∷ "                  - certificate_chain:"
      ∷ ("                      filename: /etc/envoy/" <> safe <> ".crt")
      ∷ "                    private_key:"
      ∷ ("                      filename: /etc/envoy/" <> safe <> ".key")
      ∷ "          filters:"
      ∷ "            - name: envoy.filters.network.http_connection_manager"
      ∷ "              typed_config:"
      ∷ "                \"@type\": type.googleapis.com/envoy.extensions.filters.network.http_connection_manager.v3.HttpConnectionManager"
      ∷ ("                stat_prefix: egress_tls_" <> safe)
      ∷ "                route_config:"
      ∷ "                  virtual_hosts:"
      ∷ ("                    - name: " <> safe <> "_tls")
      ∷ "                      domains:"
      ∷ ("                        - \"" <> domain <> "\"")
      ∷ "                      routes:"
      ∷ "                        - match:"
      ∷ "                            prefix: \"/\""
      ∷ "                          route:"
      ∷ ("                            cluster: upstream_" <> safe)
      ∷ "                            # LLM streaming responses can take minutes."
      ∷ "                            timeout: 600s"
      ∷ "                          request_headers_to_add:"
      ∷ [])
    ++ header_lines (sort_entries c.headers)
    ++ ("                http_filters:" ∷ "                  - name: envoy.filters.http.router"
        ∷ "                    typed_config:"
        ∷ "                      \"@type\": type.googleapis.com/envoy.extensions.filters.http.router.v3.Router"
        ∷ [])

cluster : ResolvedCredential → List String
cluster c =
    let domain = c.domain in
    let safe = safe_domain domain in
    (("    - name: upstream_" <> safe)
      ∷ "      type: STRICT_DNS"
      ∷ "      dns_lookup_family: V4_ONLY"
      ∷ "      load_assignment:"
      ∷ ("        cluster_name: upstream_" <> safe)
      ∷ "        endpoints:"
      ∷ "          - lb_endpoints:"
      ∷ "              - endpoint:"
      ∷ "                  address:"
      ∷ "                    socket_address:"
      ∷ ("                      address: " <> domain)
      ∷ "                      port_value: 443"
      ∷ "      transport_socket:"
      ∷ "        name: envoy.transport_sockets.tls"
      ∷ "        typed_config:"
      ∷ "          \"@type\": type.googleapis.com/envoy.extensions.transport_sockets.tls.v3.UpstreamTlsContext"
      ∷ ("          sni: " <> domain)
      ∷ [])

-- `{{range .Credentials}}`
each_credential : (ResolvedCredential → List String) → List ResolvedCredential → List String
each_credential f [] = []
each_credential f (c ∷ cs) = f c ++ each_credential f cs

listener_head : List String
listener_head =
    "  address:" ∷ "    socket_address:" ∷ "      address: 127.0.0.1" ∷ "      port_value: 18081"
    ∷ "" ∷ "static_resources:" ∷ "  listeners:" ∷ "    - name: egress_http" ∷ "      address:"
    ∷ "        socket_address:" ∷ "          address: 127.0.0.1" ∷ "          port_value: 18080"
    ∷ "      filter_chains:" ∷ "        - filters:"
    ∷ "            - name: envoy.filters.network.http_connection_manager"
    ∷ "              typed_config:"
    ∷ "                \"@type\": type.googleapis.com/envoy.extensions.filters.network.http_connection_manager.v3.HttpConnectionManager"
    ∷ "                stat_prefix: egress_http" ∷ "                route_config:"
    ∷ "                  virtual_hosts:" ∷ []

tls_listener : List ResolvedCredential → List String
unfolding each_credential filter_chain
tls_listener cs =
    ("    - name: egress_tls" ∷ "      address:" ∷ "        socket_address:"
      ∷ "          address: 127.0.0.1" ∷ "          port_value: 18443" ∷ "      listener_filters:"
      ∷ "        - name: envoy.filters.listener.tls_inspector" ∷ "          typed_config:"
      ∷ "            \"@type\": type.googleapis.com/envoy.extensions.filters.listener.tls_inspector.v3.TlsInspector"
      ∷ "      filter_chains:" ∷ [])
    ++ each_credential filter_chain cs

unfoldable pub generate_envoy_yaml : EnvoyConfig → String
unfolding listener_head each_credential virtual_host deny_all tls_listener cluster
generate_envoy_yaml cfg =
    "admin:"
    <> lines (
        listener_head
        ++ each_credential virtual_host cfg.credentials
        ++ deny_all
        ++ (if cfg.tls then tls_listener cfg.credentials else [])
        ++ ("" ∷ "  clusters:" ∷ [])
        ++ each_credential cluster cfg.credentials)
    <> "\n"
