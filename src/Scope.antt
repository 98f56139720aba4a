-- ===== src/Scope.antt =====
-- go/internal/scope/scope.go and go/internal/claimtoken/claimtoken.go: the vocabulary that the
-- operator and the API server share.
use boilerhouse.Common.{String, List, [], ◌∷◌, ◌==◌, if◌then◌else◌}

abbrev pub agent_triggers_read : String
agent_triggers_read = "agent-triggers:read"

abbrev pub agent_triggers_write : String
agent_triggers_write = "agent-triggers:write"

abbrev pub secrets_read : String
secrets_read = "secrets:read"

abbrev pub workloads_read : String
workloads_read = "workloads:read"

abbrev pub health_read : String
health_read = "health:read"

abbrev pub disabled : String
disabled = "none"

abbrev pub default_agent_scopes : List String
default_agent_scopes =
    agent_triggers_read ∷ agent_triggers_write ∷ secrets_read ∷ workloads_read ∷ health_read ∷ []

-- `Parse` drops empty entries and keeps unknown names.
unfoldable pub parse : List String → List String
parse [] = []
parse (s ∷ rest) = let kept = parse rest in if s == "" then kept else s ∷ kept

abbrev pub label_api_token : String
label_api_token = "boilerhouse.dev/api-token"

abbrev pub label_tenant : String
label_tenant = "boilerhouse.dev/tenant"

abbrev pub label_workload : String
label_workload = "boilerhouse.dev/workload"

abbrev pub label_claim : String
label_claim = "boilerhouse.dev/claim"

abbrev pub annotation_scopes : String
annotation_scopes = "boilerhouse.dev/token-scopes"

abbrev pub annotation_expires_at : String
annotation_expires_at = "boilerhouse.dev/token-expires-at"

abbrev pub data_key : String
data_key = "token"
