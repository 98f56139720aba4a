-- ===== src/Claim/Token.antt =====
-- go/internal/operator/claim_token.go: the Secret that holds the API token of a claim.
use boilerhouse.Common.{
  ℕ, ◌+◌, ◌*◌, String, Bool, true, false, List, [], ◌∷◌, Option, none, some, ◌==◌, ◌<>◌,
  if◌then◌else◌,
}
use boilerhouse.Common.Text.{join}
use boilerhouse.Types.Meta.{second}
use boilerhouse.Types.Workload.{Workload}
use boilerhouse.Types.Claim.{Claim}
use boilerhouse.Types.Pod.{Secret}
use boilerhouse.Scope
use boilerhouse.Cluster.{
  M, Error, Result, ok, err, wrap, is_not_found, is_already_exists, ◌>>=◌, pure, raise, call,
  or_wrap, unless_missing, succeed_or_wrap, get_secret, create_secret, delete_secret, now,
  random_token,
}
use boilerhouse.Claim.Reconciler.{Reconciler}

abbrev pub token_ttl : ℕ
token_ttl = 86_400 * second

unfoldable pub claim_token_secret_name : String → String
claim_token_secret_name claim_name = "claim-key-" <> claim_name

abbrev default_unless : List String → List String
default_unless [] = Scope.default_agent_scopes
default_unless (s ∷ rest) = s ∷ rest

unfoldable pub resolve_scopes : Workload → List String
resolve_scopes wl = elim wl.spec.api_access [
  | none ↦ Scope.default_agent_scopes
  | some access ↦ default_unless access.scopes
]

unfoldable pub is_disabled : List String → Bool
is_disabled [] = false
is_disabled (s ∷ []) = s == Scope.disabled
is_disabled (s ∷ t ∷ rest) = false

unfoldable pub token_secret : Reconciler → Claim → List String → String → ℕ → Secret
unfolding claim_token_secret_name join
token_secret r claim scopes token clock = record {
  meta = record {
    name = claim_token_secret_name claim.meta.name;
    namespace = claim.meta.namespace;
    labels =
        (Scope.label_api_token, "true")
        ∷ (Scope.label_tenant, claim.spec.tenant_id)
        ∷ (Scope.label_workload, claim.spec.workload_ref)
        ∷ (Scope.label_claim, claim.meta.name)
        ∷ [];
    annotations =
        (Scope.annotation_scopes, join "," scopes)
        ∷ (Scope.annotation_expires_at, r.time.format (clock + token_ttl))
        ∷ [];
    finalizers = [];
    owners = claim.meta.name ∷ [];
    deletion_timestamp = none;
    creation_timestamp = none;
    generation = 0;
  };
  entries = (Scope.data_key, token) ∷ [];
}

unfoldable pub created : String → Option Error → M (String × Bool)
created name none = pure (name, false)
created name (some e) =
    if is_already_exists e then pure (name, false) else raise (wrap "creating token secret" e)

unfoldable pub create_token : Reconciler → Claim → List String → M (String × Bool)
unfolding token_secret created
create_token r claim scopes = do
  drawn ← call random_token
  token ← or_wrap "generating token" drawn
  clock ← call now
  outcome ← call (create_secret (token_secret r claim scopes token clock))
  created (claim_token_secret_name claim.meta.name) outcome

unfoldable pub reuse_or_create :
    Reconciler → Claim → List String → Result Secret → M (String × Bool)
unfolding claim_token_secret_name create_token
reuse_or_create r claim scopes (ok secret) = pure (claim_token_secret_name claim.meta.name, false)
reuse_or_create r claim scopes (err e) =
    if is_not_found e
    then create_token r claim scopes
    else raise (wrap "getting existing token secret" e)

-- The name of the Secret, and whether API access is disabled.
unfoldable pub ensure_claim_token : Reconciler → Claim → Workload → M (String × Bool)
unfolding claim_token_secret_name is_disabled reuse_or_create
ensure_claim_token r claim wl =
    let scopes = resolve_scopes wl in
    let name = claim_token_secret_name claim.meta.name in
    if is_disabled scopes then pure ("", true) else do
      existing ← call (get_secret (record { name = name; namespace = claim.meta.namespace }))
      reuse_or_create r claim scopes existing

unfoldable pub delete_claim_token : Claim → M (Unit {0})
unfolding claim_token_secret_name
delete_claim_token claim = do
  outcome ← call (
      delete_secret (record {
        name = claim_token_secret_name claim.meta.name;
        namespace = claim.meta.namespace;
      }))
  succeed_or_wrap "deleting token secret" (unless_missing outcome)
