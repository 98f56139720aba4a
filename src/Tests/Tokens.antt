-- ===== src/Tests/Tokens.antt =====
-- The API tokens, from the Secret of one claim to the caller of a request.
use boilerhouse.Common.{◌+◌, String, [], ◌∷◌, none, some, ◌≡◌, refl, false, ◌⊎◌}
use boilerhouse.Common.Split.{Lacks, Solid, is_space, after_prefix}
use boilerhouse.Types.Pod.{Secret}
use boilerhouse.Claim.Token.{token_secret, token_ttl}
use boilerhouse.Scope
use boilerhouse.Api.Auth.{scoped, check_own_tenant}
use boilerhouse.Api.TokenStore.{
  secret_to_auth, token_of, find_token, cold_lookup, is_expired, value_at, on_add_or_update,
}
use boilerhouse.Api.History.{added, index, answer, newest, find_token-newest}
use boilerhouse.Api.Issued.{Delivered, Answered}
use boilerhouse.Api.Origin.{find_token-own_tenant}
use boilerhouse.Api.RoundTrip.{secret_to_auth-token_secret}
use boilerhouse.Api.Authenticate.{authenticate, Identified, authenticate-Identified, admin_context}
use boilerhouse.Tests.Fixtures.{claim, reconciler, any_time}

abbrev same_text : String → String
same_text s = s

abbrev secret : Secret
secret = token_secret reconciler claim ("health:read" ∷ []) "tok" 3

find_token-newest_example :
    (find_token same_text any_time 0 none "tok" (index same_text any_time (added secret ∷ []))).0
    ≡ answer same_text any_time 0
        (cold_lookup same_text any_time 0 none "tok"
          (index same_text any_time (added secret ∷ []))).0
        (newest same_text any_time "tok" (added secret ∷ []))
find_token-newest_example =
    find_token-newest same_text any_time (λ s t h. h) 0 none "tok" (added secret ∷ []) refl

authenticate-Identified_example :
    Identified same_text any_time 0 none "key" "Bearer key" [] (some admin_context)
unfolding authenticate after_prefix
authenticate-Identified_example =
    authenticate-Identified same_text any_time 0 none "key" "Bearer key" [] (some admin_context)
      refl refl

plain_text : Lacks 44 "health:read" × Solid "health:read"
unfolding is_space
plain_text = (
  (refl, (refl, (refl, (refl, (refl, (refl, (refl, (refl, (refl, (refl, (refl, tt))))))))))),
  (refl, (refl, (refl, (refl, (refl, (refl, (refl, (refl, (refl, (refl, (refl, tt))))))))))),
)

secret_to_auth-token_secret_example :
    (token_of secret ≡ some "tok")
    × (secret_to_auth any_time secret ≡ record {
      auth = record {
        kind = scoped;
        tenant_id = "ann";
        workload = "shell";
        claim_id = "claim-ann-shell";
        scopes = "health:read" ∷ [];
      };
      expires_at = some (3 + token_ttl);
    })
secret_to_auth-token_secret_example =
    secret_to_auth-token_secret reconciler claim "health:read" [] "tok" 3
      ((refl, plain_text.0, plain_text.1), tt) refl refl

find_token-own_tenant_example :
    (s : Secret) × (Delivered s (added secret ∷ []) ⊎ Answered s none)
    × (token_of s ≡ some "tok")
    × (is_expired same_text any_time 0 (secret_to_auth any_time s).expires_at ≡ false)
    × (value_at Scope.label_tenant s.meta.labels ≡ "ann")
unfolding check_own_tenant find_token index on_add_or_update token_secret
find_token-own_tenant_example =
    find_token-own_tenant same_text any_time (λ s t h. h) 0 none "tok" (added secret ∷ []) "ann"
      refl
