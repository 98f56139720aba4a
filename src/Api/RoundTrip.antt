-- ===== src/Api/RoundTrip.antt =====
-- What the operator writes into a token Secret (go/internal/operator/claim_token.go) is what the API server
-- reads back (go/internal/api/token_store.go).
use boilerhouse.Common.{
  ℕ, ◌+◌, String, true, false, List, [], ◌∷◌, some, ◌==◌, ◌≡◌, ◌≢◌, refl, ==_self, ==_ne, All,
}
use boilerhouse.Common.Text.{join}
use boilerhouse.Common.Split.{split, split-join, trim_space-Solid, Lacks, Solid}
use boilerhouse.Types.Claim.{Claim}
use boilerhouse.Claim.Reconciler.{Reconciler}
use boilerhouse.Claim.Token.{token_secret, token_ttl}
use boilerhouse.Api.Auth.{scoped}
use boilerhouse.Api.TokenStore.{secret_to_auth, parse_scope_csv, token_of, value_at, trimmed_parts}
use boilerhouse.Common.Dict.{lookup}

-- A scope that is written as itself: not empty, no comma, no white space.
abbrev pub Plain : String → Type 0
Plain s = ((s == "") ≡ false) × Lacks 44 s × Solid s

All-Lacks : (ss : List String) → All Plain ss → All (Lacks 44) ss
All-Lacks [] h = tt
All-Lacks (s ∷ ss) h = (h.0.1, All-Lacks ss h.1)

trimmed_parts-Plain : (ss : List String) → All Plain ss → trimmed_parts ss ≡ ss
unfolding trimmed_parts
trimmed_parts-Plain [] h = refl
trimmed_parts-Plain (s ∷ ss) h = rw (trim_space-Solid s h.0.2, h.0.0, trimmed_parts-Plain ss h.1)

split_empty : split 44 "" ≡ "" ∷ []
unfolding split
split_empty = refl

join-nonempty : (s : String) (ss : List String) → All Plain (s ∷ ss) → join "," (s ∷ ss) ≢ ""
join-nonempty s ss h e =
    let back : split 44 (join "," (s ∷ ss)) ≡ s ∷ ss = split-join s ss (All-Lacks (s ∷ ss) h) in
    let blank : split 44 (join "," (s ∷ ss)) ≡ "" ∷ [] = rw e split_empty in
    let same : s ≡ "" = cc in
    let here : (s == "") ≡ false = h.0.0 in
    let self : (s == "") ≡ true = rw same (==_self "") in absurd cc

parse_scope_csv-join :
    (s : String) (ss : List String)
    → All Plain (s ∷ ss)
    → parse_scope_csv (join "," (s ∷ ss)) ≡ s ∷ ss
unfolding parse_scope_csv
parse_scope_csv-join s ss h =
    rw (==_ne (join "," (s ∷ ss)) "" (join-nonempty s ss h), split-join s ss (All-Lacks (s ∷ ss) h))
      (trimmed_parts-Plain (s ∷ ss) h)

pub secret_to_auth-token_secret :
    (r : Reconciler) (claim : Claim) (s : String) (ss : List String) (token : String) (clock : ℕ)
    → All Plain (s ∷ ss)
    → (r.time.format (clock + token_ttl) == "") ≡ false
    → r.time.parse (r.time.format (clock + token_ttl)) ≡ some (clock + token_ttl)
    → (token_of (token_secret r claim (s ∷ ss) token clock) ≡ some token)
      × (secret_to_auth r.time (token_secret r claim (s ∷ ss) token clock) ≡ record {
        auth = record {
          kind = scoped;
          tenant_id = claim.spec.tenant_id;
          workload = claim.spec.workload_ref;
          claim_id = claim.meta.name;
          scopes = s ∷ ss;
        };
        expires_at = some (clock + token_ttl);
      })
unfolding secret_to_auth token_secret token_of value_at lookup
secret_to_auth-token_secret r claim s ss token clock plain written reads =
    (refl, rw (written, reads, parse_scope_csv-join s ss plain))
