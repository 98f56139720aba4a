-- ===== src/Api/Origin.antt =====
-- Which Secret stands behind the caller of a scoped token, and which tenant the caller may act for.
use mathlib.Core.Path.{subst}
use boilerhouse.Common.{
  ℕ, String, Bool, true, false, List, Option, none, some, ◌==◌, ◌≡◌, refl, ◌⊎◌, inl, inr, ==_sound,
  Bool-cases, if◌then◌else◌, sym, ◌∙◌,
}
use boilerhouse.Common.Time.{TimeFormat}
use boilerhouse.Types.Pod.{Secret}
use boilerhouse.Scope
use boilerhouse.Api.Auth.{AuthContext, Context, check_own_tenant}
use boilerhouse.Api.TokenStore.{
  TokenEntry, Entries, value_at, token_of, secret_to_auth, cold_lookup, find_token, is_expired,
}
use boilerhouse.Api.History.{Change, index, newest, answer, find_token-newest}
use boilerhouse.Api.Issued.{Delivered, Answered, StandsFor, newest-Delivered, cold_lookup-Answered}

module _ (hash : String → String) (time : TimeFormat) (token : String) where
  -- A delivered or a listed Secret stands for the caller.
  abbrev pub Origin : ℕ → Option (List Secret) → List Change → AuthContext → Type 0
  Origin clock secrets cs a =
      (s : Secret) × (Delivered s cs ⊎ Answered s secrets) × StandsFor hash time token clock s a

  valid_answer :
      (clock : ℕ) (s : Secret) (entry : TokenEntry) (a : AuthContext) (old : Bool)
      → secret_to_auth time s ≡ entry
      → token_of s ≡ some token
      → is_expired hash time clock entry.expires_at ≡ old
      → (if old then none else some entry.auth) ≡ some a
      → StandsFor hash time token clock s a
  valid_answer clock s entry a true makes has past is = absurd cc
  valid_answer clock s entry a false makes has valid is = (has, rw makes valid, rw makes cc)

  answer-Origin :
      (clock : ℕ) (secrets : Option (List Secret)) (cs : List Change) (a : AuthContext)
      (entries : Entries) (o : Option TokenEntry)
      → newest hash time token cs ≡ o
      → answer hash time clock (cold_lookup hash time clock secrets token entries).0 o ≡ some a
      → Origin clock secrets cs a
  answer-Origin clock secrets cs a entries none new is =
      let (s, listed, stands) = cold_lookup-Answered hash time token clock entries secrets a is in
      (s, inr listed, stands)
  answer-Origin clock secrets cs a entries (some entry) new is =
      let (s, delivered, (has, makes)) = newest-Delivered hash time token cs entry new in
      (s, inl delivered, valid_answer clock s entry a _ makes has refl is)

-- The answer to a token that is not empty has an origin.
find_token-Origin :
    (hash : String → String) (time : TimeFormat)
    (injective : (s t : String) → hash s ≡ hash t → s ≡ t) (clock : ℕ)
    (secrets : Option (List Secret)) (token : String) (cs : List Change) (a : AuthContext)
    → (find_token hash time clock secrets token (index hash time cs)).0 ≡ some a
    → Origin hash time token clock secrets cs a
unfolding find_token
find_token-Origin hash time injective clock secrets token cs a is =
    elim (Bool-cases (token == "")) [
      | inl empty ↦
          let nobody : (find_token hash time clock secrets token (index hash time cs)).0 ≡ none =
            rw empty refl in
          absurd cc
      | inr nonempty ↦
          answer-Origin hash time token clock secrets cs a (index hash time cs)
            (newest hash time token cs) refl
            (sym (find_token-newest hash time injective clock secrets token cs nonempty) ∙ is)
    ]

own_tenant :
    (time : TimeFormat) (s : Secret) (a : AuthContext) (tenant : String)
    → (secret_to_auth time s).auth ≡ a
    → check_own_tenant (some a) tenant ≡ none
    → value_at Scope.label_tenant s.meta.labels ≡ tenant
unfolding check_own_tenant secret_to_auth
own_tenant time s a tenant makes own =
    let label = value_at Scope.label_tenant s.meta.labels in
    go (label == tenant) refl (subst (λ x. check_own_tenant (some x) tenant ≡ none) (sym makes) own)
  where
    go :
        (b : Bool)
        → (value_at Scope.label_tenant s.meta.labels == tenant) ≡ b
        → if◌then◌else◌ {A = Option String} b none (some "cannot access another tenant's resources")
          ≡ none
        → value_at Scope.label_tenant s.meta.labels ≡ tenant
    go true same passes = ==_sound (value_at Scope.label_tenant s.meta.labels) tenant same
    go false other passes = absurd cc

pub find_token-own_tenant :
    (hash : String → String) (time : TimeFormat)
    (injective : (s t : String) → hash s ≡ hash t → s ≡ t) (clock : ℕ)
    (secrets : Option (List Secret)) (token : String) (cs : List Change) (tenant : String)
    → check_own_tenant (find_token hash time clock secrets token (index hash time cs)).0 tenant
      ≡ none
    → (s : Secret) × (Delivered s cs ⊎ Answered s secrets)
      × (token_of s ≡ some token)
      × (is_expired hash time clock (secret_to_auth time s).expires_at ≡ false)
      × (value_at Scope.label_tenant s.meta.labels ≡ tenant)
unfolding check_own_tenant
find_token-own_tenant hash time injective clock secrets token cs tenant own =
    go (find_token hash time clock secrets token (index hash time cs)).0 refl own
  where
    go :
        (c : Context)
        → (find_token hash time clock secrets token (index hash time cs)).0 ≡ c
        → check_own_tenant c tenant ≡ none
        → (s : Secret) × (Delivered s cs ⊎ Answered s secrets)
          × (token_of s ≡ some token)
          × (is_expired hash time clock (secret_to_auth time s).expires_at ≡ false)
          × (value_at Scope.label_tenant s.meta.labels ≡ tenant)
    go none found passes = absurd cc
    go (some a) found passes =
        let (s, origin, (has, valid, makes)) =
          find_token-Origin hash time injective clock secrets token cs a found in
        (s, origin, has, valid, own_tenant time s a tenant makes passes)
