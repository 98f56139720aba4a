-- ===== src/Trigger/ApiGuard/FailClosed.antt =====
-- What a guard that go/internal/trigger/guard_api.go builds does when its configuration is not usable.
use boilerhouse.Common.{
  zero, suc, String, Bool, true, false, ◌∷◌, Option, none, some, ◌==◌, ◌<>◌, ◌||◌, ◌≡◌, refl, ◌⊎◌,
  inl, inr, if◌then◌else◌,
}
use boilerhouse.Common.Int.{ℤ, pos, negsuc, mul_int}
use boilerhouse.Common.Dict.{lookup}
use boilerhouse.Common.Split.{filled-append}
use boilerhouse.Common.Text.{show_ℤ}
use boilerhouse.Types.Workload.{SecretKeyRef}
use boilerhouse.Types.Trigger.{TriggerGuard}
use boilerhouse.Types.Pod.{Secret}
use boilerhouse.Sidecar.{quote}
use boilerhouse.Cluster.{
  Env, Error, error_text, message, returns, Trace, event, Had, Result, ok, err, pure, ◌>>=◌,
  get_secret,
}
use boilerhouse.Cluster.Triple.{Triple, Ends, Triple-pure, Triple-call, Triple-bind, Triple-if}
use boilerhouse.Trigger.Guards.{ApiGuard, check_api}
use boilerhouse.Trigger.Configs.{Decoders, ApiGuardConfig}
use boilerhouse.Trigger.ApiGuard.{
  new_guard, misconfigure, token_guard, guard_with_secret, guard_with_timeout, is_web_url,
  guard_with_config, given_config, parse_api_guard,
}

-- The default, or the milliseconds given.
abbrev pub Timeout : ℤ → ℤ → Type 0
Timeout (negsuc n) timeout = ⊥
Timeout (pos zero) timeout = timeout ≡ pos 2_000_000_000
Timeout (pos (suc n)) timeout = timeout ≡ mul_int (pos (suc n)) 1_000_000

-- No token is asked for, or it is the one that a Secret of the namespace was read to hold.
abbrev pub Token : String → Option SecretKeyRef → String → Trace → Type 0
Token ns none token t = token ≡ ""
Token ns (some ref) token t =
    (secret : Secret) × Had
      (event (get_secret (record { name = ref.name; namespace = ns })) (ok secret)) t
    × (lookup ref.key secret.entries ≡ some token)

-- The guard asks the service of this URL, with this time limit and this token.
abbrev pub Asks : Decoders → String → String → ℤ → Option SecretKeyRef → ApiGuard → Trace → Type 0
Asks d ns url ms ref g t =
    (g.url ≡ url)
    × (is_web_url (d.url_scheme url) ≡ true)
    × Timeout ms g.timeout
    × Token ns ref g.token t

-- The guard asks the service that its configuration names.
abbrev pub Usable : Decoders → String → Result ApiGuardConfig → ApiGuard → Trace → Type 0
Usable d ns (err e) g t = ⊥
Usable d ns (ok cfg) g t = Asks d ns cfg.url cfg.timeout_ms cfg.secret_ref g t

-- Every event is denied, and nobody is asked.
abbrev pub Denies : ApiGuard → Type 0
Denies g =
    (tenant : String) (env : Env) (t : Trace)
    → (e : Error) × (check_api g tenant env t ≡ returns (some e) t)

filled-Denies : (g : ApiGuard) → (g.misconfigured == "") ≡ false → Denies g
unfolding check_api ◌>>=◌
filled-Denies g h tenant env t = (message ("guard misconfigured: " <> g.misconfigured), rw h refl)

misconfigure-Denies :
    (g : ApiGuard) (a b : String) → (a == "") ≡ false → Denies (misconfigure g (a <> b))
unfolding misconfigure
misconfigure-Denies g a b h = filled-Denies (misconfigure g (a <> b)) (filled-append a b h)

module _ (d : Decoders) (ns url : String) (web : is_web_url (d.url_scheme url) ≡ true) where
  Settled : ℤ → Option SecretKeyRef → ApiGuard → Trace → Type 0
  Settled ms ref g t = Asks d ns url ms ref g t ⊎ Denies g

  Settled-token_guard :
      (ms : ℤ) (ref : SecretKeyRef) (g : ApiGuard)
      → g.url ≡ url
      → Timeout ms g.timeout
      → (x : Result Secret) (t : Trace)
      → Settled ms
          (some ref)
          (token_guard g ref x)
          (event (get_secret (record { name = ref.name; namespace = ns })) x ∷ t)
  unfolding token_guard Settled
  Settled-token_guard ms ref g u w (err e) t =
      inr (misconfigure-Denies g "guard secret unavailable: " (error_text e) refl)
  Settled-token_guard ms ref g u w (ok secret) t = go (lookup ref.key secret.entries) refl
    where
      go :
          (o : Option String)
          → lookup ref.key secret.entries ≡ o
          → Settled ms
              (some ref)
              (elim o as (λ _. ApiGuard) [
                | none ↦ misconfigure g (
                    "guard secret unavailable: key "
                    <> quote ref.key
                    <> " not found in secret "
                    <> quote ref.name)
                | some token ↦ record g { token = token }
              ])
              (event (get_secret (record { name = ref.name; namespace = ns })) (ok secret) ∷ t)
      go none h = inr (misconfigure-Denies g "guard secret unavailable: key " _ refl)
      go (some token) h = inl (u, web, w, (secret, inl refl, h))

  guard_with_secret-Settled :
      (ms : ℤ) (g : ApiGuard)
      → g.url ≡ url
      → Timeout ms g.timeout
      → g.token ≡ ""
      → (ref : Option SecretKeyRef)
      → Triple (λ _. ⊥) (λ _. Unit) (Settled ms ref) (guard_with_secret ns g ref)
  unfolding guard_with_secret Settled
  guard_with_secret-Settled ms g u w e none = Triple-pure g (λ t _. inl (u, web, w, e))
  guard_with_secret-Settled ms g u w e (some ref) =
      Triple-if (ref.name == "" || ref.key == "")
        (Triple-pure _
          (λ t _. inr (misconfigure-Denies g "secretRef requires" " both name and key" refl)))
        (Triple-bind (λ x t. Settled ms (some ref) (token_guard g ref x) t)
          (Triple-call (get_secret (record { name = ref.name; namespace = ns }))
            (λ t x _. Settled-token_guard ms ref g u w x t))
          (λ x. Triple-pure _ (λ t h. h)))

  guard_with_timeout-Settled :
      (g : ApiGuard) (cfg : ApiGuardConfig)
      → g.url ≡ url
      → g.timeout ≡ pos 2_000_000_000
      → g.token ≡ ""
      → (ms : ℤ)
      → Triple (λ _. ⊥) (λ _. Unit) (Settled ms cfg.secret_ref) (guard_with_timeout ns g cfg ms)
  unfolding guard_with_timeout Settled
  guard_with_timeout-Settled g cfg u w e (negsuc n) =
      Triple-pure _
        (λ t _. inr (misconfigure-Denies g "timeoutMs must be > 0, got " (show_ℤ (negsuc n)) refl))
  guard_with_timeout-Settled g cfg u w e (pos zero) =
      guard_with_secret-Settled (pos zero) g u w e cfg.secret_ref
  guard_with_timeout-Settled g cfg u w e (pos (suc n)) =
      guard_with_secret-Settled (pos (suc n))
        (record g { timeout = mul_int (pos (suc n)) 1_000_000 }) u refl e cfg.secret_ref

module _ (d : Decoders) (ns : String) where
  Closed : Result ApiGuardConfig → ApiGuard → Trace → Type 0
  Closed x g t = Usable d ns x g t ⊎ Denies g

  guard_with_config-Closed :
      (name : String) (x : Result ApiGuardConfig)
      → Triple (λ _. ⊥) (λ _. Unit) (Closed x) (guard_with_config d ns (new_guard name) x)
  unfolding guard_with_config Settled Closed
  guard_with_config-Closed name (err e) =
      Triple-pure _
        (λ t _. inr (misconfigure-Denies (new_guard name) "invalid config: " (error_text e) refl))
  guard_with_config-Closed name (ok cfg) =
      Triple-if (cfg.url == "")
        (Triple-pure _
          (λ t _. inr (misconfigure-Denies (new_guard name) "url is" " required" refl)))
        (go (is_web_url (d.url_scheme cfg.url)) refl)
    where
      go :
          (b : Bool)
          → is_web_url (d.url_scheme cfg.url) ≡ b
          → Triple
              (λ _. ⊥)
              (λ _. Unit)
              (Closed (ok cfg))
              (if b
                then guard_with_timeout ns
                    (record (new_guard name) { url = cfg.url })
                    cfg
                    cfg.timeout_ms
                else pure (misconfigure (new_guard name) ("invalid url " <> quote cfg.url)))
      go true h =
          guard_with_timeout-Settled d ns cfg.url h (record (new_guard name) { url = cfg.url }) cfg
            refl refl refl cfg.timeout_ms
      go false h =
          Triple-pure _
            (λ t _. inr (misconfigure-Denies (new_guard name) "invalid url " (quote cfg.url) refl))

pub parse_api_guard-FailsClosed :
    (d : Decoders) (ns name : String) (spec : TriggerGuard) (env : Env) (t : Trace)
    → Ends
        (λ g t'. Usable d ns (given_config d spec) g t' ⊎ Denies g)
        (λ _. ⊥)
        (parse_api_guard d ns name spec env t)
unfolding parse_api_guard Closed
parse_api_guard-FailsClosed d ns name spec env t =
    (guard_with_config-Closed d ns name (given_config d spec)).at env t tt
