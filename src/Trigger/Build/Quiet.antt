-- ===== src/Trigger/Build/Quiet.antt =====
-- Building an adapter, the guards and the driver of a trigger reads Secrets and does nothing else.
use boilerhouse.Common.{
  zero, suc, String, List, [], ◌∷◌, Option, none, some, ◌==◌, ◌||◌, ◌<>◌, if◌then◌else◌,
}
use boilerhouse.Sidecar.{quote}
use boilerhouse.Common.Dict.{lookup}
use boilerhouse.Common.Int.{ℤ, pos, negsuc}
use boilerhouse.Types.Json.{Object}
use boilerhouse.Types.Meta.{Key}
use boilerhouse.Types.Pod.{Secret}
use boilerhouse.Types.Workload.{SecretKeyRef}
use boilerhouse.Types.Trigger.{Trigger, TriggerGuard}
use boilerhouse.Cluster.{
  M, message, Result, ok, err, Trace, event, ◌>>=◌, pure, raise, call, or_wrap, wrapping,
  get_secret,
}
use boilerhouse.Cluster.Keeps.{
  Keeps, Keeps-call, Keeps-pure, Keeps-bind, Keeps-if, Keeps-or_fail, Keeps-or_wrap, Keeps-raise,
  Keeps-wrapping,
}
use boilerhouse.Cluster.Triple.{Triple, Triple-pure, Triple-if, Triple-bind, Triple-call}
use boilerhouse.Cluster.Attempt.{Triple-attempt_kept}
use boilerhouse.Trigger.Configs.{Decoders, ApiGuardConfig, OpenclawOptions, resolve_secret}
use boilerhouse.Trigger.Guards.{ApiGuard, api_guard}
use boilerhouse.Trigger.ApiGuard.{
  new_guard, given_config, is_web_url, guard_with_secret, guard_with_timeout, guard_with_config,
  parse_api_guard,
}
use boilerhouse.Trigger.Build.{
  with_token, build_cron, build_telegram, build_adapter, build_guards, openclaw_token,
  resolve_openclaw_token, build_driver,
}

module _ {P : Trace → Type 0}
    (quiet : (k : Key) (x : Result Secret) (t : Trace) → P t → P (event (get_secret k) x ∷ t))
    (d : Decoders) (ns : String) where
  get-Keeps : (k : Key) → Keeps P (call (get_secret k))
  get-Keeps k = Keeps-call (get_secret k) (λ t x h. quiet k x t h)

  found-Keeps :
      (name key : String) (o : Option String)
      → Keeps P (elim o as (λ _. M String) [
        | none ↦ raise (message ("key " <> quote key <> " not found in secret " <> quote name))
        | some value ↦ pure value
      ])
  found-Keeps name key none = Keeps-raise _
  found-Keeps name key (some value) = Keeps-pure value

  resolve-Keeps : (name key : String) → Keeps P (resolve_secret ns name key)
  unfolding resolve_secret
  resolve-Keeps name key = Keeps-bind _ _ (get-Keeps _) (λ x.
      Keeps-bind _ _ (Keeps-or_fail x) (λ secret. found-Keeps name key (lookup key secret.entries)))

  with_token-Keeps :
      (raw : Option Object) (ref : Option SecretKeyRef) → Keeps P (with_token ns raw ref)
  unfolding with_token
  with_token-Keeps none ref = Keeps-pure _
  with_token-Keeps (some raw) none = Keeps-pure _
  with_token-Keeps (some raw) (some ref) =
      Keeps-bind _ _ (Keeps-wrapping _ _ (resolve-Keeps ref.name ref.key)) (λ token. Keeps-pure _)

  pub adapter-Keeps : (trigger : Trigger) → Keeps P (build_adapter d ns trigger)
  unfolding build_adapter build_cron build_telegram
  adapter-Keeps trigger = Keeps-if (trigger.spec.type == "webhook") _ _ (Keeps-pure _) (
      Keeps-if (trigger.spec.type == "cron") _ _
        (Keeps-bind _ _ (Keeps-or_wrap _ _) (λ interval. Keeps-pure _))
        (Keeps-if (trigger.spec.type == "telegram") _ _
          (Keeps-bind _ _ (Keeps-or_fail _) (λ parsed. with_token-Keeps _ parsed.secret_ref))
          (Keeps-raise _)))

  -- `P` stays true, and the step does not fail.
  abbrev pub Stays : {A : Type 0} → M A → Type 0
  Stays m = Triple (λ _. ⊥) P (λ _. P) m

  got : (k : Key) → Stays (call (get_secret k))
  got k = Triple-call (get_secret k) (λ t x h. quiet k x t h)

  secret-Stays : (g : ApiGuard) (o : Option SecretKeyRef) → Stays (guard_with_secret ns g o)
  unfolding guard_with_secret
  secret-Stays g none = Triple-pure g (λ t h. h)
  secret-Stays g (some ref) =
      Triple-if (ref.name == "" || ref.key == "") (Triple-pure _ (λ t h. h))
        (Triple-bind (λ _. P) (got _) (λ x. Triple-pure _ (λ t h. h)))

  timeout-Stays :
      (g : ApiGuard) (cfg : ApiGuardConfig) (ms : ℤ) → Stays (guard_with_timeout ns g cfg ms)
  unfolding guard_with_timeout
  timeout-Stays g cfg (negsuc n) = Triple-pure _ (λ t h. h)
  timeout-Stays g cfg (pos zero) = secret-Stays _ cfg.secret_ref
  timeout-Stays g cfg (pos (suc n)) = secret-Stays _ cfg.secret_ref

  config-Stays : (g : ApiGuard) (x : Result ApiGuardConfig) → Stays (guard_with_config d ns g x)
  unfolding guard_with_config
  config-Stays g (err e) = Triple-pure _ (λ t h. h)
  config-Stays g (ok cfg) = Triple-if (cfg.url == "") (Triple-pure _ (λ t h. h)) (
      Triple-if (is_web_url (d.url_scheme cfg.url)) (timeout-Stays _ cfg cfg.timeout_ms)
        (Triple-pure _ (λ t h. h)))

  guard-Stays : (name : String) (spec : TriggerGuard) → Stays (parse_api_guard d ns name spec)
  unfolding parse_api_guard
  guard-Stays name spec = config-Stays (new_guard name) (given_config d spec)

  pub guards-Stays :
      (name : String) (specs : List TriggerGuard) → Stays (build_guards d ns name specs)
  unfolding build_guards
  guards-Stays name [] = Triple-pure [] (λ t h. h)
  guards-Stays name (spec ∷ specs) =
      let rest = guards-Stays name specs in
      Triple-if (spec.type == "allowlist")
        (Triple-bind (λ _. P) rest (λ gs. Triple-pure _ (λ t h. h)))
        (Triple-if (spec.type == "api")
          (Triple-bind (λ _. P) (guard-Stays name spec)
            (λ g. Triple-bind (λ _. P) rest (λ gs. Triple-pure (api_guard g ∷ gs) (λ t h. h))))
          rest)

  openclaw-Keeps :
      (opts : OpenclawOptions) (o : Option SecretKeyRef)
      → Keeps P (elim o as (λ _. M String) [
        | none ↦
            if opts.gateway_token == ""
            then raise (message "openclaw: gatewayToken or gatewayTokenSecretRef is required")
            else pure opts.gateway_token
        | some ref ↦
            if opts.gateway_token == ""
            then wrapping "openclaw gateway token secret" (resolve_secret ns ref.name ref.key)
            else raise
                (message "openclaw: gatewayToken and gatewayTokenSecretRef are mutually exclusive")
      ])
  openclaw-Keeps opts none = Keeps-if (opts.gateway_token == "") _ _ (Keeps-raise _) (Keeps-pure _)
  openclaw-Keeps opts (some ref) =
      Keeps-if (opts.gateway_token == "") _ _ (Keeps-wrapping _ _ (resolve-Keeps ref.name ref.key))
        (Keeps-raise _)

  options-Keeps :
      (o : Option String)
      → Keeps P (elim o as (λ _. M String) [
        | none ↦ openclaw_token ns (record { gateway_token = ""; gateway_token_secret_ref = none })
        | some raw ↦ (do
          opts ← or_wrap "openclaw driverOptions parse" (d.openclaw_options raw)
          openclaw_token ns opts)
      ])
  unfolding openclaw_token
  options-Keeps none =
      openclaw-Keeps (record { gateway_token = ""; gateway_token_secret_ref = none }) none
  options-Keeps (some raw) =
      Keeps-bind _ _ (Keeps-or_wrap _ _) (λ opts. openclaw-Keeps opts opts.gateway_token_secret_ref)

  pub driver-Stays : (trigger : Trigger) → Stays (build_driver d ns trigger)
  unfolding build_driver resolve_openclaw_token
  driver-Stays trigger =
      Triple-if (trigger.spec.driver == "" || trigger.spec.driver == "default")
        (Triple-pure _ (λ t h. h))
        (Triple-if (trigger.spec.driver == "claude-code") (Triple-pure _ (λ t h. h)) (
          Triple-if (trigger.spec.driver == "pi") (Triple-pure _ (λ t h. h)) (
            Triple-if (trigger.spec.driver == "openclaw")
              (Triple-bind (λ _. P)
                (Triple-attempt_kept (options-Keeps trigger.spec.driver_options))
                (λ x. Triple-pure _ (λ t h. h)))
              (Triple-pure _ (λ t h. h)))))
