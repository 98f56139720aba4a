-- ===== src/Trigger/Sync/Progress.antt =====
-- What a synchronisation of go/internal/trigger/gateway.go starts.
use mathlib.Core.Path.{subst}
use boilerhouse.Common.{
  String, Bool, true, false, List, [], ◌∷◌, Option, none, some, ◌==◌, ◌≡◌, refl, ap, ◌⊎◌, inl, inr,
  ==_self, if_same, if◌then◌else◌,
}
use boilerhouse.Common.Dict.{lookup, lookup-insert}
use boilerhouse.Types.Trigger.{Trigger}
use boilerhouse.Types.Adapter.{Adapter}
use boilerhouse.Cluster.{
  Env, Result, ok, err, Had, Trace, event, Request, Response, ◌>>=◌, pure, attempt, or_wrap,
  list_triggers, start_adapter, get_secret,
}
use boilerhouse.Cluster.Triple.{
  Triple, Ends, Triple-pure, Triple-call, Triple-bind, Triple-post, Triple-bad, Triple-both,
}
use boilerhouse.Cluster.Attempt.{Triple-attempt_kept}
use boilerhouse.Trigger.Guards.{listed}
use boilerhouse.Trigger.Configs.{Decoders}
use boilerhouse.Trigger.Build.{build_adapter}
use boilerhouse.Trigger.Build.Quiet.{adapter-Keeps, guards-Stays, driver-Stays}
use boilerhouse.Trigger.Sync.State.{is_running, is_present}
use boilerhouse.Trigger.Sync.Entries.{Kept}
use boilerhouse.Trigger.Sync.Active.{
  start_adapters-Kept, stop_inactive-Left, Told, told, Triple-fact,
}
use boilerhouse.Trigger.Sync.{
  Adapters, RunningAdapter, is_active, active_triggers, keys, start_built, if_built, unless_running,
  start_adapters, stop_inactive, sync_once,
}

abbrev pub Among : Trigger → List Trigger → Type 0
Among t [] = ⊥
Among t (first ∷ rest) = (first ≡ t) ⊎ Among t rest

-- The adapter of the trigger runs, if the trigger is an active web hook.
abbrev pub Runs : Trigger → Adapters → Type 0
Runs trigger adapters =
    is_active trigger.status.phase ≡ true
    → (trigger.spec.type == "webhook") ≡ true
    → is_running trigger.meta.name adapters ≡ true

abbrev is_ok : {A : Type 0} → Result A → Bool
is_ok (ok a) = true
is_ok (err e) = false

kept_running :
    (started after : Adapters) (name : String)
    → ((ra : RunningAdapter) → lookup name started ≡ some ra → lookup name after ≡ some ra)
    → is_running name started ≡ true
    → is_running name after ≡ true
kept_running started after name kept = go (lookup name started) refl
  where
    go :
        (o : Option RunningAdapter)
        → lookup name started ≡ o
        → is_present o ≡ true
        → is_running name after ≡ true
    go none is there = absurd cc
    go (some ra) is there = ap is_present (kept ra is)

all_run :
    (trigger : Trigger) (triggers : List Trigger) (started after : Adapters)
    → Runs trigger started
    → Kept started after
    → ((wanted : Trigger) → Among wanted triggers → Runs wanted after)
    → (wanted : Trigger) → Among wanted (trigger ∷ triggers)
    → Runs wanted after
all_run trigger triggers started after runs kept others wanted (inl same) =
    subst (λ w. Runs w after) same
      (λ active hook.
        kept_running started after trigger.meta.name (kept trigger.meta.name) (runs active hook))
all_run trigger triggers started after runs kept others wanted (inr later) = others wanted later

active_listed :
    (wanted : Trigger) (triggers : List Trigger)
    → Among wanted triggers
    → is_active wanted.status.phase ≡ true
    → listed wanted.meta.name (active_triggers triggers) ≡ true
unfolding active_triggers listed
active_listed wanted [] among active = absurd among
active_listed wanted (t ∷ ts) (inl same) active =
    subst
      (λ (w : Trigger).
        is_active w.status.phase ≡ true → listed w.meta.name (active_triggers (t ∷ ts)) ≡ true)
      same (λ on. rw (on, ==_self t.meta.name) refl) active
active_listed wanted (t ∷ ts) (inr later) active =
    go (is_active t.status.phase) (t.meta.name == wanted.meta.name)
      (active_listed wanted ts later active)
  where
    go :
        (on same : Bool)
        → listed wanted.meta.name (active_triggers ts) ≡ true
        → listed wanted.meta.name
            (if on then t.meta.name ∷ active_triggers ts else active_triggers ts)
          ≡ true
    go true same h = rw (h, if_same) refl
    go false same h = h

module _ (d : Decoders) (ns : String) {P : Trace → Type 0}
    (any : (r : Request) (x : Response r) (t : Trace) → P t → P (event r x ∷ t)) where
  built_ok :
      (trigger : Trigger)
      → Triple P P
          (λ built t. P t × ((trigger.spec.type == "webhook") ≡ true → is_ok built ≡ true))
          (attempt (build_adapter d ns trigger))
  unfolding build_adapter ◌>>=◌
  built_ok trigger = go (trigger.spec.type == "webhook") refl
    where
      go :
          (b : Bool)
          → (trigger.spec.type == "webhook") ≡ b
          → Triple P P
              (λ built t. P t × (b ≡ true → is_ok built ≡ true))
              (attempt (build_adapter d ns trigger))
      go true is = rw is (record { at = λ env t h. (h, λ e. refl) })
      go false is =
          Triple-post (λ built t h. (h, λ e. absurd cc))
            (Triple-attempt_kept (adapter-Keeps (λ k. any (get_secret k)) d ns trigger))

  start_built-Runs :
      (trigger : Trigger) (adapters : Adapters) (adapter : Adapter)
      → Triple P P
          (λ after t. P t × (is_running trigger.meta.name after ≡ true))
          (start_built d ns adapters trigger adapter)
  unfolding start_built
  start_built-Runs trigger adapters adapter =
      Triple-bind (λ _. P)
        (Triple-bad (λ t h. absurd h)
          (guards-Stays (λ k. any (get_secret k)) d ns trigger.meta.name trigger.spec.guards))
        (λ guards.
          Triple-bind (λ _. P)
            (Triple-bad (λ t h. absurd h) (driver-Stays (λ k. any (get_secret k)) d ns trigger))
            (λ driver.
              Triple-bind (λ _. P)
                (Triple-call (start_adapter trigger.meta.name adapter) (λ t x h. any _ x t h))
                (λ sent.
                  Triple-pure _ (λ t h. (h, rw (lookup-insert, ==_self trigger.meta.name) refl)))))

  if_built-Runs :
      (trigger : Trigger) (adapters : Adapters) (built : Result Adapter)
      → Triple P
          (λ t. P t × ((trigger.spec.type == "webhook") ≡ true → is_ok built ≡ true))
          (λ after t. P t × Runs trigger after)
          (if_built d ns adapters trigger built)
  unfolding if_built
  if_built-Runs trigger adapters (err e) =
      Triple-pure adapters
        (λ t h. (h.0, λ active hook. let never : false ≡ true = h.1 hook in absurd cc))
  if_built-Runs trigger adapters (ok adapter) = Triple-fact (λ built.
      Triple-post (λ after t h. (h.0, λ active hook. h.1))
        (start_built-Runs trigger adapters adapter))

  unless_running-Runs :
      (trigger : Trigger) (adapters : Adapters) (o : Option RunningAdapter)
      → lookup trigger.meta.name adapters ≡ o
      → Triple P P (λ after t. P t × Runs trigger after) (unless_running d ns adapters trigger o)
  unfolding unless_running
  unless_running-Runs trigger adapters (some ra) is =
      Triple-pure adapters (λ t h. (h, λ active hook. ap is_present is))
  unless_running-Runs trigger adapters none is =
      Triple-bind (λ built t. P t × ((trigger.spec.type == "webhook") ≡ true → is_ok built ≡ true))
        (built_ok trigger) (if_built-Runs trigger adapters)

  step-Runs :
      (trigger : Trigger) (adapters : Adapters) (b : Bool)
      → is_active trigger.status.phase ≡ b
      → Triple P P
          (λ after t. P t × Runs trigger after)
          (if b
            then unless_running d ns adapters trigger (lookup trigger.meta.name adapters)
            else pure adapters)
  step-Runs trigger adapters true is =
      unless_running-Runs trigger adapters (lookup trigger.meta.name adapters) refl
  step-Runs trigger adapters false is = Triple-pure adapters (λ t h. (h, λ active hook. absurd cc))

  start_adapters-Runs :
      (triggers : List Trigger) (adapters : Adapters)
      → Triple P P
          (λ after t. P t × ((trigger : Trigger) → Among trigger triggers → Runs trigger after))
          (start_adapters d ns triggers adapters)
  unfolding start_adapters
  start_adapters-Runs [] adapters = Triple-pure adapters (λ t h. (h, λ trigger among. absurd among))
  start_adapters-Runs (trigger ∷ triggers) adapters =
      Triple-bind (λ started t. P t × Runs trigger started)
        (step-Runs trigger adapters (is_active trigger.status.phase) refl)
        (λ started. Triple-fact (λ runs.
          Triple-post
            (λ after t h. (h.0.0, all_run trigger triggers started after runs h.0.1 h.1.1))
            (Triple-both (start_adapters-Kept d ns any triggers started)
              (start_adapters-Runs triggers started))))

abbrev pub Progress : String → Adapters → Trace → Type 0
Progress ns after t =
    (triggers : List Trigger) × Had (event (list_triggers ns []) (ok triggers)) t
    × ((wanted : Trigger) → Among wanted triggers → Runs wanted after)

module _ (d : Decoders) (ns : String) (adapters : Adapters) where
  synced-Progress :
      (triggers : List Trigger)
      → Triple
          (λ _. Unit)
          (Had (event (list_triggers ns []) (ok triggers)))
          (Progress ns)
          (do
            started ← start_adapters d ns triggers adapters
            stop_inactive (active_triggers triggers) (keys started) started)
  synced-Progress triggers =
      Triple-bad (λ t h. tt)
        (Triple-bind
          (λ started t.
            Had (event (list_triggers ns []) (ok triggers)) t
            × ((wanted : Trigger) → Among wanted triggers → Runs wanted started))
          (start_adapters-Runs d ns (λ r x t h. inr h) triggers adapters)
          (λ started. Triple-fact (λ runs.
            Triple-post
              (λ after t h. (
                triggers,
                h.0,
                λ wanted among active hook.
                    kept_running started after wanted.meta.name
                      (λ ra is.
                        h.1.1 wanted.meta.name ra is (active_listed wanted triggers among active))
                      (runs wanted among active hook),
              ))
              (stop_inactive-Left (λ r x t h. inr h) (active_triggers triggers) (keys started)
                started))))

  answered-Progress :
      (answer : Result (List Trigger))
      → Triple
          (λ _. Unit)
          (Told ns answer)
          (Progress ns)
          (do
            triggers ← or_wrap "list triggers" answer
            started ← start_adapters d ns triggers adapters
            stop_inactive (active_triggers triggers) (keys started) started)
  unfolding ◌>>=◌
  answered-Progress (ok triggers) = record { at = λ env t h. (synced-Progress triggers).at env t h }
  answered-Progress (err e) = record { at = λ env t h. tt }

-- A synchronisation that succeeds was told of some triggers, and all active web hooks among them are in the map of
-- running adapters after it, whether they were before or not.
pub sync_once-Progress :
    (d : Decoders) (ns : String) (adapters : Adapters) (env : Env) (t : Trace)
    → Ends (Progress ns) (λ _. Unit) (sync_once d ns adapters env t)
unfolding sync_once
sync_once-Progress d ns adapters env t =
    (Triple-bind (Told ns) (Triple-call (list_triggers ns []) (told ns))
        (λ answer. answered-Progress d ns adapters answer)).at
      env t tt
