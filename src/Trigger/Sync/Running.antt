-- ===== src/Trigger/Sync/Running.antt =====
-- The adapters that run, over the synchronisations of go/internal/trigger/gateway.go.
use boilerhouse.Common.{
  ℕ, zero, suc, String, Bool, true, false, List, [], ◌∷◌, Option, none, some, ◌==◌, ◌≡◌, refl, ◌∙◌,
  if◌then◌else◌,
}
use boilerhouse.Common.Dict.{lookup, insert, remove}
use boilerhouse.Types.Trigger.{Trigger}
use boilerhouse.Types.Adapter.{Adapter}
use boilerhouse.Cluster.{
  M, Env, Result, ok, err, Trace, event, ◌>>=◌, call, list_triggers, start_adapter, stop_adapter,
  tick,
}
use boilerhouse.Cluster.Keeps.{Keeps-or_wrap}
use boilerhouse.Cluster.Triple.{
  Triple, Ends, Triple-Keeps, Triple-pure, Triple-call, Triple-bind, Triple-if, Triple-pre,
  Triple-post, Triple-bad,
}
use boilerhouse.Cluster.Attempt.{Attempted, Triple-attempt, Triple-attempt_kept}
use boilerhouse.Trigger.Guards.{listed}
use boilerhouse.Trigger.Configs.{Decoders}
use boilerhouse.Trigger.Build.Quiet.{adapter-Keeps, guards-Stays, driver-Stays}
use boilerhouse.Trigger.Sync.{
  Adapters, RunningAdapter, is_active, active_triggers, keys, start_built, if_built, unless_running,
  start_adapters, stop_inactive, stop_each, stop_all, sync_once, after_sync, sync_or_log, sync_loop,
  sync,
}
use boilerhouse.Trigger.Sync.State.{
  is_live, Single, is_present, is_running, Exact, is_ended, Going, Exact-start, Exact-stop,
}

module _ (d : Decoders) (ns : String) where
  start_built-Going :
      (trigger : Trigger) (adapters : Adapters) (adapter : Adapter)
      → lookup trigger.meta.name adapters ≡ none
      → Triple (λ _. ⊥) (Going adapters) Going (start_built d ns adapters trigger adapter)
  unfolding start_built
  start_built-Going trigger adapters adapter absent =
      Triple-bind (λ _. Going adapters)
        (guards-Stays (λ k x t h. h) d ns trigger.meta.name trigger.spec.guards)
        (λ guards.
          Triple-bind (λ _. Going adapters) (driver-Stays (λ k x t h. h) d ns trigger)
            (λ driver.
              Triple-bind
                (λ _. Going (
                  insert trigger.meta.name
                    (record {
                      adapter = adapter;
                      trigger = trigger;
                      guards = guards;
                      driver = driver;
                    })
                    adapters))
                (Triple-call (start_adapter trigger.meta.name adapter)
                  (λ t x h. (Exact-start trigger.meta.name _ adapter adapters t x absent h.0, h.1)))
                (λ sent. Triple-pure _ (λ t h. h))))

  if_built-Going :
      (trigger : Trigger) (adapters : Adapters)
      → lookup trigger.meta.name adapters ≡ none
      → (built : Result Adapter)
      → Triple (λ _. ⊥) (Going adapters) Going (if_built d ns adapters trigger built)
  unfolding if_built
  if_built-Going trigger adapters absent (err e) = Triple-pure adapters (λ t h. h)
  if_built-Going trigger adapters absent (ok adapter) =
      start_built-Going trigger adapters adapter absent

  unless_running-Going :
      (trigger : Trigger) (adapters : Adapters) (o : Option RunningAdapter)
      → lookup trigger.meta.name adapters ≡ o
      → Triple (λ _. ⊥) (Going adapters) Going (unless_running d ns adapters trigger o)
  unfolding unless_running
  unless_running-Going trigger adapters (some ra) is = Triple-pure adapters (λ t h. h)
  unless_running-Going trigger adapters none is =
      Triple-bind (λ _. Going adapters)
        (Triple-attempt_kept (adapter-Keeps (λ k x t h. h) d ns trigger))
        (λ built. if_built-Going trigger adapters is built)

  start_adapters-Going :
      (triggers : List Trigger) (adapters : Adapters)
      → Triple (λ _. ⊥) (Going adapters) Going (start_adapters d ns triggers adapters)
  unfolding start_adapters
  start_adapters-Going [] adapters = Triple-pure adapters (λ t h. h)
  start_adapters-Going (trigger ∷ triggers) adapters =
      Triple-bind Going
        (Triple-if (is_active trigger.status.phase)
          (unless_running-Going trigger adapters (lookup trigger.meta.name adapters) refl)
          (Triple-pure adapters (λ t h. h)))
        (λ started. start_adapters-Going triggers started)

stop_inactive-Going :
    (names rest : List String) (adapters : Adapters)
    → Triple (λ _. ⊥) (Going adapters) Going (stop_inactive names rest adapters)
unfolding stop_inactive
stop_inactive-Going names [] adapters = Triple-pure adapters (λ t h. h)
stop_inactive-Going names (name ∷ rest) adapters =
    go (lookup name adapters) (stop_inactive-Going names rest)
  where
    go :
        (o : Option RunningAdapter)
        → ((m : Adapters) → Triple (λ _. ⊥) (Going m) Going (stop_inactive names rest m))
        → Triple
            (λ _. ⊥)
            (Going adapters)
            Going
            (elim o as (λ _. M Adapters) [
              | none ↦ stop_inactive names rest adapters
              | some ra ↦ if listed name names then stop_inactive names rest adapters else (do
                outcome ← call (stop_adapter name)
                stop_inactive names rest (remove name adapters))
            ])
    go none others = others adapters
    go (some ra) others = Triple-if (listed name names) (others adapters) (
        Triple-bind (λ _. Going (remove name adapters))
          (Triple-call (stop_adapter name) (λ t x h. (Exact-stop name adapters t x h.0, h.1)))
          (λ outcome. others (remove name adapters)))

-- What runs is named.
abbrev Named : List String → Trace → Type 0
Named names t = Single t × ((name : String) → is_live name t ≡ true → listed name names ≡ true)

unnamed :
    (b live rest : Bool)
    → (live ≡ true → (if b then true else rest) ≡ true)
    → (if b then false else live) ≡ true
    → rest ≡ true
unnamed true live rest f h = absurd cc
unnamed false live rest f h = f h

-- The end of the loop, where the context has ended if the map was cleared.
abbrev Done : Adapters → Trace → Type 0
Done adapters t = Exact adapters t × (is_ended t ≡ true → adapters ≡ [])

dead : (live : Bool) → (live ≡ true → false ≡ true) → false ≡ live
dead true f = let never : false ≡ true = f refl in absurd cc
dead false f = refl

stop_each-Done : (names : List String) → Triple (λ _. ⊥) (Named names) Done (stop_each names)
unfolding stop_each lookup listed
stop_each-Done [] =
    Triple-pure [] (λ t h. ((h.0, λ name. dead (is_live name t) (h.1 name)), λ _. refl))
stop_each-Done (name ∷ names) =
    Triple-bind (λ _. Named names)
      (Triple-call (stop_adapter name) (λ t x h.
        (h.0, λ other. unnamed (name == other) (is_live other t) (listed other names) (h.1 other))))
      (λ outcome. stop_each-Done names)

pub running-listed :
    (name : String) (adapters : Adapters)
    → is_running name adapters ≡ true
    → listed name (keys adapters) ≡ true
unfolding lookup listed keys
running-listed name [] h = absurd cc
running-listed name ((key, ra) ∷ rest) h = go (key == name) (running-listed name rest) h
  where
    go :
        (b : Bool)
        → (is_running name rest ≡ true → listed name (keys rest) ≡ true)
        → is_present (if b then some ra else lookup name rest) ≡ true
        → (if b then true else listed name (keys rest)) ≡ true
    go true f h = refl
    go false f h = f h

stop_all-Done : (adapters : Adapters) → Triple (λ _. ⊥) (Exact adapters) Done (stop_all adapters)
unfolding stop_all
stop_all-Done adapters =
    Triple-pre (λ t h. (h.0, λ name live. running-listed name adapters (h.1 name ∙ live)))
      (stop_each-Done (keys adapters))

abbrev Looked : Adapters → Bool → Trace → Type 0
Looked adapters true t = Going adapters t
Looked adapters false t = Exact adapters t

looked :
    (adapters : Adapters) (t : Trace) (x : Bool)
    → Going adapters t
    → Looked adapters x (event tick x ∷ t)
looked adapters t true h = h
looked adapters t false h = h.0

module _ (d : Decoders) (ns : String) where
  sync_once-Going :
      (adapters : Adapters)
      → Triple (Going adapters) (Going adapters) Going (sync_once d ns adapters)
  unfolding sync_once
  sync_once-Going adapters =
      Triple-bind (λ _. Going adapters) (Triple-call (list_triggers ns []) (λ t x h. h))
        (λ answer.
          Triple-bind (λ _. Going adapters) (Triple-Keeps (Keeps-or_wrap "list triggers" answer))
            (λ triggers.
              Triple-bad (λ t h. absurd h)
                (Triple-bind Going (start_adapters-Going d ns triggers adapters) (λ started.
                  stop_inactive-Going (active_triggers triggers) (keys started) started))))

  after_sync-Going :
      (adapters : Adapters) (outcome : Result Adapters) (t : Trace)
      → Attempted Going (Going adapters) outcome t
      → Going (after_sync d ns adapters outcome) t
  unfolding after_sync
  after_sync-Going adapters (ok synced) t h = h
  after_sync-Going adapters (err e) t h = h

  sync_or_log-Going :
      (adapters : Adapters) → Triple (λ _. ⊥) (Going adapters) Going (sync_or_log d ns adapters)
  unfolding sync_or_log
  sync_or_log-Going adapters =
      Triple-bind (Attempted Going (Going adapters)) (Triple-attempt (sync_once-Going adapters))
        (λ outcome. Triple-pure _ (after_sync-Going adapters outcome))

  sync_loop-Done :
      (rounds : ℕ) (adapters : Adapters)
      → Triple (λ _. ⊥) (Going adapters) Done (sync_loop d ns rounds adapters)
  unfolding sync_loop
  sync_loop-Done zero adapters = Triple-pure adapters (λ t h. (h.0, λ e. absurd cc))
  sync_loop-Done (suc rounds) adapters =
      Triple-bind (Looked adapters) (Triple-call tick (looked adapters))
        (λ ticked. by_tick ticked adapters (λ synced. sync_loop-Done rounds synced))
    where
      by_tick :
          (ticked : Bool) (adapters : Adapters)
          → ((synced : Adapters)
              → Triple (λ _. ⊥) (Going synced) Done (sync_loop d ns rounds synced))
          → Triple
              (λ _. ⊥)
              (Looked adapters ticked)
              Done
              (if ticked
                then (do synced ← sync_or_log d ns adapters; sync_loop d ns rounds synced)
                else stop_all adapters)
      by_tick true adapters rest = Triple-bind Going (sync_or_log-Going adapters) rest
      by_tick false adapters rest = stop_all-Done adapters

-- After any number of rounds, and whatever the API server answers: no adapter was ever started while another for
-- the same trigger had been started and not stopped; the map of running adapters names exactly those that were
-- started and not stopped since; and when the context has ended the map is empty, so that everything started was
-- stopped. The loop never fails.
pub sync-Exact :
    (d : Decoders) (ns : String) (rounds : ℕ) (env : Env)
    → Ends
        (λ adapters t.
          Single t
          × ((name : String) → is_running name adapters ≡ is_live name t)
          × (is_ended t ≡ true → adapters ≡ []))
        (λ _. ⊥)
        (sync d ns rounds env [])
unfolding sync
sync-Exact d ns rounds env =
    (Triple-post (λ adapters t h. (h.0.0, h.0.1, h.1))
        (Triple-bind Going (sync_or_log-Going d ns []) (sync_loop-Done d ns rounds))).at
      env [] ((tt, λ name. refl), refl)
