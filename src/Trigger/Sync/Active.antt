-- ===== src/Trigger/Sync/Active.antt =====
-- Which adapters run after a synchronisation of go/internal/trigger/gateway.go.
use boilerhouse.Common.{
  String, Bool, true, false, List, [], ◌∷◌, Option, none, some, ◌≡◌, refl, inl, inr, if◌then◌else◌,
}
use boilerhouse.Common.Dict.{lookup, remove}
use boilerhouse.Types.Trigger.{Trigger}
use boilerhouse.Types.Adapter.{Adapter}
use boilerhouse.Cluster.{
  M, Env, Result, ok, err, Had, Trace, event, ◌>>=◌, call, or_wrap, Request, Response,
  list_triggers, get_secret, start_adapter, stop_adapter,
}
use boilerhouse.Cluster.Triple.{
  Triple, Ends, Triple-pure, Triple-call, Triple-bind, Triple-if, Triple-post, Triple-bad,
}
use boilerhouse.Cluster.Attempt.{Triple-attempt_kept}
use boilerhouse.Trigger.Guards.{listed}
use boilerhouse.Trigger.Configs.{Decoders}
use boilerhouse.Trigger.Build.Quiet.{adapter-Keeps, guards-Stays, driver-Stays}
use boilerhouse.Trigger.Sync.State.{is_running}
use boilerhouse.Trigger.Sync.Running.{running-listed}
use boilerhouse.Trigger.Sync.{
  Adapters, RunningAdapter, is_active, active_triggers, keys, start_built, if_built, unless_running,
  start_adapters, stop_inactive, sync_once,
}
use boilerhouse.Trigger.Sync.Entries.{
  Kept, Left, Kept-insert, Left-absent, Left-active, Left-removed,
}

module _ {A F : Type 0} {bad P : Trace → Type 0} where
  -- A fact that does not speak of the history.
  pub Triple-fact :
      {post : A → Trace → Type 0} {m : M A}
      → (F → Triple bad P post m)
      → Triple bad (λ t. P t × F) post m
  Triple-fact g = record { at = λ env t h. (g h.1).at env t h.0 }

module _ (d : Decoders) (ns : String) {P : Trace → Type 0}
    (any : (r : Request) (x : Response r) (t : Trace) → P t → P (event r x ∷ t)) where
  start_built-Kept :
      (trigger : Trigger) (adapters : Adapters) (adapter : Adapter)
      → lookup trigger.meta.name adapters ≡ none
      → Triple P P
          (λ after t. P t × Kept adapters after)
          (start_built d ns adapters trigger adapter)
  unfolding start_built
  start_built-Kept trigger adapters adapter absent =
      Triple-bind (λ _. P)
        (Triple-bad (λ t h. absurd h)
          (guards-Stays (λ k. any (get_secret k)) d ns trigger.meta.name trigger.spec.guards))
        (λ guards.
          Triple-bind (λ _. P)
            (Triple-bad (λ t h. absurd h) (driver-Stays (λ k. any (get_secret k)) d ns trigger))
            (λ driver.
              Triple-bind (λ _. P)
                (Triple-call (start_adapter trigger.meta.name adapter) (λ t x h. any _ x t h))
                (λ sent.
                  Triple-pure _ (λ t h. (h, Kept-insert trigger.meta.name _ adapters absent)))))

  if_built-Kept :
      (trigger : Trigger) (adapters : Adapters)
      → lookup trigger.meta.name adapters ≡ none
      → (built : Result Adapter)
      → Triple P P (λ after t. P t × Kept adapters after) (if_built d ns adapters trigger built)
  unfolding if_built
  if_built-Kept trigger adapters absent (err e) =
      Triple-pure adapters (λ t h. (h, λ name ra is. is))
  if_built-Kept trigger adapters absent (ok adapter) =
      start_built-Kept trigger adapters adapter absent

  unless_running-Kept :
      (trigger : Trigger) (adapters : Adapters) (o : Option RunningAdapter)
      → lookup trigger.meta.name adapters ≡ o
      → Triple P P (λ after t. P t × Kept adapters after) (unless_running d ns adapters trigger o)
  unfolding unless_running
  unless_running-Kept trigger adapters (some ra) is =
      Triple-pure adapters (λ t h. (h, λ name ra' is'. is'))
  unless_running-Kept trigger adapters none is =
      Triple-bind (λ _. P)
        (Triple-attempt_kept (adapter-Keeps (λ k. any (get_secret k)) d ns trigger))
        (λ built. if_built-Kept trigger adapters is built)

  pub start_adapters-Kept :
      (triggers : List Trigger) (adapters : Adapters)
      → Triple P P (λ after t. P t × Kept adapters after) (start_adapters d ns triggers adapters)
  unfolding start_adapters
  start_adapters-Kept [] adapters = Triple-pure adapters (λ t h. (h, λ name ra is. is))
  start_adapters-Kept (trigger ∷ triggers) adapters =
      Triple-bind (λ started t. P t × Kept adapters started)
        (Triple-if (is_active trigger.status.phase)
          (unless_running-Kept trigger adapters (lookup trigger.meta.name adapters) refl)
          (Triple-pure adapters (λ t h. (h, λ name ra is. is))))
        (λ started. Triple-fact (λ kept.
          Triple-post (λ after t h. (h.0, λ name ra is. h.1 name ra (kept name ra is)))
            (start_adapters-Kept triggers started)))

module _ {P : Trace → Type 0}
    (any : (r : Request) (x : Response r) (t : Trace) → P t → P (event r x ∷ t))
    (names : List String) where
  pub stop_inactive-Left :
      (rest : List String) (adapters : Adapters)
      → Triple P P
          (λ after t. P t × Left names rest adapters after)
          (stop_inactive names rest adapters)
  unfolding stop_inactive listed
  stop_inactive-Left [] adapters =
      Triple-pure adapters
        (λ t h. (h, (λ name runs. (runs, λ among. absurd cc), λ name ra is active. is)))
  stop_inactive-Left (name ∷ rest) adapters =
      go (lookup name adapters) refl (stop_inactive-Left rest)
    where
      go :
          (o : Option RunningAdapter)
          → lookup name adapters ≡ o
          → ((m : Adapters)
              → Triple P P (λ after t. P t × Left names rest m after) (stop_inactive names rest m))
          → Triple P P
              (λ after t. P t × Left names (name ∷ rest) adapters after)
              (elim o as (λ _. M Adapters) [
                | none ↦ stop_inactive names rest adapters
                | some ra ↦ if listed name names then stop_inactive names rest adapters else (do
                  outcome ← call (stop_adapter name)
                  stop_inactive names rest (remove name adapters))
              ])
      go none is others =
          Triple-post (λ after t h. (h.0, Left-absent names name rest adapters after is h.1))
            (others adapters)
      go (some ra) is others = by_listed (listed name names) refl
        where
          by_listed :
              (b : Bool)
              → listed name names ≡ b
              → Triple P P
                  (λ after t. P t × Left names (name ∷ rest) adapters after)
                  (if b then stop_inactive names rest adapters else (do
                    outcome ← call (stop_adapter name)
                    stop_inactive names rest (remove name adapters)))
          by_listed true b =
              Triple-post (λ after t h. (h.0, Left-active names name rest adapters after b h.1))
                (others adapters)
          by_listed false b =
              Triple-bind (λ _. P) (Triple-call (stop_adapter name) (λ t x h. any _ x t h))
                (λ outcome.
                  Triple-post
                    (λ after t h. (h.0, Left-removed names name rest adapters after b h.1))
                    (others (remove name adapters)))

-- What a synchronisation leaves running, by the triggers that it was told of.
abbrev pub Follows : String → Adapters → Adapters → Trace → Type 0
Follows ns before after t =
    (triggers : List Trigger) × Had (event (list_triggers ns []) (ok triggers)) t
    × ((name : String)
        → is_running name after ≡ true
        → listed name (active_triggers triggers) ≡ true)
    × ((name : String) (ra : RunningAdapter)
        → lookup name before ≡ some ra
        → listed name (active_triggers triggers) ≡ true
        → lookup name after ≡ some ra)

abbrev pub Told : String → Result (List Trigger) → Trace → Type 0
Told ns (ok triggers) t = Had (event (list_triggers ns []) (ok triggers)) t
Told ns (err e) t = Unit

pub told :
    (ns : String) (t : Trace) (answer : Result (List Trigger))
    → Unit {0}
    → Told ns answer (event (list_triggers ns []) answer ∷ t)
told ns t (ok triggers) h = inl refl
told ns t (err e) h = tt

module _ (d : Decoders) (ns : String) where
  synced-Follows :
      (adapters : Adapters) (triggers : List Trigger)
      → Triple
          (λ _. Unit)
          (Had (event (list_triggers ns []) (ok triggers)))
          (Follows ns adapters)
          (do
            started ← start_adapters d ns triggers adapters
            stop_inactive (active_triggers triggers) (keys started) started)
  synced-Follows adapters triggers =
      Triple-bad (λ t h. tt)
        (Triple-bind
          (λ started t. Had (event (list_triggers ns []) (ok triggers)) t × Kept adapters started)
          (start_adapters-Kept d ns (λ r x t h. inr h) triggers adapters)
          (λ started. Triple-fact (λ kept.
            Triple-post
              (λ after t h. (
                triggers,
                h.0,
                (λ name runs.
                    (h.1.0 name runs).1 (running-listed name started (h.1.0 name runs).0)),
                λ name ra is. h.1.1 name ra (kept name ra is),
              ))
              (stop_inactive-Left (λ r x t h. inr h) (active_triggers triggers) (keys started)
                started))))

  answered-Follows :
      (adapters : Adapters) (answer : Result (List Trigger))
      → Triple
          (λ _. Unit)
          (Told ns answer)
          (Follows ns adapters)
          (do
            triggers ← or_wrap "list triggers" answer
            started ← start_adapters d ns triggers adapters
            stop_inactive (active_triggers triggers) (keys started) started)
  unfolding ◌>>=◌
  answered-Follows adapters (ok triggers) = record {
    at = λ env t h. (synced-Follows adapters triggers).at env t h;
  }
  answered-Follows adapters (err e) = record { at = λ env t h. tt }

-- A synchronisation that succeeds was told of some triggers, and leaves in the map of running adapters only those of
-- active ones; the entry of an active trigger that was there before is left as it was, with the configuration that
-- its adapter was started with.
pub sync_once-Follows :
    (d : Decoders) (ns : String) (adapters : Adapters) (env : Env) (t : Trace)
    → Ends (Follows ns adapters) (λ _. Unit) (sync_once d ns adapters env t)
unfolding sync_once
sync_once-Follows d ns adapters env t =
    (Triple-bind (Told ns) (Triple-call (list_triggers ns []) (told ns))
        (λ answer. answered-Follows d ns adapters answer)).at
      env t tt
