-- ===== src/Trigger/Sync.antt =====
-- go/internal/trigger/gateway.go: the adapters that run, over the synchronisations of the gateway. The map of
-- running adapters is the state; it is guarded by the gateway's mutex.
pub mod State
pub mod Entries
pub mod Running
pub mod Active
pub mod Progress
use boilerhouse.Common.{
  ℕ, zero, suc, String, Bool, true, false, List, [], ◌∷◌, Option, none, some, if◌then◌else◌,
}
use boilerhouse.Common.Dict.{Dict, lookup, insert, remove}
use boilerhouse.Types.Trigger.{Trigger, TriggerPhase, active}
use boilerhouse.Types.Adapter.{Adapter}
use boilerhouse.Cluster.{
  M, Result, ok, err, ◌>>=◌, pure, call, or_wrap, attempt, list_triggers, start_adapter,
  stop_adapter, tick,
}
use boilerhouse.Trigger.Guards.{Guard, listed}
use boilerhouse.Trigger.Configs.{Decoders, Driver}
use boilerhouse.Trigger.Build.{build_adapter, build_guards, build_driver}

-- With what the handler of its events was built from.
pub record RunningAdapter : Type 0 where
  pub adapter : Adapter
  pub trigger : Trigger
  pub guards : List Guard
  pub driver : Driver

abbrev pub Adapters : Type 0
Adapters = Dict RunningAdapter

unfoldable pub is_active : TriggerPhase → Bool
is_active active = true
is_active _ = false

unfoldable pub active_triggers : List Trigger → List String
unfolding is_active
active_triggers [] = []
active_triggers (t ∷ ts) =
    let rest = active_triggers ts in if is_active t.status.phase then t.meta.name ∷ rest else rest

unfoldable pub keys : Adapters → List String
keys [] = []
keys ((name, ra) ∷ rest) = name ∷ keys rest

module _ (d : Decoders) (ns : String) where
  -- `buildHandler`, and the start of the adapter beside the loop.
  unfoldable pub start_built : Adapters → Trigger → Adapter → M Adapters
  unfolding insert
  start_built adapters trigger adapter = do
    guards ← build_guards d ns trigger.meta.name trigger.spec.guards
    driver ← build_driver d ns trigger
    sent ← call (start_adapter trigger.meta.name adapter)
    pure (
        insert trigger.meta.name
          (record { adapter = adapter; trigger = trigger; guards = guards; driver = driver })
          adapters)

  -- An adapter that cannot be built is logged.
  unfoldable pub if_built : Adapters → Trigger → Result Adapter → M Adapters
  unfolding start_built
  if_built adapters trigger (err e) = pure adapters
  if_built adapters trigger (ok adapter) = start_built adapters trigger adapter

  unfoldable pub unless_running : Adapters → Trigger → Option RunningAdapter → M Adapters
  unfolding if_built
  unless_running adapters trigger (some ra) = pure adapters
  unless_running adapters trigger none = do
    built ← attempt (build_adapter d ns trigger)
    if_built adapters trigger built

  unfoldable pub start_adapters : List Trigger → Adapters → M Adapters
  unfolding is_active unless_running lookup
  start_adapters [] adapters = pure adapters
  start_adapters (trigger ∷ triggers) adapters = do
    started ←
        (if is_active trigger.status.phase
          then unless_running adapters trigger (lookup trigger.meta.name adapters)
          else pure adapters)
    start_adapters triggers started

-- An entry that is gone when the iteration reaches it is passed over.
unfoldable pub stop_inactive : List String → List String → Adapters → M Adapters
unfolding lookup remove listed
stop_inactive names [] adapters = pure adapters
stop_inactive names (name ∷ rest) adapters = elim (lookup name adapters) [
  | none ↦ stop_inactive names rest adapters
  | some ra ↦
      if listed name names
      then stop_inactive names rest adapters
      else (do outcome ← call (stop_adapter name); stop_inactive names rest (remove name adapters))
]

unfoldable pub stop_each : List String → M Adapters
stop_each [] = pure []
stop_each (name ∷ names) = do outcome ← call (stop_adapter name); stop_each names

unfoldable pub stop_all : Adapters → M Adapters
unfolding keys stop_each
stop_all adapters = stop_each (keys adapters)

module _ (d : Decoders) (ns : String) where
  unfoldable pub sync_once : Adapters → M Adapters
  unfolding start_adapters stop_inactive active_triggers keys
  sync_once adapters = do
    answer ← call (list_triggers ns [])
    triggers ← or_wrap "list triggers" answer
    started ← start_adapters d ns triggers adapters
    stop_inactive (active_triggers triggers) (keys started) started

  -- A synchronisation fails where it lists the triggers, before it changes the map.
  unfoldable pub after_sync : Adapters → Result Adapters → Adapters
  after_sync adapters (ok synced) = synced
  after_sync adapters (err e) = adapters

  unfoldable pub sync_or_log : Adapters → M Adapters
  unfolding sync_once after_sync
  sync_or_log adapters = do
    outcome ← attempt (sync_once adapters)
    pure (after_sync adapters outcome)

  -- The context ends at some tick; the rounds are the ticks looked at, and the loop goes on at their end.
  unfoldable pub sync_loop : ℕ → Adapters → M Adapters
  unfolding sync_or_log stop_all
  sync_loop zero adapters = pure adapters
  sync_loop (suc rounds) adapters = do
    ticked ← call tick
    if ticked
        then (do synced ← sync_or_log adapters; sync_loop rounds synced)
        else stop_all adapters

  unfoldable pub sync : ℕ → M Adapters
  unfolding sync_loop
  sync rounds = do synced ← sync_or_log []; sync_loop rounds synced
