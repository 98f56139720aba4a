-- ===== src/Trigger/Sync/State.antt =====
-- The map of running adapters of go/internal/trigger/gateway.go against what was started and stopped so far.
use boilerhouse.Common.{
  String, Bool, true, false, [], ◌∷◌, Option, none, some, ◌==◌, ◌≡◌, refl, sym, ap, ◌∙◌,
  if◌then◌else◌,
}
use boilerhouse.Common.Dict.{lookup, insert, remove, lookup-insert, lookup-remove}
use boilerhouse.Types.Adapter.{Adapter}
use boilerhouse.Cluster.{Trace, event, start_adapter, stop_adapter, tick}
use boilerhouse.Trigger.Sync.{Adapters, RunningAdapter}

-- The adapter of this name was started, and not stopped since.
abbrev pub is_live : String → Trace → Bool
is_live name [] = false
is_live name (event (start_adapter n a) x ∷ t) = if n == name then true else is_live name t
is_live name (event (stop_adapter n) x ∷ t) = if n == name then false else is_live name t
is_live name (_ ∷ t) = is_live name t

-- No adapter was started while another of its name ran.
abbrev pub Single : Trace → Type 0
Single [] = Unit
Single (event (start_adapter n a) x ∷ t) = (is_live n t ≡ false) × Single t
Single (_ ∷ t) = Single t

abbrev pub is_present : Option RunningAdapter → Bool
is_present none = false
is_present (some ra) = true

abbrev pub is_running : String → Adapters → Bool
is_running name adapters = is_present (lookup name adapters)

-- The map says what runs.
abbrev pub Exact : Adapters → Trace → Type 0
Exact adapters t = Single t × ((name : String) → is_running name adapters ≡ is_live name t)

-- The context of the gateway has ended.
abbrev pub is_ended : Trace → Bool
is_ended [] = false
is_ended (event tick false ∷ t) = true
is_ended (_ ∷ t) = is_ended t

abbrev pub Going : Adapters → Trace → Type 0
Going adapters t = Exact adapters t × (is_ended t ≡ false)

present-if :
    (b : Bool) (ra : RunningAdapter) (o : Option RunningAdapter)
    → is_present (if b then some ra else o) ≡ (if b then true else is_present o)
present-if true ra o = refl
present-if false ra o = refl

absent-if :
    (b : Bool) (o : Option RunningAdapter)
    → is_present (if b then none else o) ≡ (if b then false else is_present o)
absent-if true o = refl
absent-if false o = refl

pub is_running-remove :
    (name other : String) (adapters : Adapters)
    → is_running other (remove name adapters)
      ≡ (if name == other then false else is_running other adapters)
is_running-remove name other adapters =
    rw (lookup-remove name other adapters, absent-if (name == other) (lookup other adapters)) refl

pub Exact-start :
    (name : String) (ra : RunningAdapter) (adapter : Adapter) (adapters : Adapters) (t : Trace)
    (x : _)
    → lookup name adapters ≡ none
    → Exact adapters t
    → Exact (insert name ra adapters) (event (start_adapter name adapter) x ∷ t)
Exact-start name ra adapter adapters t x absent (single, same) = (
  (sym (same name) ∙ ap is_present absent, single),
  λ other.
      rw
        (
          lookup-insert name other ra adapters,
          present-if (name == other) ra (lookup other adapters),
          same other,
        )
        refl,
)

pub Exact-stop :
    (name : String) (adapters : Adapters) (t : Trace) (x : _)
    → Exact adapters t
    → Exact (remove name adapters) (event (stop_adapter name) x ∷ t)
Exact-stop name adapters t x (single, same) =
    (single, λ other. rw (is_running-remove name other adapters, same other) refl)
