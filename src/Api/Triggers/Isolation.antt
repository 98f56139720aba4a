-- ===== src/Api/Triggers/Isolation.antt =====
-- What the trigger routes do for the holder of a claim's token.
use mathlib.Core.Path.{subst}
use boilerhouse.Common.{
  ℕ, String, Bool, true, false, [], ◌∷◌, Option, none, some, ◌==◌, ◌&&◌, not, ◌≡◌, refl, sym, ◌∙◌,
  ◌⊎◌, inl, ==_sound, if◌then◌else◌,
}
use boilerhouse.Types.Meta.{Key}
use boilerhouse.Types.Trigger.{Trigger, TriggerSpec, TriggerTenant}
use boilerhouse.Cluster.{
  Env, returns, Trace, trace_of, event, Result, ok, err, pure, ◌>>=◌, create_trigger,
  delete_trigger, get_trigger, list_triggers,
}
use boilerhouse.Cluster.Keeps.{Keeps, Keeps-call, Keeps-pure, Keeps-bind, Keeps-if}
use boilerhouse.Cluster.Triple.{
  Triple, Triple-Keeps, Keeps-Triple, Triple-call, Triple-bind, Triple-pure, Triple-pre,
}
use boilerhouse.Api.Auth.{AuthContext, AuthKind, scoped}
use boilerhouse.Api.Reply.{wrote, refused, Server, or_refuse}
use boilerhouse.Api.Reply.Rules.{Keeps-or_refuse, Keeps-unless_refused}
use boilerhouse.Api.Triggers.{
  TriggerRequest, TriggerResponse, is_static_tenant, trigger_owns_scope, caller, scoped_refusal,
  create_refusal, list_labels, new_trigger, store_trigger, create_trigger_route,
  list_triggers_route, is_foreign, get_trigger_route, remove_trigger, delete_trigger_by,
  delete_trigger_route, trigger_key, to_trigger_response,
}

-- The trigger runs the workload of the caller, for the caller's tenant by name.
abbrev pub Owned : AuthContext → TriggerSpec → Type 0
Owned a spec =
    (spec.workload_ref ≡ a.workload)
    × ((t : TriggerTenant) × (spec.tenant ≡ some t) × (t.static ≡ a.tenant_id) × (t.from ≡ ""))

-- The trigger was read and is the caller's.
abbrev pub WasOwned : AuthContext → Key → Trace → Type 0
WasOwned a k [] = ⊥
WasOwned a k (event (get_trigger j) (ok t) ∷ h) = ((j ≡ k) × Owned a t.spec) ⊎ WasOwned a k h
WasOwned a k (_ ∷ h) = WasOwned a k h

-- What a caller with a scoped token may have done to triggers.
abbrev pub Confined : AuthContext → Trace → Type 0
Confined a [] = Unit
Confined a (event (create_trigger t) x ∷ h) = (t.spec.type ≡ "cron") × Owned a t.spec × Confined a h
Confined a (event (delete_trigger k) x ∷ h) = WasOwned a k h × Confined a h
Confined a (event (list_triggers ns labels) x ∷ h) = (labels ≡ list_labels a) × Confined a h
Confined a (_ ∷ h) = Confined a h

both : (b c : Bool) → (b && c) ≡ true → (b ≡ true) × (c ≡ true)
both true c h = (refl, h)
both false c h = absurd cc

negated : (b : Bool) → not b ≡ false → b ≡ true
negated true h = refl
negated false h = absurd cc

static-Owned :
    (o : Option TriggerTenant) (tenant : String)
    → is_static_tenant o tenant ≡ true
    → (t : TriggerTenant) × (o ≡ some t) × (t.static ≡ tenant) × (t.from ≡ "")
unfolding is_static_tenant
static-Owned none tenant h = absurd cc
static-Owned (some t) tenant h =
    let (same, plain) = both (t.static == tenant) (t.from == "") h in
    (t, refl, ==_sound t.static tenant same, ==_sound t.from "" plain)

owns_scope-Owned :
    (a : AuthContext) (t : Trigger)
    → trigger_owns_scope t a.tenant_id a.workload ≡ true
    → Owned a t.spec
unfolding trigger_owns_scope
owns_scope-Owned a t h = go (t.spec.workload_ref == a.workload) refl h
  where
    go :
        (b : Bool)
        → (t.spec.workload_ref == a.workload) ≡ b
        → (if b then is_static_tenant t.spec.tenant a.tenant_id else false) ≡ true
        → Owned a t.spec
    go true same owns =
        (==_sound t.spec.workload_ref a.workload same, static-Owned t.spec.tenant a.tenant_id owns)
    go false other owns = absurd cc

-- A trigger that is not refused is a cron trigger of the caller.
pub not_refused-Owned :
    (a : AuthContext) (spec : TriggerSpec)
    → scoped_refusal a spec ≡ none
    → (spec.type ≡ "cron") × Owned a spec
unfolding scoped_refusal
not_refused-Owned a spec h =
    go (spec.type == "cron") (spec.workload_ref == a.workload)
      (is_static_tenant spec.tenant a.tenant_id) refl refl refl h
  where
    go :
        (cron mine static : Bool)
        → (spec.type == "cron") ≡ cron
        → (spec.workload_ref == a.workload) ≡ mine
        → is_static_tenant spec.tenant a.tenant_id ≡ static
        → if◌then◌else◌ {A = Option String}
            (not cron)
            (some "scoped tokens may only create cron triggers")
            (if not mine
              then some "trigger workloadRef must match the token's workload"
              else if not static
              then some
                  "trigger tenant.static must match the token's tenant and tenant.from must be empty"
              else none)
          ≡ none
        → (spec.type ≡ "cron") × Owned a spec
    go true true true is_cron is_mine is_static passes = (
      ==_sound spec.type "cron" is_cron,
      (
        ==_sound spec.workload_ref a.workload is_mine,
        static-Owned spec.tenant a.tenant_id is_static,
      ),
    )
    go true true false is_cron is_mine is_static passes = absurd cc
    go true false static is_cron is_mine is_static passes = absurd cc
    go false mine static is_cron is_mine is_static passes = absurd cc

module _ (s : Server) (a : AuthContext) (is_scoped : a.kind ≡ scoped) where
  refusal_scoped : (spec : TriggerSpec) → create_refusal a spec ≡ scoped_refusal a spec
  unfolding create_refusal
  refusal_scoped spec = rw is_scoped refl

  store-Confined :
      (req : TriggerRequest) (o : Option String)
      → create_refusal a req.spec ≡ o
      → Keeps (Confined a) (store_trigger s req o)
  unfolding store_trigger new_trigger
  store-Confined req (some text) refuses = Keeps-pure _
  store-Confined req none passes =
      let (cron, owned) = not_refused-Owned a req.spec (sym (refusal_scoped req.spec) ∙ passes) in
      Keeps-bind _ _ (Keeps-call (create_trigger _) (λ t x h. (cron, owned, h)))
        (λ answer. Keeps-or_refuse _ _ answer _ (λ created. Keeps-pure _))

  create-Confined :
      (body : Result TriggerRequest) → Keeps (Confined a) (create_trigger_route s (some a) body)
  unfolding create_trigger_route caller
  create-Confined body =
      Keeps-or_refuse _ _ body _
        (λ req. Keeps-if (req.name == "") _ _ (Keeps-pure _) (store-Confined req _ refl))

  list-Confined : Keeps (Confined a) (list_triggers_route s (some a))
  unfolding list_triggers_route caller
  list-Confined =
      Keeps-bind _ _ (Keeps-call (list_triggers _ _) (λ t x h. (refl, h)))
        (λ answer. Keeps-or_refuse _ _ answer _ (λ found. Keeps-pure _))

  -- With the trigger read as the caller's, its deletion is confined.
  remove-Confined :
      (id : String)
      → Triple
          (Confined a)
          (λ t. WasOwned a (trigger_key s id) t × Confined a t)
          (λ _. Confined a)
          (remove_trigger s id)
  unfolding remove_trigger
  remove-Confined id =
      Triple-bind (λ _. Confined a) (Triple-call (delete_trigger _) (λ t x h. h))
        (λ outcome. Triple-Keeps (Keeps-unless_refused _ _ outcome _ (Keeps-pure _)))

  -- If the trigger that was read is the caller's, the history says so.
  abbrev ReadAs : Key → Result Trigger → Trace → Type 0
  ReadAs k (ok t) h = (Owned a t.spec → WasOwned a k h) × Confined a h
  ReadAs k (err e) h = Confined a h

  delete_read :
      (id : String) (x : Result Trigger)
      → Triple
          (Confined a)
          (ReadAs (trigger_key s id) x)
          (λ _. Confined a)
          (or_refuse 404 "trigger not found: " x (λ t.
            if trigger_owns_scope t a.tenant_id a.workload
            then remove_trigger s id
            else pure (refused 404 "trigger not found")))
  unfolding or_refuse
  delete_read id (err e) = Triple-pure _ (λ h p. p)
  delete_read id (ok t) = go (trigger_owns_scope t a.tenant_id a.workload) refl
    where
      go :
          (b : Bool)
          → trigger_owns_scope t a.tenant_id a.workload ≡ b
          → Triple
              (Confined a)
              (λ h. (Owned a t.spec → WasOwned a (trigger_key s id) h) × Confined a h)
              (λ _. Confined a)
              (if b then remove_trigger s id else pure (refused 404 "trigger not found"))
      go true owns = Triple-pre (λ h p. (p.0 (owns_scope-Owned a t owns), p.1)) (remove-Confined id)
      go false other = Triple-pure _ (λ h p. p.1)

  read_event :
      (id : String) (h : Trace) (x : Result Trigger)
      → Confined a h
      → ReadAs (trigger_key s id) x (event (get_trigger (trigger_key s id)) x ∷ h)
  read_event id h (ok t) c = (λ owned. inl (refl, owned), c)
  read_event id h (err e) c = c

  delete_by-Confined :
      (id : String) (k : AuthKind) → k ≡ scoped → Keeps (Confined a) (delete_trigger_by s a id k)
  unfolding delete_trigger_by
  delete_by-Confined id AuthKind.admin is = absurd cc
  delete_by-Confined id scoped is = Keeps-Triple (
      Triple-bind (ReadAs (trigger_key s id)) (Triple-call (get_trigger _) (read_event id))
        (delete_read id))

  delete-Confined : (id : String) → Keeps (Confined a) (delete_trigger_route s (some a) id)
  unfolding delete_trigger_route caller
  delete-Confined id = delete_by-Confined id a.kind is_scoped

  foreign_scoped :
      (t : Trigger) → is_foreign a t ≡ not (trigger_owns_scope t a.tenant_id a.workload)
  unfolding is_foreign
  foreign_scoped t = rw is_scoped refl

  shown-Owned :
      (t : Trigger) (b : Bool)
      → is_foreign a t ≡ b
      → (code : ℕ) (r : TriggerResponse) (h h' : Trace) (env : Env)
      → (if b
            then pure (refused 404 "trigger not found")
            else pure (wrote 200 (to_trigger_response s t)))
          env h
        ≡ returns (wrote code r) h'
      → Owned a r.spec
  unfolding to_trigger_response is_foreign ◌>>=◌
  shown-Owned t true foreign code r h h' env is = absurd cc
  shown-Owned t false own code r h h' env is =
      let same : t.spec ≡ r.spec = cc in
      let owns =
        negated (trigger_owns_scope t a.tenant_id a.workload) (sym (foreign_scoped t) ∙ own) in
      subst (Owned a) same (owns_scope-Owned a t owns)

  get-Owned :
      (x : Result Trigger) (code : ℕ) (r : TriggerResponse) (h h' : Trace) (env : Env)
      → or_refuse 404 "trigger not found: " x
          (λ t.
            if is_foreign a t
            then pure (refused 404 "trigger not found")
            else pure (wrote 200 (to_trigger_response s t)))
          env
          h
        ≡ returns (wrote code r) h'
      → Owned a r.spec
  unfolding or_refuse ◌>>=◌
  get-Owned (ok t) code r h h' env is = shown-Owned t (is_foreign a t) refl code r h h' env is
  get-Owned (err e) code r h h' env is = absurd cc

pub trigger_routes-Confined :
    (s : Server) (a : AuthContext) (body : Result TriggerRequest) (id : String) (env : Env)
    → a.kind ≡ scoped
    → Confined a (trace_of (create_trigger_route s (some a) body env []))
      × Confined a (trace_of (delete_trigger_route s (some a) id env []))
      × Confined a (trace_of (list_triggers_route s (some a) env []))
      × ((code : ℕ) (r : TriggerResponse) (h : Trace)
          → get_trigger_route s (some a) id env [] ≡ returns (wrote code r) h
          → Owned a r.spec)
unfolding get_trigger_route caller ◌>>=◌
trigger_routes-Confined s a body id env is_scoped = (
  (create-Confined s a is_scoped body).at env [] tt,
  (delete-Confined s a is_scoped id).at env [] tt,
  (list-Confined s a is_scoped).at env [] tt,
  λ code r h is.
      get-Owned s a is_scoped (env [] (get_trigger (trigger_key s id))) code r _ h env is,
)
