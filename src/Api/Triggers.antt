-- ===== src/Api/Triggers.antt =====
-- go/internal/api/routes_trigger.go.
pub mod Isolation
pub mod Prefix
use boilerhouse.Common.{
  ℕ, String, Bool, true, false, List, [], ◌∷◌, Option, none, some, ◌==◌, ◌&&◌, not, map,
  if◌then◌else◌,
}
use boilerhouse.Common.Dict.{Dict, insert}
use boilerhouse.Types.Meta.{Key, ObjectMeta}
use boilerhouse.Types.Trigger.{Trigger, TriggerSpec, TriggerStatus, TriggerTenant, TriggerPhase}
use boilerhouse.Scope
use boilerhouse.Cluster.{
  M, Result, ok, err, ◌>>=◌, pure, call, get_trigger, create_trigger, delete_trigger, list_triggers,
}
use boilerhouse.Api.Auth.{AuthContext, AuthKind, admin, scoped, Context}
use boilerhouse.Api.Reply.{Reply, wrote, refused, Server, or_refuse, unless_refused, show_time}

pub record TriggerRequest : Type 0 where
  pub name : String
  pub spec : TriggerSpec

pub record TriggerResponse : Type 0 where
  pub name : String
  pub spec : TriggerSpec
  pub status : TriggerStatus
  pub created_at : String

unfoldable pub to_trigger_response : Server → Trigger → TriggerResponse
unfolding show_time
to_trigger_response s t = record {
  name = t.meta.name;
  spec = t.spec;
  status = t.status;
  created_at = show_time s.time t.meta.creation_timestamp;
}

-- `t.Spec.Tenant != nil && t.Spec.Tenant.Static == tenant && t.Spec.Tenant.From == ""`
unfoldable pub is_static_tenant : Option TriggerTenant → String → Bool
is_static_tenant none tenant = false
is_static_tenant (some t) tenant = t.static == tenant && t.from == ""

unfoldable pub trigger_owns_scope : Trigger → String → String → Bool
unfolding is_static_tenant
trigger_owns_scope t tenant workload =
    if t.spec.workload_ref == workload then is_static_tenant t.spec.tenant tenant else false

-- `ac, _ := AuthFromContext(ctx)`: without an identity, the zero value, whose kind is that of an admin.
unfoldable pub caller : Context → AuthContext
caller none = record { kind = admin; tenant_id = ""; workload = ""; claim_id = ""; scopes = [] }
caller (some a) = a

-- Why a scoped caller may not create the trigger.
unfoldable pub scoped_refusal : AuthContext → TriggerSpec → Option String
unfolding is_static_tenant
scoped_refusal a spec =
    if not (spec.type == "cron")
    then some "scoped tokens may only create cron triggers"
    else if not (spec.workload_ref == a.workload)
    then some "trigger workloadRef must match the token's workload"
    else if not (is_static_tenant spec.tenant a.tenant_id)
    then some "trigger tenant.static must match the token's tenant and tenant.from must be empty"
    else none

unfoldable pub create_refusal : AuthContext → TriggerSpec → Option String
unfolding scoped_refusal
create_refusal a spec = elim a.kind [ admin ↦ none | scoped ↦ scoped_refusal a spec ]

-- Both labels are stamped where their value is not empty.
unfoldable pub stamp : String → String → Dict String → Dict String
unfolding insert
stamp label value labels = if value == "" then labels else insert label value labels

unfoldable pub static_tenant : Option TriggerTenant → String
static_tenant none = ""
static_tenant (some t) = t.static

unfoldable pub new_trigger : Server → TriggerRequest → Trigger
unfolding stamp static_tenant
new_trigger s req = record {
  meta = record {
    name = req.name;
    namespace = s.namespace;
    labels =
        stamp Scope.label_workload req.spec.workload_ref
          (stamp Scope.label_tenant (static_tenant req.spec.tenant) []);
    annotations = [];
    finalizers = [];
    owners = [];
    deletion_timestamp = none;
    creation_timestamp = none;
    generation = 0;
  };
  spec = req.spec;
  status = record { phase = TriggerPhase.unset; detail = "" };
}

unfoldable pub store_trigger : Server → TriggerRequest → Option String → M (Reply TriggerResponse)
unfolding new_trigger to_trigger_response or_refuse
store_trigger s req (some text) = pure (refused 403 text)
store_trigger s req none = do
  answer ← call (create_trigger (new_trigger s req))
  or_refuse 500 "failed to create trigger: " answer
      (λ created. pure (wrote 201 (to_trigger_response s created)))

unfoldable pub create_trigger_route :
    Server → Context → Result TriggerRequest → M (Reply TriggerResponse)
unfolding or_refuse caller create_refusal store_trigger
create_trigger_route s c body = or_refuse 400 "invalid JSON: " body (λ req.
    if req.name == ""
    then pure (refused 400 "name is required")
    else store_trigger s req (create_refusal (caller c) req.spec))

-- The labels by which the list is filtered.
unfoldable pub list_labels : AuthContext → Dict String
list_labels a = elim a.kind [
  | admin ↦ []
  | scoped ↦ (Scope.label_tenant, a.tenant_id) ∷ (Scope.label_workload, a.workload) ∷ []
]

unfoldable pub list_triggers_route : Server → Context → M (Reply (List TriggerResponse))
unfolding or_refuse caller list_labels to_trigger_response
list_triggers_route s c = do
  answer ← call (list_triggers s.namespace (list_labels (caller c)))
  or_refuse 500 "failed to list triggers: " answer
      (λ found. pure (wrote 200 (map (to_trigger_response s) found)))

-- `ac.Kind == AuthScoped && !triggerOwnsScope(…)`
unfoldable pub is_foreign : AuthContext → Trigger → Bool
unfolding trigger_owns_scope
is_foreign a t = elim a.kind [
  | admin ↦ false
  | scoped ↦ not (trigger_owns_scope t a.tenant_id a.workload)
]

unfoldable pub trigger_key : Server → String → Key
trigger_key s id = record { name = id; namespace = s.namespace }

unfoldable pub get_trigger_route : Server → Context → String → M (Reply TriggerResponse)
unfolding or_refuse caller is_foreign to_trigger_response trigger_key
get_trigger_route s c id = do
  answer ← call (get_trigger (trigger_key s id))
  or_refuse 404 "trigger not found: " answer (λ t.
      if is_foreign (caller c) t
      then pure (refused 404 "trigger not found")
      else pure (wrote 200 (to_trigger_response s t)))

unfoldable pub remove_trigger : Server → String → M (Reply String)
unfolding unless_refused trigger_key
remove_trigger s id = do
  outcome ← call (delete_trigger (trigger_key s id))
  unless_refused 404 "trigger not found: " outcome (pure (wrote 200 "deleted"))

-- A scoped caller must own the trigger, which is loaded first.
unfoldable pub delete_trigger_by : Server → AuthContext → String → AuthKind → M (Reply String)
unfolding or_refuse trigger_owns_scope remove_trigger trigger_key
delete_trigger_by s a id admin = remove_trigger s id
delete_trigger_by s a id scoped = do
  answer ← call (get_trigger (trigger_key s id))
  or_refuse 404 "trigger not found: " answer (λ t.
      if trigger_owns_scope t a.tenant_id a.workload
      then remove_trigger s id
      else pure (refused 404 "trigger not found"))

unfoldable pub delete_trigger_route : Server → Context → String → M (Reply String)
unfolding caller delete_trigger_by
delete_trigger_route s c id = delete_trigger_by s (caller c) id (caller c).kind
