-- ===== src/Cluster.antt =====
-- What the program asks of the world around it: the calls of the Kubernetes client
-- (sigs.k8s.io/controller-runtime), of the snapshot store behind the `Snapshotter` interface
-- (go/internal/operator/snapshots.go), of the clock and of the random source. None of that is code
-- of the repository, so a call is answered by an `Env`: any function of the calls made so far and
-- their answers. Conflicts, concurrent writers, crashes of the API server and caches that lag are
-- all answers of some `Env`; no theorem assumes more of it than its hypotheses say.

pub mod Keeps
pub mod Triple
pub mod Attempt
use boilerhouse.Common.{
  ℕ, String, Bool, true, false, List, [], ◌∷◌, ◌≡◌, ◌⊎◌, Option, none, some, ◌<>◌, if◌then◌else◌,
}
use boilerhouse.Common.Dict.{Dict}
use boilerhouse.Types.Meta.{Key}
use boilerhouse.Types.Workload.{Workload}
use boilerhouse.Types.Claim.{Claim}
use boilerhouse.Types.Pool.{Pool}
use boilerhouse.Types.Trigger.{Trigger}
use boilerhouse.Types.Pod.{Pod, Secret, ConfigMap}
use boilerhouse.Types.Json.{Json, Object}
use boilerhouse.Types.Adapter.{Adapter, Payload}
use boilerhouse.Types.Volume.{VolumeClaim, HelperPod}
use boilerhouse.Common.Int.{ℤ}

-- The kinds of API errors that the code tells apart, with their texts.
pub data ApiError : Type 0 where
  not_found already_exists other : String → ApiError

abbrev api_text : ApiError → String
api_text (not_found text) = text
api_text (already_exists text) = text
api_text (other text) = text

-- `fmt.Errorf("…: %w", err)` wraps; `message` is an error that is none of the API server's.
pub data Error : Type 0 where
  api : ApiError → Error
  wrap : String → Error → Error
  message : String → Error

-- `err.Error()`
abbrev pub error_text : Error → String
error_text (api e) = api_text e
error_text (wrap text e) = text <> ": " <> error_text e
error_text (message text) = text

pub data Result {ℓ} (A : Type ℓ) : Type ℓ where
  ok : A → Result A
  err : Error → Result A

-- `apierrors.IsNotFound` and `apierrors.IsAlreadyExists` look through wrapping.
abbrev pub is_not_found : Error → Bool
is_not_found (api (not_found _)) = true
is_not_found (wrap _ e) = is_not_found e
is_not_found _ = false

abbrev pub is_already_exists : Error → Bool
is_already_exists (api (already_exists _)) = true
is_already_exists (wrap _ e) = is_already_exists e
is_already_exists _ = false

-- internal/envoy/tls.go makes it with the crypto library.
pub record DomainCert : Type 0 where
  pub domain : String
  pub cert : String
  pub key : String

pub record TlsMaterial : Type 0 where
  pub ca_cert : String
  pub certs : List DomainCert

-- What an HTTP guard replies: a status code, and its body if that decodes, with `allow` and the reason.
pub data GuardReply : Type 0 where
  replied : ℕ → Result (Option Bool × String) → GuardReply

-- A run of `kubectl` that came to an exit code, with what it wrote to its outputs, or could not be started.
pub data Ran : Type 0 where
  exited : ℕ → String → String → Ran
  not_started : Error → Ran

pub data Request : Type 0 where
  get_claim get_workload get_pool get_trigger get_pod get_secret : Key → Request
  update_claim update_claim_status create_claim delete_claim : Claim → Request
  update_workload update_workload_status : Workload → Request
  update_pool update_pool_status : Pool → Request
  update_trigger update_trigger_status : Trigger → Request
  list_pods : String → Dict String → Request
  update_pod create_pod delete_pod : Pod → Request
  create_config_map : ConfigMap → Request
  create_secret : Secret → Request
  delete_secret : Key → Request
  has_snapshot delete_snapshot : String → String → Request
  inject_snapshot : String → String → String → Request
  extract_and_store : String → String → String → List String → Request
  sleep : ℕ → Request
  build_image : String → String → Request
  call_guard send_event : String → String → Request
  tick : Request
  generate_tls : List String → Request
  now random_suffix random_token : Request
  create_trigger : Trigger → Request
  create_workload : Workload → Request
  delete_trigger delete_workload : Key → Request
  list_triggers list_claims : String → Dict String → Request
  list_workloads : String → Request
  get_volume_claim : Key → Request
  create_volume_claim : VolumeClaim → Request
  create_helper_pod : HelperPod → Request
  kubectl : List String → String → Request
  start_adapter : String → Adapter → Request
  stop_adapter : String → Request
  running : Request
  get_me delete_webhook : String → Request
  get_updates : String → ℤ → ℤ → List String → Request
  send_message : String → ℤ → String → Request
  dispatch : Payload → Request

-- A write answers `none` on success. Writes of Pods, and the creation of triggers and workloads, answer the object that the server returns, which
-- the client decodes over the caller's. A sleep, and the tick of a
-- polling loop, answer whether they came before the end of the context, and `running` whether that is still to come.
abbrev pub Response : Request → Type 0
Response (get_claim _) = Result Claim
Response (get_workload _) = Result Workload
Response (get_pool _) = Result Pool
Response (get_trigger _) = Result Trigger
Response (get_pod _) = Result Pod
Response (get_secret _) = Result Secret
Response (list_pods _ _) = Result (List Pod)
Response (update_pod _) = Result Pod
Response (create_pod _) = Result Pod
Response (has_snapshot _ _) = Result Bool
Response (sleep _) = Bool
Response (call_guard _ _) = Result GuardReply
Response (send_event _ _) = Result String
Response tick = Bool
Response (generate_tls _) = Result TlsMaterial
Response now = ℕ
Response random_suffix = String
Response random_token = Result String
Response (create_trigger _) = Result Trigger
Response (create_workload _) = Result Workload
Response (list_triggers _ _) = Result (List Trigger)
Response (list_claims _ _) = Result (List Claim)
Response (list_workloads _) = Result (List Workload)
Response (kubectl _ _) = Ran
Response running = Bool
Response (get_updates _ _ _ _) = Result (List Object)
Response (dispatch _) = Result Json
Response _ = Option Error

pub data Event : Type 0 where
  event : (r : Request) → Response r → Event

-- Newest first.
abbrev pub Trace : Type 0
Trace = List Event

abbrev pub Env : Type 0
Env = Trace → (r : Request) → Response r

-- The event is part of the history.
abbrev pub Had : Event → Trace → Type 0
Had e [] = ⊥
Had e (f ∷ t) = (f ≡ e) ⊎ Had e t

-- A Go function that returns a value and an error ends in one of two ways.
pub data Outcome {ℓ} (A : Type ℓ) : Type ℓ where
  returns : A → Trace → Outcome A
  fails : Error → Trace → Outcome A

abbrev pub trace_of {ℓ} : {A : Type ℓ} → Outcome A → Trace
trace_of (returns a t) = t
trace_of (fails e t) = t

abbrev pub M {ℓ} : Type ℓ → Type ℓ
M A = Env → Trace → Outcome A

pub pure {ℓ} : {A : Type ℓ} → A → M A
pure a env t = returns a t

pub raise {ℓ} : {A : Type ℓ} → Error → M A
raise e env t = fails e t

pub call : (r : Request) → M (Response r)
call r env t = let x = env t r in returns x (event r x ∷ t)

-- `if err != nil { return …, err }`
pub or_fail {ℓ} : {A : Type ℓ} → Result A → M A
or_fail (ok a) env t = returns a t
or_fail (err e) env t = fails e t

pub succeed : Option Error → M (Unit {0})
succeed none env t = returns tt t
succeed (some e) env t = fails e t

-- `if err != nil { return …, fmt.Errorf("…: %w", err) }`
pub or_wrap {ℓ} : {A : Type ℓ} → String → Result A → M A
or_wrap text (ok a) env t = returns a t
or_wrap text (err e) env t = fails (wrap text e) t

pub succeed_or_wrap : String → Option Error → M (Unit {0})
succeed_or_wrap text none env t = returns tt t
succeed_or_wrap text (some e) env t = fails (wrap text e) t

-- A step whose error is looked at.
pub attempt {ℓ} : {A : Type ℓ} → M A → M (Result A)
attempt m env t = elim (m env t) [
  | returns a t' ↦ returns (ok a) t'
  | fails e t' ↦ returns (err e) t'
]

-- The same over a step that makes calls.
pub wrapping {ℓ} : {A : Type ℓ} → String → M A → M A
wrapping text m env t = elim (m env t) [
  | returns a t' ↦ returns a t'
  | fails e t' ↦ fails (wrap text e) t'
]

infixl 5 ◌>>=◌ ◌>>◌
-- Opening this opens the steps above too.
unfoldable pub ◌>>=◌ {ℓ κ} : {A : Type ℓ} {B : Type κ} → M A → (A → M B) → M B
unfolding pure raise call or_fail succeed or_wrap succeed_or_wrap wrapping attempt
◌>>=◌ m f env t = elim (m env t) [ returns a t' ↦ f a env t' | fails e t' ↦ fails e t' ]

abbrev pub ◌>>◌ {ℓ} : {B : Type ℓ} → M (Unit {0}) → M B → M B
m >> k = m >>= λ _. k

-- `if err != nil && !apierrors.IsNotFound(err)`
abbrev pub unless_missing : Option Error → Option Error
unless_missing none = none
unless_missing (some e) = if is_not_found e then none else some e

abbrev pub unless_exists : Option Error → Option Error
unless_exists none = none
unless_exists (some e) = if is_already_exists e then none else some e

-- `reconcile.Result`; a delay is in nanoseconds.
pub data Requeue : Type 0 where
  stop again : Requeue
  after : ℕ → Requeue
