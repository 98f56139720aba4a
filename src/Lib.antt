-- ===== src/Lib.antt =====
-- Boilerhouse runs tenants' containers on Kubernetes. Tenants claim instances of workloads; an operator turns
-- claims into Pods, fills pools of warm Pods and takes snapshots of the Pods that it ends; an API server
-- authenticates requests by the tokens that the operator grants to claims. This library models that code and
-- proves what it is to keep.
--
-- The parts and their files. A definition has the name of the function it translates, in snake case; the
-- helpers beside it are the branches of that function, in the order of the source.
--   Types: go/api/v1alpha1 (claims, workloads, pools, triggers) and the fields of Kubernetes objects in use.
--     A pointer is an option, an enumeration of the CRD schema a data type, a time a number of nanoseconds.
--   Cluster: the world outside. A controller is a step that makes requests (reads and writes of the
--     Kubernetes client, the snapshot store, runs of kubectl, the clock, the random source,
--     the key material of go/internal/envoy/tls.go) and ends with a value or an error. The answers come from an
--     `Env`, which is any function of the requests made so far: conflicts, failures and other writers are all
--     answers of some `Env`. The theorems speak of the history of requests that a step leaves. Cluster.Keeps
--     and Cluster.Triple are the rules to prove such statements.
--   Claim: go/internal/operator/claim_controller.go (Claim.Reconcile), claim_activate.go (Claim.Activate,
--     Claim.Idle), claim_release.go (Claim.Release, Claim.Deletion), claim_pods.go (Claim.Pods) and
--     claim_token.go (Claim.Token). Claim.Phases has the life cycle of the phases and Claim.Lifecycle its
--     invariant; Claim.Saves is about snapshots before deletion, Claim.Patience about the idle timeout,
--     Claim.Retries about the attempts to store a snapshot, Claim.Revocation about the token at the end of a
--     claim.
--   Pool: go/internal/operator/pool_controller.go, and the bounds on what one pass creates.
--   Translate, Sidecar, Envoy: go/internal/operator/translator.go and sidecar.go and
--     go/internal/envoy/config.go, which turn a workload into Kubernetes objects and a proxy configuration.
--   Snapshots: go/internal/operator/snapshots.go, the store behind the requests for snapshots that the claim
--     reconciler makes.
--   Scope: go/internal/scope/scope.go and go/internal/claimtoken/claimtoken.go, which the operator writes by
--     and the API server reads by.
--   Api: go/internal/api. Api.Auth, Api.TokenStore and Api.Authenticate: auth.go, token_store.go and the
--     middleware of server.go. Api.History relates the index of tokens to what the informer delivered, Api.Origin
--     a caller to the Secret behind it. Api.Router: the table of routes of server.go and the middleware before
--     each. The handlers, which end with a `Reply`: Api.Triggers (routes_trigger.go), Api.Claims and Api.Tenants
--     (claims.go, routes_tenant.go), Api.Workloads, Api.Instances and Api.System (routes_workload.go,
--     routes_instance.go, routes_system.go), Api.Snapshots (routes_snapshot.go) and Api.Debug (routes_debug.go,
--     the parts that compute). Api.Events: the events that the watches of websocket.go send. A request comes to them with its body decoded and its path
--     parameters read.
--   Workload: go/internal/operator/workload_controller.go.
--   Trigger: go/internal/operator/trigger_controller.go (Trigger.Reconcile), and of go/internal/trigger: the
--     resolution of tenants (Trigger.Tenant), the guards (Trigger.Guards, Trigger.ApiGuard), the handling of an
--     event by gateway.go (Trigger.Gateway), how it builds adapters, guards and drivers from a trigger's
--     configuration (Trigger.Configs, Trigger.Build), its synchronisation with the triggers (Trigger.Sync, whose
--     state is the map of running adapters), and adapter_telegram.go (Trigger.Telegram: Config, Update and the
--     polling loop, Loop). Trigger.Drivers: the conversations of driver_claude_code.go and driver_pi.go with a
--     bridge, over what comes from the connection. Trigger.Webhook: the handler of adapter_webhook.go. Types.Json
--     has the JSON values that are read, with numbers known by their integer part.
--   Tests: the theorems at concrete objects.
--
-- Loops run over lists, the retry loop of extractWithRetry over its list of delays. The two polling loops of the
-- gateway run for as many rounds as ticks fit into their timeouts, 120 and 60, and end with the time-out after
-- them; the world may end them before. pollClaim has 60 rounds, as many intervals as fit into its timeout, and
-- Api.Claims.Polling shows that more change nothing. The sync loop of the gateway and the polling loop of Telegram
-- go on until their context ends; their theorems hold for any number of rounds.
-- Numbers that the schema bounds from below by 0 are natural numbers; other values of Go's `int` are integers,
-- and conversions to int32 and products wrap.
--
-- Parameters: the reading and printing of RFC3339 times, the decoding of a JSON object of texts, sha256, and the
-- `Decoders` of Trigger.Configs (the decoding of JSON into the structures of configurations, of durations and of
-- URLs).
-- Not modelled: the HTTP and WebSocket clients and servers behind the adapters, drivers and guards, whose answers
-- are the world's or come with the connection; the cron adapter and the default and openclaw drivers; the
-- connection of the web socket; the discovery of kinds for the debugging view and its entries of known kinds;
-- TLS material; the building of images, logging; the generated deep copies; the commands. A text is cut to 256
-- bytes as if every character took one byte at the cut. A write to an object is taken to leave the caller's copy
-- as written, except for Pods and for what the routes create, where the answer counts.

pub mod Common
pub mod Types
pub mod Cluster
pub mod Envoy
pub mod Snapshots
pub mod Sidecar
pub mod Translate
pub mod Scope
pub mod Workload
pub mod Claim
pub mod Pool
pub mod Trigger
pub mod Api
mod Tests
