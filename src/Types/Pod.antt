-- ===== src/Types/Pod.antt =====
-- The fields of Kubernetes Pods, Secrets and ConfigMaps that the code reads or writes.
use boilerhouse.Common.{ℕ, String, List, Option, Bool}
use boilerhouse.Common.Dict.{Dict}
use boilerhouse.Common.Int.{ℤ}
use boilerhouse.Types.Meta.{ObjectMeta}
use boilerhouse.Types.Workload.{SecretKeyRef}

-- An environment variable is a literal, or refers to a key of a Secret.
pub record EnvVar : Type 0 where
  pub name : String
  pub value : String
  pub secret_key_ref : Option SecretKeyRef

pub record VolumeMount : Type 0 where
  pub name : String
  pub mount_path : String
  pub sub_path : String
  pub read_only : Bool

pub data VolumeSource : Type 0 where
  empty_dir : VolumeSource
  config_map : String → VolumeSource

pub record Volume : Type 0 where
  pub name : String
  pub source : VolumeSource

pub record SecurityContext : Type 0 where
  pub run_as_user : Option ℕ
  pub drop : List String
  pub add : List String
  pub allow_privilege_escalation : Option Bool
  pub read_only_root_filesystem : Option Bool

-- Quantities are texts, as the code prints them for `resource.MustParse`.
pub record Resources : Type 0 where
  pub cpu_request : String
  pub memory_request : String
  pub cpu_limit : String
  pub memory_limit : String

pub data ProbeHandler : Type 0 where
  unset : ProbeHandler
  http_get : String → ℤ → ProbeHandler
  exec : List String → ProbeHandler

pub record Probe : Type 0 where
  pub period_seconds : ℤ
  pub failure_threshold : ℤ
  pub handler : ProbeHandler

pub data PullPolicy : Type 0 where
  unset if_not_present never : PullPolicy

pub record Container : Type 0 where
  pub name : String
  pub image : String
  pub pull_policy : PullPolicy
  pub command : List String
  pub args : List String
  pub working_dir : String
  pub env : List EnvVar
  pub ports : List ℤ
  pub resources : Resources
  pub security : SecurityContext
  pub mounts : List VolumeMount
  pub readiness : Option Probe

pub data PodPhase : Type 0 where
  unset pending running succeeded failed unknown : PodPhase

pub record Condition : Type 0 where
  pub type : String
  pub status : String

pub record Pod : Type 0 where
  pub meta : ObjectMeta
  pub containers : List Container
  pub init_containers : List Container
  pub volumes : List Volume
  pub automount_token : Bool
  pub phase : PodPhase
  pub pod_ip : String
  pub conditions : List Condition

pub record Secret : Type 0 where
  pub meta : ObjectMeta
  pub entries : Dict String

pub record ConfigMap : Type 0 where
  pub meta : ObjectMeta
  pub entries : Dict String
