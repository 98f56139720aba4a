-- ===== src/Types/Workload.antt =====
-- go/api/v1alpha1/workload_types.go. A pointer is an `Option`; an enumeration of the CRD schema is a
-- data type with one more constructor for the empty string.
use boilerhouse.Common.{ℕ, String, List, Option}
use boilerhouse.Common.Int.{ℤ}
use boilerhouse.Types.Meta.{ObjectMeta}

pub record WorkloadImage : Type 0 where
  pub ref : String
  pub dockerfile : String

pub record WorkloadResources : Type 0 where
  pub vcpus : ℤ
  pub memory_mb : ℤ
  pub disk_gb : ℤ

pub record SecretKeyRef : Type 0 where
  pub name : String
  pub key : String

pub record HeaderValueSource : Type 0 where
  pub secret_key_ref : Option SecretKeyRef

pub record HeaderEntry : Type 0 where
  pub name : String
  pub value : String
  pub value_from : Option HeaderValueSource

pub record NetworkCredential : Type 0 where
  pub domain : String
  pub headers : List HeaderEntry

pub data Access : Type 0 where
  unset deny restricted unrestricted : Access

-- `expose` holds the guest port of each entry.
pub record WorkloadNetwork : Type 0 where
  pub access : Access
  pub expose : List ℤ
  pub allowlist : List String
  pub credentials : List NetworkCredential

pub record WorkloadFilesystem : Type 0 where
  pub overlay_dirs : List String

pub data IdleAction : Type 0 where
  unset hibernate destroy : IdleAction

pub record WorkloadIdle : Type 0 where
  pub timeout_seconds : ℤ
  pub action : IdleAction

pub record HealthHttpGet : Type 0 where
  pub path : String
  pub port : ℤ

pub record WorkloadHealth : Type 0 where
  pub interval_seconds : ℤ
  pub unhealthy_threshold : ℤ
  pub http_get : Option HealthHttpGet
  pub exec : Option (List String)

-- `env` is the raw JSON of the free-form field.
pub record WorkloadEntrypoint : Type 0 where
  pub cmd : String
  pub args : List String
  pub workdir : String
  pub env : Option String

pub record WorkloadApiAccess : Type 0 where
  pub scopes : List String

pub record WorkloadSpec : Type 0 where
  pub version : String
  pub image : WorkloadImage
  pub resources : WorkloadResources
  pub network : Option WorkloadNetwork
  pub filesystem : Option WorkloadFilesystem
  pub idle : Option WorkloadIdle
  pub health : Option WorkloadHealth
  pub entrypoint : Option WorkloadEntrypoint
  pub api_access : Option WorkloadApiAccess

pub data WorkloadPhase : Type 0 where
  unset creating ready error : WorkloadPhase

pub record WorkloadStatus : Type 0 where
  pub phase : WorkloadPhase
  pub detail : String
  pub observed_generation : ℕ

pub record Workload : Type 0 where
  pub meta : ObjectMeta
  pub spec : WorkloadSpec
  pub status : WorkloadStatus
