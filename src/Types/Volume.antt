-- ===== src/Types/Volume.antt =====
-- What go/internal/operator/snapshots.go creates: the volume of all snapshots, and the Pod that mounts it.
use boilerhouse.Common.{ℕ, String, List, Bool}
use boilerhouse.Types.Meta.{ObjectMeta}
use boilerhouse.Types.Pod.{SecurityContext}

pub record VolumeClaim : Type 0 where
  pub meta : ObjectMeta
  pub access_modes : List String
  pub storage : String

pub record HelperPod : Type 0 where
  pub meta : ObjectMeta
  pub container : String
  pub image : String
  pub command : List String
  pub volume : String
  pub claim_name : String
  pub mount_path : String
  pub container_security : SecurityContext
  pub restart_policy : String
  pub automount_token : Bool
  pub termination_grace : ℕ
  pub run_as_non_root : Bool
  pub run_as_user : ℕ
  pub run_as_group : ℕ
  pub fs_group : ℕ
  pub seccomp_profile : String
