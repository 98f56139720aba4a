-- ===== src/Types/Trigger.antt =====
-- go/api/v1alpha1/trigger_types.go. A raw extension is its JSON text.
use boilerhouse.Common.{String, Option, List}
use boilerhouse.Types.Meta.{ObjectMeta}

pub record TriggerTenant : Type 0 where
  pub static : String
  pub from : String
  pub prefix : String

pub record TriggerGuard : Type 0 where
  pub type : String
  pub config : Option String

pub record TriggerSpec : Type 0 where
  pub type : String
  pub workload_ref : String
  pub tenant : Option TriggerTenant
  pub driver : String
  pub driver_options : Option String
  pub guards : List TriggerGuard
  pub config : Option String

pub data TriggerPhase : Type 0 where
  unset active error : TriggerPhase

pub record TriggerStatus : Type 0 where
  pub phase : TriggerPhase
  pub detail : String

pub record Trigger : Type 0 where
  pub meta : ObjectMeta
  pub spec : TriggerSpec
  pub status : TriggerStatus
