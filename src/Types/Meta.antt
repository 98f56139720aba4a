-- ===== src/Types/Meta.antt =====
-- Kubernetes object metadata. A time is a number of nanoseconds.
use boilerhouse.Common.{ℕ, String, List, Option}
use boilerhouse.Common.Dict.{Dict}

pub record ObjectMeta : Type 0 where
  pub name : String
  pub namespace : String
  pub labels : Dict String
  pub annotations : Dict String
  pub finalizers : List String
  pub owners : List String
  pub deletion_timestamp : Option ℕ
  pub creation_timestamp : Option ℕ
  pub generation : ℕ

-- `types.NamespacedName`
pub record Key : Type 0 where
  pub name : String
  pub namespace : String

abbrev pub second : ℕ
second = 1_000_000_000
