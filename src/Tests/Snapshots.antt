-- ===== src/Tests/Snapshots.antt =====
-- Snapshots and the debugging view, run on the snapshot of one tenant and one Secret.
use boilerhouse.Common.{String, List, [], ◌∷◌, some, ◌≡◌, ◌≢◌, refl, ◌⊎◌, if◌then◌else◌}
use boilerhouse.Common.Dict.{lookup}
use boilerhouse.Common.Split.{Solid, is_space}
use boilerhouse.Types.Json
use boilerhouse.Types.Json.{field, nothing, object_at}
use boilerhouse.Cluster.{Env, trace_of, exited}
use boilerhouse.Cluster
use boilerhouse.Snapshots.{snapshot_path, snapshot_sha_path, inject_snapshot}
use boilerhouse.Snapshots.Verified.{Verified, inject_snapshot-Verified}
use boilerhouse.Trigger.Guards.{listed}
use boilerhouse.Api.Snapshots.{parse_line}
use boilerhouse.Api.Snapshots.Paths.{parse_line-snapshot_path}
use boilerhouse.Api.Debug.{Unstructured, secret_to_entry, KindGroup, sort_groups}
use boilerhouse.Api.Debug.Order.{InOrder, of_kind, sort_groups-InOrder}
use boilerhouse.Api.Debug.Redaction.{within, hidden, secret_to_entry-Hidden}
use boilerhouse.Tests.Fixtures.{world}

-- A volume that holds an archive and its checksum.
abbrev volume_world : Env
volume_world t (Cluster.kubectl args stdin) =
    exited 0 (if listed (snapshot_sha_path "ann" "shell") args then "sum" else "archive") ""
volume_world t r = world t r

inject_snapshot-Verified_example :
    Verified
      (λ archive. "sum")
      "default"
      "shell-ann-1"
      "ann"
      "shell"
      (trace_of
        (inject_snapshot (λ archive. "sum") "default" "shell-ann-1" "ann" "shell" volume_world []))
inject_snapshot-Verified_example =
    inject_snapshot-Verified (λ archive. "sum") "default" "shell-ann-1" "ann" "shell" volume_world

ann_Solid : Solid "ann"
unfolding is_space
ann_Solid = (refl, (refl, (refl, tt)))

shell_Solid : Solid "shell"
unfolding is_space
shell_Solid = (refl, (refl, (refl, (refl, (refl, tt)))))

parse_line-snapshot_path_example :
    parse_line (snapshot_path "ann" "shell")
    ≡ some
        (record { tenant_id = "ann"; workload_ref = "shell"; path = snapshot_path "ann" "shell" })
parse_line-snapshot_path_example =
    parse_line-snapshot_path "ann" "shell" (refl, (refl, (refl, tt))) ann_Solid
      (refl, (refl, (refl, (refl, (refl, tt))))) shell_Solid

abbrev secret : Unstructured
secret = record {
  name = "token";
  created = some 5;
  content =
      ("type", Json.text "Opaque")
      ∷ ("data", Json.object (field "token" (Json.text "c2VjcmV0") nothing))
      ∷ [];
}

abbrev data_field : String
data_field = "data"

secret_to_entry-Hidden_example :
    ((data_field ≡ "data") ⊎ (data_field ≡ "stringData")
      → within "token" (object_at data_field (secret_to_entry 9 secret).raw)
        ≡ hidden (within "token" (object_at data_field secret.content)))
    × (data_field ≢ "data"
        → data_field ≢ "stringData"
        → lookup data_field (secret_to_entry 9 secret).raw ≡ lookup data_field secret.content)
secret_to_entry-Hidden_example = secret_to_entry-Hidden 9 secret data_field "token"

abbrev group_of_kind : String → String → KindGroup
group_of_kind kind version = record { kind = kind; api_version = version; resources = [] }

abbrev found_groups : List KindGroup
found_groups =
    group_of_kind "Pod" "v1"
    ∷ group_of_kind "Lease" "v1"
    ∷ group_of_kind "CronJob" "v1"
    ∷ group_of_kind "BoilerhouseClaim" "v1"
    ∷ group_of_kind "Lease" "v2"
    ∷ []

sort_groups-InOrder_example :
    InOrder (sort_groups found_groups)
    × (of_kind "Lease" (sort_groups found_groups) ≡ of_kind "Lease" found_groups)
sort_groups-InOrder_example = sort_groups-InOrder "Lease" found_groups
