-- ===== src/Snapshots.antt =====
-- go/internal/operator/snapshots.go: the store of snapshots on a shared volume, behind a helper Pod. Files are read
-- and written by runs of kubectl, whose outputs are texts here; `sha256` is a parameter.
pub mod Verified
use boilerhouse.Common.{
  ℕ, zero, suc, String, Bool, true, false, List, [], ◌∷◌, ◌++◌, Option, none, some, map, ◌==◌, ◌<>◌,
  if◌then◌else◌,
}
use boilerhouse.Common.Text.{show_ℕ}
use boilerhouse.Common.Split.{trim_space}
use boilerhouse.Types.Meta.{ObjectMeta, Key}
use boilerhouse.Types.Pod.{Pod, PodPhase}
use boilerhouse.Types.Volume.{VolumeClaim, HelperPod}
use boilerhouse.Translate.Objects.{label_managed}
use boilerhouse.Cluster.{
  M, Error, message, wrap, error_text, Result, ok, err, Ran, exited, not_started, is_not_found,
  unless_missing, unless_exists, ◌>>=◌, ◌>>◌, pure, raise, call, or_fail, or_wrap, succeed,
  succeed_or_wrap, wrapping, kubectl, get_volume_claim, create_volume_claim, get_pod, delete_pod,
  create_helper_pod,
}
use boilerhouse.Api.Authenticate.{trim_prefix}

abbrev pub snapshots_pvc_name : String
snapshots_pvc_name = "boilerhouse-snapshots"

abbrev pub snapshot_helper_pod_name : String
snapshot_helper_pod_name = "boilerhouse-snapshot-helper"

-- `snapshotHelperUID`, the user nobody.
abbrev pub snapshot_helper_uid : ℕ
snapshot_helper_uid = 65534

unfoldable pub snapshot_path : String → String → String
snapshot_path tenant workload = "/snapshots/" <> tenant <> "/" <> workload <> ".tar.gz"

unfoldable pub snapshot_sha_path : String → String → String
unfolding snapshot_path
snapshot_sha_path tenant workload = snapshot_path tenant workload <> ".sha256"

unfoldable pub strip_leading_slashes : List String → List String
unfolding trim_prefix
strip_leading_slashes dirs = map (λ d. trim_prefix d "/") dirs

-- The output of a run, or why it failed.
unfoldable pub output_of : String → Ran → Result String
output_of what (exited zero out errors) = ok out
output_of what (exited (suc code) out errors) =
    err (message (what <> ": exit status " <> show_ℕ (suc code) <> " (stderr: " <> errors <> ")"))
output_of what (not_started e) = err (message (what <> ": " <> error_text e <> " (stderr: )"))

unfoldable pub kubectl_output : String → List String → String → M String
unfolding output_of
kubectl_output what args stdin = do ran ← call (kubectl args stdin); or_fail (output_of what ran)

module _ (sha256 : String → String) where
  -- `none` is an archive that passes.
  unfoldable pub verify_archive : String → String → Option Error
  verify_archive archive sha =
      let want = trim_space sha in
      if want == ""
      then some (message "missing checksum")
      else if sha256 archive == want
      then none
      else some (message ("checksum mismatch: want " <> want <> ", got " <> sha256 archive))

abbrev own_meta : String → String → ObjectMeta
own_meta ns name = record {
  name = name;
  namespace = ns;
  labels = (label_managed, "true") ∷ [];
  annotations = [];
  finalizers = [];
  owners = [];
  deletion_timestamp = none;
  creation_timestamp = none;
  generation = 0;
}

unfoldable pub snapshots_pvc : String → VolumeClaim
snapshots_pvc ns = record {
  meta = own_meta ns snapshots_pvc_name;
  access_modes = "ReadWriteOnce" ∷ [];
  storage = "50Gi";
}

unfoldable pub helper_pod : String → HelperPod
helper_pod ns = record {
  meta = record (own_meta ns snapshot_helper_pod_name) {
    labels = (label_managed, "true") ∷ ("app", "boilerhouse-snapshot-helper") ∷ [];
  };
  container = "helper";
  image = "busybox:1.36";
  command = "sleep" ∷ "infinity" ∷ [];
  volume = "snapshots";
  claim_name = snapshots_pvc_name;
  mount_path = "/snapshots";
  container_security = record {
    run_as_user = none;
    drop = "ALL" ∷ [];
    add = [];
    allow_privilege_escalation = some false;
    read_only_root_filesystem = some true;
  };
  restart_policy = "Always";
  automount_token = false;
  termination_grace = 1;
  run_as_non_root = true;
  run_as_user = snapshot_helper_uid;
  run_as_group = snapshot_helper_uid;
  fs_group = snapshot_helper_uid;
  seccomp_profile = "RuntimeDefault";
}

module _ (ns : String) where
  unfoldable pub unless_there : Option Error → M (Unit {0})
  unfolding snapshots_pvc
  unless_there none = pure tt
  unless_there (some e) =
      if is_not_found e
      then (do
        outcome ← call (create_volume_claim (snapshots_pvc ns))
        succeed_or_wrap "creating snapshots PVC" (unless_exists outcome))
      else raise (wrap "checking snapshots PVC" e)

  unfoldable pub ensure_snapshots_pvc : M (Unit {0})
  unfolding unless_there
  ensure_snapshots_pvc = do
    answer ← call (get_volume_claim (record { name = snapshots_pvc_name; namespace = ns }))
    unless_there answer

  unfoldable pub create_helper : M (Unit {0})
  unfolding helper_pod
  create_helper = do
    outcome ← call (create_helper_pod (helper_pod ns))
    succeed_or_wrap "creating helper pod" (unless_exists outcome)

  -- A helper Pod that neither runs nor starts up is replaced.
  unfoldable pub by_helper_phase : Pod → PodPhase → M (Unit {0})
  unfolding create_helper
  by_helper_phase pod PodPhase.running = pure tt
  by_helper_phase pod PodPhase.pending = pure tt
  by_helper_phase pod _ = do
    outcome ← call (delete_pod pod)
    succeed_or_wrap "deleting failed helper pod" (unless_missing outcome)
    create_helper

  unfoldable pub by_helper : Result Pod → M (Unit {0})
  unfolding by_helper_phase create_helper
  by_helper (ok pod) = by_helper_phase pod pod.phase
  by_helper (err e) = if is_not_found e then create_helper else raise (wrap "checking helper pod" e)

  unfoldable pub ensure_helper_pod : M (Unit {0})
  unfolding ensure_snapshots_pvc by_helper
  ensure_helper_pod = do
    ensure_snapshots_pvc
    answer ← call (get_pod (record { name = snapshot_helper_pod_name; namespace = ns }))
    by_helper answer

  abbrev pub on_helper : List String → List String
  on_helper args = "exec" ∷ snapshot_helper_pod_name ∷ "-n" ∷ ns ∷ "--" ∷ args

  unfoldable pub read_from_snapshots_pvc : String → M String
  unfolding ensure_helper_pod kubectl_output
  read_from_snapshots_pvc path = do
    wrapping "ensuring helper pod" ensure_helper_pod
    kubectl_output ("reading " <> path) (on_helper ("cat" ∷ path ∷ [])) ""

  unfoldable pub file_exists : Ran → Result Bool
  file_exists (exited zero out errors) = ok true
  file_exists (exited (suc zero) out errors) = ok false
  file_exists (exited (suc (suc code)) out errors) =
      err (message ("exit status " <> show_ℕ (suc (suc code))))
  file_exists (not_started e) = err e

  unfoldable pub has_snapshot : String → String → M Bool
  unfolding ensure_helper_pod file_exists snapshot_path
  has_snapshot tenant workload = do
    wrapping "ensuring helper pod" ensure_helper_pod
    ran ← call (kubectl (on_helper ("test" ∷ "-f" ∷ snapshot_path tenant workload ∷ [])) "")
    or_fail (file_exists ran)

  -- A failure to remove the files is ignored.
  unfoldable pub delete_snapshot : String → String → M (Unit {0})
  unfolding ensure_helper_pod snapshot_path snapshot_sha_path
  delete_snapshot tenant workload = do
    wrapping "ensuring helper pod" ensure_helper_pod
    ran ← call (
        kubectl
          (on_helper
            ("rm" ∷ "-f" ∷ snapshot_path tenant workload ∷ snapshot_sha_path tenant workload ∷ []))
          "")
    pure tt

  unfoldable pub read_snapshot_checksum : String → String → M String
  unfolding read_from_snapshots_pvc snapshot_sha_path
  read_snapshot_checksum tenant workload = do
    raw ← read_from_snapshots_pvc (snapshot_sha_path tenant workload)
    pure (trim_space raw)

module _ (sha256 : String → String) (ns : String) where
  abbrev pub inject_args : String → List String
  inject_args pod =
      "exec" ∷ "-i" ∷ pod ∷ "-n" ∷ ns ∷ "--" ∷ "tar" ∷ "xzf" ∷ "-" ∷ "-C" ∷ "/" ∷ "--no-same-owner"
      ∷ "--no-same-permissions" ∷ []

  unfoldable pub stream_in : String → String → M (Unit {0})
  unfolding kubectl_output
  stream_in pod archive = do
    out ← kubectl_output ("inject snapshot into pod " <> pod) (inject_args pod) archive
    pure tt

  unfoldable pub inject_archive : String → String → String → String → M (Unit {0})
  unfolding read_snapshot_checksum verify_archive snapshot_path stream_in
  inject_archive pod tenant workload archive = if archive == "" then pure tt else (do
    sha ← wrapping "read snapshot checksum" (read_snapshot_checksum ns tenant workload)
    succeed_or_wrap ("snapshot " <> snapshot_path tenant workload)
        (verify_archive sha256 archive sha)
    stream_in pod archive)

  unfoldable pub inject_snapshot : String → String → String → M (Unit {0})
  unfolding read_from_snapshots_pvc inject_archive snapshot_path
  inject_snapshot pod tenant workload = do
    archive ← wrapping "read snapshot" (read_from_snapshots_pvc ns (snapshot_path tenant workload))
    inject_archive pod tenant workload archive

  unfoldable pub write_script : String → String → String → String
  unfolding snapshot_path snapshot_sha_path
  write_script tenant workload sum =
      let path = snapshot_path tenant workload in
      let sha_path = snapshot_sha_path tenant workload in
      "set -e; mkdir -p /snapshots/" <> tenant <> "; cat > " <> path <> ".tmp; printf '%s' " <> sum
      <> " > " <> sha_path <> ".tmp; mv " <> path <> ".tmp " <> path <> "; mv " <> sha_path
      <> ".tmp " <> sha_path

  abbrev pub write_args : String → String → String → List String
  write_args tenant workload sum =
      "exec"
      ∷ "-i"
      ∷ snapshot_helper_pod_name
      ∷ "-n"
      ∷ ns
      ∷ "--"
      ∷ "sh"
      ∷ "-c"
      ∷ write_script tenant workload sum
      ∷ []

  unfoldable pub write_to_snapshots_pvc : String → String → String → M (Unit {0})
  unfolding ensure_helper_pod kubectl_output snapshot_path write_script
  write_to_snapshots_pvc tenant workload archive = do
    wrapping "ensuring helper pod" (ensure_helper_pod ns)
    out ←
        kubectl_output ("writing snapshot " <> snapshot_path tenant workload)
          (write_args tenant workload (sha256 archive)) archive
    pure tt

  abbrev pub extract_args : String → List String → List String
  extract_args pod dirs =
      "exec"
      ∷ pod
      ∷ "-n"
      ∷ ns
      ∷ "--"
      ∷ "tar"
      ∷ "czf"
      ∷ "-"
      ∷ "-C"
      ∷ "/"
      ∷ strip_leading_slashes dirs

  unfoldable pub store_archive : String → String → String → M (Unit {0})
  unfolding write_to_snapshots_pvc
  store_archive tenant workload archive =
      if archive == "" then pure tt else write_to_snapshots_pvc tenant workload archive

  unfoldable pub extract_and_store : String → String → String → List String → M (Unit {0})
  unfolding kubectl_output strip_leading_slashes store_archive
  extract_and_store pod tenant workload [] = pure tt
  extract_and_store pod tenant workload (d ∷ dirs) = do
    archive ← kubectl_output ("extract overlay from pod " <> pod) (extract_args pod (d ∷ dirs)) ""
    store_archive tenant workload archive
