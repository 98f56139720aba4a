-- ===== src/Api/Snapshots.antt =====
-- go/internal/api/routes_snapshot.go. The texts are cut apart as the libraries `strings` and `path/filepath` do.
pub mod Paths
use Prim.Native.Char.{Char, code}
use Prim.Native.String.{String, [] as empty, ◌∷◌ as ◌:>◌}
use boilerhouse.Common.{
  ℕ, zero, suc, Bool, true, false, List, [], ◌∷◌, Option, none, some, ◌==◌, ◌<>◌, nat_eq,
  if◌then◌else◌,
}
use boilerhouse.Common.Text.{show_ℕ}
use boilerhouse.Common.Split.{trim_slashes, split, trim_space}
use boilerhouse.Cluster.{
  M, Result, ok, err, message, Ran, exited, not_started, ◌>>=◌, pure, call, kubectl,
}
use boilerhouse.Api.Authenticate.{trim_prefix}
use boilerhouse.Api.Reply.{Reply, wrote, Server}

pub record SnapshotEntry : Type 0 where
  pub tenant_id : String
  pub workload_ref : String
  pub path : String

unfoldable pub onto_left : Char → Option (String × String) → Option (String × String)
onto_left c none = none
onto_left c (some (left, right)) = some (c :> left, right)

-- `strings.SplitN(s, "/", 2)`, where it gives two parts.
unfoldable pub cut_at_slash : String → Option (String × String)
unfolding onto_left
cut_at_slash empty = none
cut_at_slash (c :> s) =
    let rest = cut_at_slash s in if nat_eq (code c) 47 then some ("", s) else onto_left c rest

unfoldable pub has_slash : String → Bool
has_slash empty = false
has_slash (c :> s) = let rest = has_slash s in if nat_eq (code c) 47 then true else rest

unfoldable pub after_last_slash : String → String
unfolding has_slash
after_last_slash empty = ""
after_last_slash (c :> s) =
    let rest = after_last_slash s in
    if has_slash s then rest else if nat_eq (code c) 47 then s else c :> s

-- `filepath.Base`
unfoldable pub base_name : String → String
unfolding trim_slashes after_last_slash
base_name s =
    if s == "" then "." else if trim_slashes s == "" then "/" else after_last_slash (trim_slashes s)

-- `strings.TrimSuffix`, of a suffix that is not empty.
unfoldable pub trim_suffix : String → String → String
trim_suffix suffix empty = ""
trim_suffix suffix (c :> s) =
    let rest = trim_suffix suffix s in if (c :> s) == suffix then "" else c :> rest

unfoldable pub entry_of : String → Option (String × String) → Option SnapshotEntry
unfolding base_name trim_suffix
entry_of line none = none
entry_of line (some (tenant, rest)) = some (record {
  tenant_id = tenant;
  workload_ref = trim_suffix ".tar.gz" (base_name rest);
  path = line;
})

unfoldable pub parse_line : String → Option SnapshotEntry
unfolding trim_prefix cut_at_slash entry_of
parse_line raw =
    let line = trim_space raw in
    if line == "" then none else entry_of line (cut_at_slash (trim_prefix line "/snapshots/"))

unfoldable pub parse_lines : List String → List SnapshotEntry
unfolding parse_line
parse_lines [] = []
parse_lines (line ∷ lines) =
    let rest = parse_lines lines in
    elim (parse_line line) [ none ↦ rest | some entry ↦ entry ∷ rest ]

unfoldable pub entries_of : Ran → Result (List SnapshotEntry)
unfolding parse_lines split
entries_of (exited zero out errors) = ok (parse_lines (split 10 (trim_space out)))
entries_of (exited (suc code) out errors) = err (message ("exit status " <> show_ℕ (suc code)))
entries_of (not_started e) = err e

unfoldable pub discover_snapshots : Server → M (Result (List SnapshotEntry))
unfolding entries_of
discover_snapshots s = do
  ran ← call (
      kubectl
        ("exec" ∷ "boilerhouse-snapshot-helper" ∷ "-n" ∷ s.namespace ∷ "--" ∷ "find" ∷ "/snapshots"
          ∷ "-name" ∷ "*.tar.gz" ∷ "-type" ∷ "f" ∷ [])
        "")
  pure (entries_of ran)

-- A failure shows as an empty list.
unfoldable pub found : Result (List SnapshotEntry) → List SnapshotEntry
found (ok entries) = entries
found (err e) = []

unfoldable pub list_snapshots : Server → M (Reply (List SnapshotEntry))
unfolding discover_snapshots found
list_snapshots s = do entries ← discover_snapshots s; pure (wrote 200 (found entries))

unfoldable pub of_workload : String → List SnapshotEntry → List SnapshotEntry
of_workload name [] = []
of_workload name (e ∷ es) =
    let rest = of_workload name es in if e.workload_ref == name then e ∷ rest else rest

unfoldable pub list_workload_snapshots : Server → String → M (Reply (List SnapshotEntry))
unfolding discover_snapshots found of_workload
list_workload_snapshots s name = do
  entries ← discover_snapshots s
  pure (wrote 200 (of_workload name (found entries)))
