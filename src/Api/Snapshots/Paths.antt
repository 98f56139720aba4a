-- ===== src/Api/Snapshots/Paths.antt =====
-- The paths that go/internal/operator/snapshots.go stores snapshots under, read by
-- go/internal/api/routes_snapshot.go.
use Prim.Native.String.append
use Prim.Native.String.len
use Prim.Native.Char.{Char, code}
use Prim.Native.String.{String, len as bytes, [] as empty, ◌∷◌ as ◌:>◌}
use text.Mathlib.TextPositions.{len-append, len_utf8-pos}
use boilerhouse.Common.{
  ℕ, true, false, some, ◌==◌, ◌<>◌, ◌≡◌, ◌≢◌, refl, sym, ap, arith, nat_eq, ==_ne, ==_self,
}
use boilerhouse.Common.Split.{
  after_prefix, trim_slashes, is_space, trim_space-Solid, Solid, Lacks, filled-append, cons-filled,
}
use boilerhouse.Snapshots.{snapshot_path}
use boilerhouse.Api.Authenticate.{trim_prefix}
use boilerhouse.Api.Snapshots.{
  onto_left, cut_at_slash, has_slash, after_last_slash, base_name, trim_suffix, entry_of,
  parse_line,
}

nat_eq_self : (n : ℕ) → nat_eq n n ≡ true
nat_eq_self n = ground arith

after_prefix-append : (p s : String) → after_prefix p (p <> s) ≡ some s
unfolding after_prefix
after_prefix-append empty s = rw append.nil refl
after_prefix-append (c :> p) s =
    rw (append.cons, after_prefix-append p s, nat_eq_self (code c)) refl

cut-append :
    (left right : String) → Lacks 47 left → cut_at_slash (left <> "/" <> right) ≡ some (left, right)
unfolding cut_at_slash onto_left
cut-append empty right h = rw (append.nil, append.cons, append.nil) refl
cut-append (c :> left) right h = rw (append.cons, h.0, cut-append left right h.1) refl

Lacks-append : (s t : String) → Lacks 47 s → Lacks 47 t → Lacks 47 (s <> t)
Lacks-append empty t hs ht = rw append.nil ht
Lacks-append (c :> s) t hs ht = rw append.cons (hs.0, Lacks-append s t hs.1 ht)

Solid-append : (s t : String) → Solid s → Solid t → Solid (s <> t)
Solid-append empty t hs ht = rw append.nil ht
Solid-append (c :> s) t hs ht = rw append.cons (hs.0, Solid-append s t hs.1 ht)

has_slash-Lacks : (s : String) → Lacks 47 s → has_slash s ≡ false
unfolding has_slash
has_slash-Lacks empty h = refl
has_slash-Lacks (c :> s) h = rw (h.0, has_slash-Lacks s h.1) refl

trim_slashes-Lacks : (s : String) → Lacks 47 s → trim_slashes s ≡ s
unfolding trim_slashes
trim_slashes-Lacks empty h = refl
trim_slashes-Lacks (c :> s) h = rw (h.0, trim_slashes-Lacks s h.1) (ground arith)

after_last-Lacks : (s : String) → Lacks 47 s → after_last_slash s ≡ s
unfolding after_last_slash
after_last-Lacks empty h = refl
after_last-Lacks (c :> s) h = rw (h.0, has_slash-Lacks s h.1) refl

base-Lacks : (s : String) → Lacks 47 s → (s == "") ≡ false → base_name s ≡ s
unfolding base_name
base-Lacks s h filled = rw (filled, trim_slashes-Lacks s h, filled, after_last-Lacks s h) refl

longer : (c : Char) (s suffix : String) → ((c :> s) <> suffix) ≢ suffix
longer c s suffix h =
    let at_least = len_utf8-pos c in
    omega (ap bytes h, len-append (c :> s) suffix, len.cons c s, at_least.1, arith)

trim_suffix_self : (suffix : String) → (suffix == "") ≡ false → trim_suffix suffix suffix ≡ ""
unfolding trim_suffix
trim_suffix_self empty filled = refl
trim_suffix_self (c :> s) filled = rw (==_self (c :> s)) refl

trim_suffix-append :
    (s suffix : String) → (suffix == "") ≡ false → trim_suffix suffix (s <> suffix) ≡ s
unfolding trim_suffix
trim_suffix-append empty suffix filled = rw append.nil (trim_suffix_self suffix filled)
trim_suffix-append (c :> s) suffix filled =
    let differs : (((c :> s) <> suffix) == suffix) ≡ false =
      ==_ne ((c :> s) <> suffix) suffix (longer c s suffix) in
    rw (append.cons, sym (append.cons c s suffix), differs, trim_suffix-append s suffix filled) refl

ending_filled : (s : String) → (s <> ".tar.gz" == "") ≡ false
ending_filled empty = refl
ending_filled (c :> s) = filled-append (c :> s) ".tar.gz" (==_ne (c :> s) "" (cons-filled c s))

path-Solid :
    (tenant workload : String)
    → Solid tenant
    → Solid workload
    → Solid (snapshot_path tenant workload)
unfolding snapshot_path is_space
path-Solid tenant workload st sw =
    Solid-append "/snapshots/" _
      (refl, (refl, (refl, (refl, (refl, (refl, (refl, (refl, (refl, (refl, (refl, tt)))))))))))
      (Solid-append tenant _ st (
        Solid-append "/" _ (refl, tt)
          (Solid-append workload _ sw (refl, (refl, (refl, (refl, (refl, (refl, (refl, tt))))))))))

-- The entry that the API shows for the file under which the operator stores a snapshot names the snapshot's tenant
-- and workload, for any names without slashes and white space.
pub parse_line-snapshot_path :
    (tenant workload : String)
    → Lacks 47 tenant
    → Solid tenant
    → Lacks 47 workload
    → Solid workload
    → parse_line (snapshot_path tenant workload)
      ≡ some (record {
        tenant_id = tenant;
        workload_ref = workload;
        path = snapshot_path tenant workload;
      })
unfolding parse_line snapshot_path trim_prefix entry_of
parse_line-snapshot_path tenant workload lt st lw sw =
    rw
      (
        trim_space-Solid (snapshot_path tenant workload) (path-Solid tenant workload st sw),
        filled-append "/snapshots/" (tenant <> "/" <> workload <> ".tar.gz") refl,
        after_prefix-append "/snapshots/" (tenant <> "/" <> workload <> ".tar.gz"),
        cut-append tenant (workload <> ".tar.gz") lt,
        base-Lacks (workload <> ".tar.gz")
            (Lacks-append workload ".tar.gz" lw
              (refl, (refl, (refl, (refl, (refl, (refl, (refl, tt))))))))
            (ending_filled workload),
        trim_suffix-append workload ".tar.gz" refl,
      )
      refl
