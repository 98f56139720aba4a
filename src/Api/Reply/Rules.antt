-- ===== src/Api/Reply/Rules.antt =====
-- The rules for the early returns of handlers.
use boilerhouse.Common.{ℕ, String, Option, none, some, ◌<>◌}
use boilerhouse.Cluster.{M, Error, error_text, Trace, Result, ok, err}
use boilerhouse.Cluster.Keeps.{Keeps, Keeps-pure}
use boilerhouse.Cluster.Triple.{Triple, Triple-pure}
use boilerhouse.Api.Reply.{Reply, refused, or_refuse, unless_refused}

-- An early return writes nothing to the cluster.
module _ {A B : Type 0} {P : Trace → Type 0} (code : ℕ) (prefix : String) where
  pub Keeps-or_refuse :
      (x : Result A) (next : A → M (Reply B))
      → ((a : A) → Keeps P (next a))
      → Keeps P (or_refuse code prefix x next)
  unfolding or_refuse
  Keeps-or_refuse (ok a) next k = k a
  Keeps-or_refuse (err e) next k = Keeps-pure _

module _ {B : Type 0} {P : Trace → Type 0} (code : ℕ) (prefix : String) where
  pub Keeps-unless_refused :
      (o : Option Error) (next : M (Reply B))
      → Keeps P next
      → Keeps P (unless_refused code prefix o next)
  unfolding unless_refused
  Keeps-unless_refused none next k = k
  Keeps-unless_refused (some e) next k = Keeps-pure _

module _ {A B : Type 0} {bad : Trace → Type 0} (code : ℕ) (prefix : String) where
  pub Triple-or_refuse :
      (pre : Result A → Trace → Type 0) (post : Reply B → Trace → Type 0) (x : Result A)
      (next : A → M (Reply B))
      → ((a : A) → Triple bad (pre (ok a)) post (next a))
      → ((e : Error) (t : Trace) → pre (err e) t → post (refused code (prefix <> error_text e)) t)
      → Triple bad (pre x) post (or_refuse code prefix x next)
  unfolding or_refuse
  Triple-or_refuse pre post (ok a) next k r = k a
  Triple-or_refuse pre post (err e) next k r = Triple-pure _ (r e)
