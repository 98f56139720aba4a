-- ===== src/Trigger/Guards.antt =====
-- go/internal/trigger/guard.go and `Check` of guard_api.go.
use Prim.Native.String.{len, slice}
use boilerhouse.Common.{
  ℕ, String, Bool, true, false, List, [], ◌∷◌, Option, none, some, ◌==◌, ◌<>◌, ltb, nat_eq,
  if◌then◌else◌,
}
use boilerhouse.Common.Int.{ℤ}
use boilerhouse.Common.Text.{show_ℕ}
use boilerhouse.Common.Split.{trim_space}
use boilerhouse.Sidecar.{quote}
use boilerhouse.Cluster.{
  M, Error, message, wrap, error_text, Result, ok, err, GuardReply, replied, ◌>>=◌, pure, raise,
  call, call_guard,
}

-- `APIGuard`; an empty `misconfigured` is a guard that works.
pub record ApiGuard : Type 0 where
  pub trigger_name : String
  pub url : String
  pub timeout : ℤ
  pub token : String
  pub misconfigured : String

pub data Guard : Type 0 where
  allowlist : List String → String → Guard
  api_guard : ApiGuard → Guard

unfoldable pub listed : String → List String → Bool
listed tenant [] = false
listed tenant (id ∷ ids) = if id == tenant then true else listed tenant ids

-- An outcome of `none` lets the event through.
unfoldable pub check_allowlist : List String → String → String → Option Error
unfolding listed
check_allowlist ids deny tenant =
    if listed tenant ids
    then none
    else some
        (message (if deny == "" then "tenant " <> quote tenant <> " is not allowed" else deny))

unreachable : String → Option Error
unreachable text = some (message ("api guard unreachable: " <> text))

-- The reason for a denial, cut to 256 bytes.
reason_text : String → String
reason_text reason =
    let trimmed = trim_space reason in
    let given = if trimmed == "" then "denied by api guard" else trimmed in
    if ltb 256 (len given) then slice given 0 256 else given

unfoldable pub body_verdict : Result (Option Bool × String) → Option Error
unfolding unreachable reason_text
body_verdict (err e) = unreachable (error_text e)
body_verdict (ok (none, reason)) = unreachable "missing allow field"
body_verdict (ok (some true, reason)) = none
body_verdict (ok (some false, reason)) = some (message (reason_text reason))

unfoldable pub by_code : ℕ → Result (Option Bool × String) → Bool → Option Error
unfolding body_verdict unreachable
by_code code body true = body_verdict body
by_code code body false = unreachable ("status " <> show_ℕ code)

unfoldable pub reply_verdict : Result GuardReply → Option Error
unfolding by_code
reply_verdict (err e) = unreachable (error_text e)
reply_verdict (ok (replied code body)) = by_code code body (nat_eq code 200)

unfoldable pub check_api : ApiGuard → String → M (Option Error)
unfolding reply_verdict
check_api g tenant =
    if g.misconfigured == ""
    then (do answer ← call (call_guard g.url tenant); pure (reply_verdict answer))
    else pure (some (message ("guard misconfigured: " <> g.misconfigured)))

unfoldable pub check : Guard → String → M (Option Error)
unfolding check_allowlist check_api
check (allowlist ids deny) tenant = pure (check_allowlist ids deny tenant)
check (api_guard g) tenant = check_api g tenant

unfoldable pub if_passed : Option Error → M (Unit {0}) → M (Unit {0})
if_passed none next = next
if_passed (some e) next = raise (wrap "guard check failed" e)

-- The guard chain of an event handler: the first failure ends it.
unfoldable pub run_guards : List Guard → String → M (Unit {0})
unfolding check if_passed
run_guards [] tenant = pure tt
run_guards (g ∷ gs) tenant = do outcome ← check g tenant; if_passed outcome (run_guards gs tenant)
