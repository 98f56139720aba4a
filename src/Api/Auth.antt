-- ===== src/Api/Auth.antt =====
-- go/internal/api/auth.go, and `authMiddleware` of go/internal/api/server.go.
use boilerhouse.Common.{
  ℕ, String, Bool, true, false, List, [], ◌∷◌, Option, none, some, ◌==◌, ◌<>◌, if◌then◌else◌,
}

pub data AuthKind : Type 0 where
  admin scoped : AuthKind

pub record AuthContext : Type 0 where
  pub kind : AuthKind
  pub tenant_id : String
  pub workload : String
  pub claim_id : String
  pub scopes : List String

unfoldable pub mem : String → List String → Bool
mem s [] = false
mem s (have ∷ rest) = if have == s then true else mem s rest

unfoldable pub has_scope : AuthContext → String → Bool
unfolding mem
has_scope a s = elim a.kind [ admin ↦ true | scoped ↦ mem s a.scopes ]

-- The context of a request holds what `ContextWithAuth` attached to it, if anything.
abbrev pub Context : Type 0
Context = Option AuthContext

-- An answer of `none` allows the request.
unfoldable pub check_scope : Context → String → Option String
unfolding has_scope
check_scope none s = some "unauthenticated"
check_scope (some a) s = if has_scope a s then none else some ("missing scope: " <> s)

unfoldable pub check_own_tenant : Context → String → Option String
check_own_tenant none tenant = some "unauthenticated"
check_own_tenant (some a) tenant = elim a.kind [
  | admin ↦ none
  | scoped ↦ if a.tenant_id == tenant then none else some "cannot access another tenant's resources"
]

-- What a middleware does with a request: it passes it on in a context, or writes an error.
pub data Verdict : Type 0 where
  passed : Context → Verdict
  refused : ℕ → String → Verdict

unfoldable pub require_admin : Context → Verdict
require_admin none = passed none
require_admin (some a) = elim a.kind [
  | admin ↦ passed (some a)
  | scoped ↦ refused 403 "admin access required"
]

unfoldable pub require_scope : String → Context → Verdict
unfolding has_scope
require_scope s none = passed none
require_scope s (some a) =
    if has_scope a s then passed (some a) else refused 403 ("missing scope: " <> s)

-- One middleware behind another.
unfoldable pub behind : Verdict → (Context → Verdict) → Verdict
behind (passed c) next = next c
behind (refused code text) next = refused code text
