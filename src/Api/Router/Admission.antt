-- ===== src/Api/Router/Admission.antt =====
-- Who gets through to which handler.
use mathlib.Core.Path.{subst}
use boilerhouse.Common.{
  ℕ, String, Bool, true, false, List, [], ◌∷◌, ◌++◌, Option, none, some, ◌==◌, ◌≡◌, refl, ◌⊎◌, inl,
  inr, ==_sound, All, All-append, if◌then◌else◌, ◌<>◌,
}
use boilerhouse.Common.Time.{TimeFormat}
use boilerhouse.Types.Pod.{Secret}
use boilerhouse.Scope
use boilerhouse.Api.Auth.{
  AuthContext, AuthKind, admin, scoped, Context, Verdict, passed, refused, require_admin,
  require_scope, behind, has_scope, mem,
}
use boilerhouse.Api.TokenStore.{Entries}
use boilerhouse.Api.Authenticate.{authenticate, authenticate-Identified, Identified}
use boilerhouse.Api.Router.{
  Handler, Access, anyone, admins, holders, Route, build_router, admit, open_routes, admin_routes,
  trigger_routes,
}

-- The scope is one of the list.
abbrev pub Grants : String → List String → Type 0
Grants s [] = ⊥
Grants s (have ∷ rest) = (have ≡ s) ⊎ Grants s rest

-- The caller may pass the middleware.
abbrev pub MayPass : Access → AuthContext → Type 0
MayPass anyone a = Unit
MayPass admins a = a.kind ≡ admin
MayPass (holders s) a = (a.kind ≡ admin) ⊎ Grants s a.scopes

mem-Grants : (s : String) (have : List String) → mem s have ≡ true → Grants s have
unfolding mem
mem-Grants s [] h = absurd cc
mem-Grants s (first ∷ rest) h = go (mem-Grants s rest) (first == s) refl h
  where
    go :
        (mem s rest ≡ true → Grants s rest)
        → (b : Bool) → (first == s) ≡ b
        → (if b then true else mem s rest) ≡ true
        → (first ≡ s) ⊎ Grants s rest
    go later true same found = inl (==_sound first s same)
    go later false other found = inr (later found)

scope-MayPass :
    (s : String) (a : AuthContext) (k : AuthKind)
    → a.kind ≡ k
    → elim k [ admin ↦ true | scoped ↦ mem s a.scopes ] ≡ true
    → MayPass (holders s) a
scope-MayPass s a admin is h = inl is
scope-MayPass s a scoped is h = inr (mem-Grants s a.scopes h)

by_scope :
    (s : String) (a : AuthContext) (c : Context) (b : Bool)
    → has_scope a s ≡ b
    → (if b then passed (some a) else refused 403 ("missing scope: " <> s)) ≡ passed c
    → (c ≡ some a) × MayPass (holders s) a
unfolding has_scope
by_scope s a c true has is = (cc, scope-MayPass s a a.kind refl has)
by_scope s a c false lacks is = absurd cc

by_kind :
    (a : AuthContext) (c : Context) (k : AuthKind)
    → a.kind ≡ k
    → elim k [ admin ↦ passed (some a) | scoped ↦ refused 403 "admin access required" ] ≡ passed c
    → (c ≡ some a) × MayPass admins a
by_kind a c admin is h = (cc, is)
by_kind a c scoped is h = absurd cc

-- The handlers that serve anyone, and those that serve the holders of a scope.
abbrev pub IsOpen : Handler → Type 0
IsOpen Handler.web_socket = Unit
IsOpen Handler.get_health = Unit
IsOpen Handler.get_stats = Unit
IsOpen _ = ⊥

abbrev pub Held : Handler → List String → Type 0
Held Handler.list_triggers scopes = Grants Scope.agent_triggers_read scopes
Held Handler.get_trigger scopes = Grants Scope.agent_triggers_read scopes
Held Handler.create_trigger scopes = Grants Scope.agent_triggers_write scopes
Held Handler.delete_trigger scopes = Grants Scope.agent_triggers_write scopes
Held _ scopes = ⊥

module _ (hash : String → String) (time : TimeFormat) (clock : ℕ) (secrets : Option (List Secret))
    (api_key header : String) (entries : Entries) where
  -- Whom a handler serves.
  abbrev pub Serves : Handler → Context → Type 0
  Serves handler c =
      IsOpen handler
      ⊎ ((a : AuthContext) × (c ≡ some a)
          × Identified hash time clock secrets api_key header entries (some a)
          × ((a.kind ≡ admin) ⊎ Held handler a.scopes))

  abbrev pub RouteServes : Route → Type 0
  RouteServes r =
      (c : Context)
      → admit hash time clock secrets r.access api_key header (some entries) ≡ passed c
      → Serves r.handler c

  module _ (keyed : (api_key == "") ≡ false) where
    identified :
        (c : Context)
        → (authenticate hash time clock secrets api_key header (some entries)).0 ≡ passed c
        → (a : AuthContext) × (c ≡ some a)
          × Identified hash time clock secrets api_key header entries (some a)
    identified none pass =
        let (token, a, same, bearer, why) =
          authenticate-Identified hash time clock secrets api_key header entries none keyed pass in
        absurd cc
    identified (some a) pass = (
      a,
      refl,
      authenticate-Identified hash time clock secrets api_key header entries (some a) keyed pass,
    )

    -- Behind `requireAdmin`.
    admins-Serves :
        (handler : Handler) (v : Verdict)
        → (authenticate hash time clock secrets api_key header (some entries)).0 ≡ v
        → (c : Context) → behind v require_admin ≡ passed c
        → Serves handler c
    unfolding behind require_admin
    admins-Serves handler (passed none) is c pass =
        let (a, same, known) = identified none is in absurd cc
    admins-Serves handler (passed (some a)) is c pass =
        let (same, may) = by_kind a c a.kind refl pass in
        let (a', same', known) = identified (some a) is in
        inr (
          a,
          same,
          authenticate-Identified hash time clock secrets api_key header entries (some a) keyed is,
          inl may,
        )
    admins-Serves handler (refused code text) is c pass = absurd cc

    -- Behind `requireScope`.
    holders-Serves :
        (handler : Handler) (s : String)
        → ((scopes : List String) → Grants s scopes → Held handler scopes)
        → (v : Verdict) → (authenticate hash time clock secrets api_key header (some entries)).0 ≡ v
        → (c : Context) → behind v (require_scope s) ≡ passed c
        → Serves handler c
    unfolding behind require_scope
    holders-Serves handler s held (passed none) is c pass =
        let (a, same, known) = identified none is in absurd cc
    holders-Serves handler s held (passed (some a)) is c pass =
        let (same, may) = by_scope s a c (has_scope a s) refl pass in
        inr (
          a,
          same,
          authenticate-Identified hash time clock secrets api_key header entries (some a) keyed is,
          elim may [ inl kind ↦ inl kind | inr grants ↦ inr (held a.scopes grants) ],
        )
    holders-Serves handler s held (refused code text) is c pass = absurd cc

    admin_route : (r : Route) → r.access ≡ admins → RouteServes r
    unfolding admit
    admin_route r is c pass = admins-Serves r.handler _ refl c (
        subst (λ x. admit hash time clock secrets x api_key header (some entries) ≡ passed c) is
          pass)

    All-admins : (rs : List Route) → All (λ r. r.access ≡ admins) rs → All RouteServes rs
    All-admins [] h = tt
    All-admins (r ∷ rs) (first, others) = (admin_route r first, All-admins rs others)

    open_routes-Serve : All RouteServes open_routes
    unfolding open_routes
    open_routes-Serve = (λ c pass. inl tt, (λ c pass. inl tt, (λ c pass. inl tt, tt)))

    admin_routes-Serve : All RouteServes admin_routes
    unfolding admin_routes
    admin_routes-Serve = All-admins admin_routes (
        (
          refl,
          (
            refl,
            (
              refl,
              (
                refl,
                (
                  refl,
                  (
                    refl,
                    (
                      refl,
                      (
                        refl,
                        (refl, (refl, (refl, (refl, (refl, (refl, (refl, (refl, (refl, tt))))))))),
                      ),
                    ),
                  ),
                ),
              ),
            ),
          ),
        ))

    trigger_routes-Serve : All RouteServes trigger_routes
    unfolding trigger_routes admit
    trigger_routes-Serve = (
      λ c pass.
          holders-Serves Handler.list_triggers Scope.agent_triggers_read (λ scopes g. g) _ refl c
            pass,
      (
        λ c pass.
            holders-Serves Handler.get_trigger Scope.agent_triggers_read (λ scopes g. g) _ refl c
              pass,
        (
          λ c pass.
              holders-Serves Handler.create_trigger Scope.agent_triggers_write (λ scopes g. g) _
                refl c pass,
          (
            λ c pass.
                holders-Serves Handler.delete_trigger Scope.agent_triggers_write (λ scopes g. g) _
                  refl c pass,
            tt,
          ),
        ),
      ),
    )

pub build_router-Serves :
    (hash : String → String) (time : TimeFormat) (clock : ℕ) (secrets : Option (List Secret))
    (api_key header : String) (entries : Entries)
    → (api_key == "") ≡ false
    → All (RouteServes hash time clock secrets api_key header entries) build_router
unfolding build_router
build_router-Serves hash time clock secrets api_key header entries keyed =
    let serves = RouteServes hash time clock secrets api_key header entries in
    All-append serves open_routes (admin_routes ++ trigger_routes)
      (open_routes-Serve hash time clock secrets api_key header entries keyed)
      (All-append serves admin_routes trigger_routes
        (admin_routes-Serve hash time clock secrets api_key header entries keyed)
        (trigger_routes-Serve hash time clock secrets api_key header entries keyed))
