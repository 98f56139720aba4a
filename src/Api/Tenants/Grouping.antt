-- ===== src/Api/Tenants/Grouping.antt =====
-- The groups that `listTenants` makes, against a filter of the claims by their tenant.
use mathlib.Core.List.{append-nil, append_assoc}
use boilerhouse.Common.{
  String, Bool, true, false, List, [], ◌∷◌, ◌++◌, some, ◌==◌, ◌≡◌, refl, ap, sym, ◌∙◌, ==_sound,
  if◌then◌else◌,
}
use boilerhouse.Common.Dict.{Dict, lookup, insert, lookup-insert}
use boilerhouse.Types.Claim.{Claim}
use boilerhouse.Api.Reply.{Server}
use boilerhouse.Api.Tenants.{ClaimResponse, to_claim_response, held, group_of, group_claims}

-- The claims of one tenant, in the order of the list.
abbrev pub of_tenant : Server → String → List Claim → List ClaimResponse
of_tenant s tid [] = []
of_tenant s tid (c ∷ cs) =
    let others = of_tenant s tid cs in
    if c.spec.tenant_id == tid then to_claim_response s c ∷ others else others

group-insert :
    (tid asked : String) (claims : List ClaimResponse) (groups : Dict (List ClaimResponse))
    → group_of asked (insert tid claims groups)
      ≡ (if tid == asked then claims else group_of asked groups)
unfolding group_of
group-insert tid asked claims groups =
    ap held (lookup-insert tid asked claims groups) ∙ go (tid == asked)
  where
    go :
        (b : Bool)
        → held (if b then some claims else lookup asked groups)
          ≡ (if b then claims else held (lookup asked groups))
    go true = refl
    go false = refl

-- One round of the loop.
step :
    (asked tid : String) (shown : ClaimResponse) (groups : Dict (List ClaimResponse))
    (others : List ClaimResponse) (b : Bool)
    → (tid == asked) ≡ b
    → group_of asked (insert tid (group_of tid groups ++ (shown ∷ [])) groups) ++ others
      ≡ group_of asked groups ++ (if b then shown ∷ others else others)
step asked tid shown groups others true same =
    let equal : tid ≡ asked = ==_sound tid asked same in
    rw (group-insert, same, equal) (append_assoc (group_of asked groups) (shown ∷ []) others)
step asked tid shown groups others false other = rw (group-insert, other) refl

grouped :
    (s : Server) (asked : String) (cs : List Claim) (groups : Dict (List ClaimResponse))
    → group_of asked (group_claims s groups cs) ≡ group_of asked groups ++ of_tenant s asked cs
unfolding group_claims
grouped s asked [] groups = sym (append-nil (group_of asked groups))
grouped s asked (c ∷ cs) groups =
    grouped s asked cs _
    ∙ step asked c.spec.tenant_id (to_claim_response s c) groups (of_tenant s asked cs) _ refl

pub group_claims-of_tenant :
    (s : Server) (tenant : String) (cs : List Claim)
    → group_of tenant (group_claims s [] cs) ≡ of_tenant s tenant cs
unfolding group_of lookup
group_claims-of_tenant s tenant cs = grouped s tenant cs []
