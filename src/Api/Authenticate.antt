-- ===== src/Api/Authenticate.antt =====
-- `authMiddleware` of go/internal/api/server.go.
use Prim.Native.Char.{Char, code}
use Prim.Native.String.append
use Prim.Native.String.{String, [] as empty, ◌∷◌ as ◌:>◌}
use text.Mathlib.TextEquality.{codes_equal}
use boilerhouse.Common.{
  ℕ, Bool, true, false, List, [], Option, none, some, ◌==◌, ◌<>◌, ◌≡◌, refl, arith, ==_self,
  ==_sound, ◌⊎◌, inl, inr, nat_eq, if◌then◌else◌,
}
use boilerhouse.Common.Split.{after_prefix}
use boilerhouse.Common.Time.{TimeFormat}
use boilerhouse.Types.Pod.{Secret}
use boilerhouse.Api.Auth.{AuthContext, admin, Context, Verdict, passed, refused}
use boilerhouse.Api.TokenStore.{Entries, find_token}

or_whole : String → Option String → String
or_whole s none = s
or_whole s (some rest) = rest

-- `strings.TrimPrefix`
unfoldable pub trim_prefix : String → String → String
unfolding or_whole
trim_prefix s p = or_whole s (after_prefix p s)

abbrev pub admin_context : AuthContext
admin_context = record { kind = admin; tenant_id = ""; workload = ""; claim_id = ""; scopes = [] }

unfoldable pub scoped_answer : Context × Entries → Verdict × Option Entries
scoped_answer (none, later) = (refused 401 "invalid API key", some later)
scoped_answer (some a, later) = (passed (some a), some later)

module _ (hash : String → String) (time : TimeFormat) (clock : ℕ)
    (secrets : Option (List Secret)) where
  -- `s.tokens` may be nil.
  unfoldable pub scoped_path : String → Option Entries → Verdict × Option Entries
  unfolding scoped_answer
  scoped_path token none = (refused 401 "invalid API key", none)
  scoped_path token (some entries) =
      scoped_answer (find_token hash time clock secrets token entries)

  -- The header is empty where it is missing.
  unfoldable pub authenticate : String → String → Option Entries → Verdict × Option Entries
  unfolding scoped_path trim_prefix
  authenticate api_key header tokens =
      let token = trim_prefix header "Bearer " in
      if api_key == ""
      then (passed none, tokens)
      else if header == ""
      then (refused 401 "missing Authorization header", tokens)
      else if token == header
      then (refused 401 "missing Authorization header", tokens)
      else if token == api_key
      then (passed (some admin_context), tokens)
      else scoped_path token tokens

equal_chars : (c d : Char) → nat_eq (code c) (code d) ≡ true → c ≡ d
equal_chars c d h = codes_equal c d (ground arith)

after_prefix-append : (p s r : String) → after_prefix p s ≡ some r → s ≡ p <> r
unfolding after_prefix
after_prefix-append empty s r h = rw append.nil cc
after_prefix-append (c :> p) empty r h = absurd cc
after_prefix-append (c :> p) (d :> s) r h =
    go (after_prefix-append p s r) (nat_eq (code c) (code d)) refl h
  where
    go :
        (after_prefix p s ≡ some r → s ≡ p <> r)
        → (b : Bool) → nat_eq (code c) (code d) ≡ b
        → (if b then after_prefix p s else none) ≡ some r
        → (d :> s) ≡ (c :> p) <> r
    go tail_of true same found =
        let front : c ≡ d = equal_chars c d same in
        let tail : s ≡ p <> r = tail_of found in rw append.cons cc
    go tail_of false other found = absurd cc

or_whole_cases :
    (s p : String) (o : Option String)
    → after_prefix p s ≡ o
    → (or_whole s o ≡ s) ⊎ (s ≡ p <> or_whole s o)
unfolding or_whole
or_whole_cases s p none h = inl refl
or_whole_cases s p (some rest) h = inr (after_prefix-append p s rest h)

-- A prefix that is there is taken off, and one that is not leaves the text.
trim_cases : (s p : String) → (trim_prefix s p ≡ s) ⊎ (s ≡ p <> trim_prefix s p)
unfolding trim_prefix
trim_cases s p = or_whole_cases s p (after_prefix p s) refl

-- Whom a request is taken for, and why.
module _ (hash : String → String) (time : TimeFormat) (clock : ℕ)
    (secrets : Option (List Secret)) where
  abbrev pub Identified : String → String → Entries → Context → Type 0
  Identified api_key header entries c =
      (token : String) × (a : AuthContext) × (c ≡ some a)
      × (header ≡ "Bearer " <> token)
      × (((token ≡ api_key) × (a ≡ admin_context))
          ⊎ ((find_token hash time clock secrets token entries).0 ≡ some a))

  scoped-Identified :
      (api_key header token : String) (entries : Entries) (c : Context) (o : Context × Entries)
      → find_token hash time clock secrets token entries ≡ o
      → header ≡ "Bearer " <> token
      → (scoped_answer o).0 ≡ passed c
      → Identified api_key header entries c
  unfolding scoped_answer
  scoped-Identified api_key header token entries c (none, later) found behind pass = absurd cc
  scoped-Identified api_key header token entries c (some a, later) found behind pass =
      (token, a, cc, behind, inr (rw found refl))

  by_tests :
      (api_key header : String) (entries : Entries) (c : Context)
      → (api_key == "") ≡ false
      → (token : String) → (token ≡ header) ⊎ (header ≡ "Bearer " <> token)
      → (open_mode missing bare is_key : Bool) → (api_key == "") ≡ open_mode
      → (header == "") ≡ missing
      → (token == header) ≡ bare
      → (token == api_key) ≡ is_key
      → (if open_mode
          then (passed none, some entries)
          else if missing
          then (refused 401 "missing Authorization header", some entries)
          else if bare
          then (refused 401 "missing Authorization header", some entries)
          else if is_key
          then (passed (some admin_context), some entries)
          else scoped_path hash time clock secrets token (some entries)).0
        ≡ passed c
      → Identified api_key header entries c
  unfolding scoped_path
  by_tests api_key header entries c keyed token cut true missing bare is_key z m u k pass =
      absurd cc
  by_tests api_key header entries c keyed token cut false true bare is_key z m u k pass = absurd cc
  by_tests api_key header entries c keyed token cut false false true is_key z m u k pass = absurd cc
  by_tests api_key header entries c keyed token (inl whole) false false false is_key z m u k pass =
      let same : (token == header) ≡ true = rw whole (==_self header) in absurd cc
  by_tests api_key header entries c keyed token (inr cut) false false false true z m u k pass =
      (token, admin_context, cc, cut, inl (==_sound token api_key k, refl))
  by_tests api_key header entries c keyed token (inr cut) false false false false z m u k pass =
      scoped-Identified api_key header token entries c
        (find_token hash time clock secrets token entries) refl cut pass

pub authenticate-Identified :
    (hash : String → String) (time : TimeFormat) (clock : ℕ) (secrets : Option (List Secret))
    (api_key header : String) (entries : Entries) (c : Context)
    → (api_key == "") ≡ false
    → (authenticate hash time clock secrets api_key header (some entries)).0 ≡ passed c
    → Identified hash time clock secrets api_key header entries c
unfolding authenticate
authenticate-Identified hash time clock secrets api_key header entries c keyed pass =
    by_tests hash time clock secrets api_key header entries c keyed (trim_prefix header "Bearer ")
      (trim_cases header "Bearer ") (api_key == "") (header == "")
      (trim_prefix header "Bearer " == header) (trim_prefix header "Bearer " == api_key) refl refl
      refl refl pass
