-- ===== src/Api/Issued.antt =====
-- The Secrets behind the entries of the token store: those that were delivered, and those that are listed.
use boilerhouse.Common.{
  ℕ, String, Bool, true, false, List, [], ◌∷◌, Option, none, some, ◌==◌, ◌≡◌, refl, ◌⊎◌, inl, inr,
  ==_sound, if◌then◌else◌,
}
use boilerhouse.Common.Dict.{insert}
use boilerhouse.Common.Time.{TimeFormat}
use boilerhouse.Types.Pod.{Secret}
use boilerhouse.Api.Auth.{AuthContext, Context}
use boilerhouse.Api.TokenStore.{
  TokenEntry, Entries, token_of, secret_to_auth, cold_scan, cold_lookup, is_expired,
}
use boilerhouse.Api.History.{Change, added, updated, deleted, counted, newest}

-- The Secret was delivered as added or updated.
abbrev pub Delivered : Secret → List Change → Type 0
Delivered s [] = ⊥
Delivered s (added r ∷ cs) = (r ≡ s) ⊎ Delivered s cs
Delivered s (updated r ∷ cs) = (r ≡ s) ⊎ Delivered s cs
Delivered s (deleted r ∷ cs) = Delivered s cs

abbrev pub Among : Secret → List Secret → Type 0
Among s [] = ⊥
Among s (r ∷ rs) = (r ≡ s) ⊎ Among s rs

abbrev pub Answered : Secret → Option (List Secret) → Type 0
Answered s none = ⊥
Answered s (some secrets) = Among s secrets

module _ (hash : String → String) (time : TimeFormat) (token : String) where
  -- The Secret holds the token and makes the entry.
  abbrev pub Makes : Secret → TokenEntry → Type 0
  Makes s entry = (token_of s ≡ some token) × (secret_to_auth time s ≡ entry)

  counted-Makes :
      (s : Secret) (o : Option String) (older : Option TokenEntry) (entry : TokenEntry)
      → token_of s ≡ o
      → counted hash time token o (some (secret_to_auth time s)) older ≡ some entry
      → Makes s entry ⊎ (older ≡ some entry)
  counted-Makes s none older entry has is = inr is
  counted-Makes s (some raw) older entry has is = go (raw == token) refl is
    where
      go :
          (b : Bool)
          → (raw == token) ≡ b
          → (if b then some (secret_to_auth time s) else older) ≡ some entry
          → Makes s entry ⊎ (older ≡ some entry)
      go true same found = let equal : raw ≡ token = ==_sound raw token same in inl (cc, cc)
      go false other found = inr found

  counted_older :
      (o : Option String) (older : Option TokenEntry) (entry : TokenEntry)
      → counted hash time token o none older ≡ some entry
      → older ≡ some entry
  counted_older none older entry is = is
  counted_older (some raw) older entry is = go (raw == token) is
    where
      go : (b : Bool) → (if b then none else older) ≡ some entry → older ≡ some entry
      go true found = absurd cc
      go false found = found

  pub newest-Delivered :
      (cs : List Change) (entry : TokenEntry)
      → newest hash time token cs ≡ some entry
      → (s : Secret) × Delivered s cs × Makes s entry
  newest-Delivered [] entry is = absurd cc
  newest-Delivered (added r ∷ cs) entry is =
      elim (counted-Makes r (token_of r) (newest hash time token cs) entry refl is) [
        | inl makes ↦ (r, inl refl, makes)
        | inr older ↦
            let (s, delivered, makes) = newest-Delivered cs entry older in (s, inr delivered, makes)
      ]
  newest-Delivered (updated r ∷ cs) entry is =
      elim (counted-Makes r (token_of r) (newest hash time token cs) entry refl is) [
        | inl makes ↦ (r, inl refl, makes)
        | inr older ↦
            let (s, delivered, makes) = newest-Delivered cs entry older in (s, inr delivered, makes)
      ]
  newest-Delivered (deleted r ∷ cs) entry is =
      newest-Delivered cs entry (counted_older (token_of r) (newest hash time token cs) entry is)

  -- The Secret holds the token, has not expired, and stands for the caller.
  abbrev pub StandsFor : ℕ → Secret → AuthContext → Type 0
  StandsFor clock s a =
      (token_of s ≡ some token)
      × (is_expired hash time clock (secret_to_auth time s).expires_at ≡ false)
      × ((secret_to_auth time s).auth ≡ a)

  -- The two answers of the cold path for a Secret with the token.
  abbrev unless_old : Bool → Entries → Entries → AuthContext → Context × Entries
  unless_old old entries kept a = if old then (none, entries) else (some a, kept)

  abbrev on_token :
      ℕ
      → Secret
      → Entries
      → (String → Entries)
      → Context × Entries
      → Option String
      → Context × Entries
  on_token clock s entries kept further o = elim o [
    | none ↦ further
    | some raw ↦
        if raw == token
        then unless_old (is_expired hash time clock (secret_to_auth time s).expires_at) entries
            (kept raw) (secret_to_auth time s).auth
        else further
  ]

  valid_entry :
      (clock : ℕ) (s : Secret) (entries kept : Entries) (a : AuthContext) (old : Bool)
      → is_expired hash time clock (secret_to_auth time s).expires_at ≡ old
      → token_of s ≡ some token
      → (unless_old old entries kept (secret_to_auth time s).auth).0 ≡ some a
      → StandsFor clock s a
  valid_entry clock s entries kept a true past has is = absurd cc
  valid_entry clock s entries kept a false valid has is = (has, valid, cc)

  -- One step of the scan: the Secret stands for the caller, or the rest of the list answers.
  scan_step :
      (clock : ℕ) (s : Secret) (entries : Entries) (kept : String → Entries)
      (further : Context × Entries) (a : AuthContext) (o : Option String)
      → token_of s ≡ o
      → (on_token clock s entries kept further o).0 ≡ some a
      → StandsFor clock s a ⊎ (further.0 ≡ some a)
  scan_step clock s entries kept further a none has is = inr is
  scan_step clock s entries kept further a (some raw) has is = go (raw == token) refl is
    where
      go :
          (b : Bool)
          → (raw == token) ≡ b
          → (if b
              then unless_old
                  (is_expired hash time clock (secret_to_auth time s).expires_at)
                  entries
                  (kept raw)
                  (secret_to_auth time s).auth
              else further).0
            ≡ some a
          → StandsFor clock s a ⊎ (further.0 ≡ some a)
      go true same found =
          let equal : raw ≡ token = ==_sound raw token same in
          let holds : token_of s ≡ some token = cc in
          inl (
            valid_entry clock s entries (kept raw) a
              (is_expired hash time clock (secret_to_auth time s).expires_at) refl holds found)
      go false other found = inr found

  cold_scan-Among :
      (clock : ℕ) (entries : Entries) (secrets : List Secret) (a : AuthContext)
      → (cold_scan hash time clock token entries secrets).0 ≡ some a
      → (s : Secret) × Among s secrets × StandsFor clock s a
  unfolding cold_scan
  cold_scan-Among clock entries [] a is = absurd cc
  cold_scan-Among clock entries (r ∷ rest) a is =
      elim (scan_step clock r entries (λ raw. insert (hash raw) (secret_to_auth time r) entries)
        (cold_scan hash time clock token entries rest) a (token_of r) refl is) [
          | inl stands ↦ (r, inl refl, stands)
          | inr further ↦
              let (s, among, stands) = cold_scan-Among clock entries rest a further in
              (s, inr among, stands)
        ]

  pub cold_lookup-Answered :
      (clock : ℕ) (entries : Entries) (secrets : Option (List Secret)) (a : AuthContext)
      → (cold_lookup hash time clock secrets token entries).0 ≡ some a
      → (s : Secret) × Answered s secrets × StandsFor clock s a
  unfolding cold_lookup
  cold_lookup-Answered clock entries none a is = absurd cc
  cold_lookup-Answered clock entries (some secrets) a is =
      cold_scan-Among clock entries secrets a is
