-- ===== src/Trigger/Clearing.antt =====
-- What the guards of an event let through, and the chain of them.
use boilerhouse.Common.{
  ℕ, String, Bool, true, false, List, [], ◌∷◌, Option, none, some, ◌≡◌, refl, ap, inl, inr, ◌==◌,
  nat_eq, Bool-cases, arith,
}
use boilerhouse.Types.Meta.{Key}
use boilerhouse.Types.Claim.{Claim}
use boilerhouse.Trigger.Guards.{
  Guard, ApiGuard, allowlist, api_guard, listed, check_allowlist, body_verdict, by_code,
  reply_verdict, check_api, check, if_passed, run_guards,
}
use boilerhouse.Trigger.Gateway.{active_url}
use boilerhouse.Cluster.{
  Error, Result, ok, err, GuardReply, replied, event, Had, Request, Response, Trace, get_claim,
  create_claim, delete_claim, send_event, call_guard,
}
use boilerhouse.Cluster.Triple.{
  Triple, Triple-call, Triple-bind, Triple-pure, Triple-pre, Triple-post, Triple-raise,
}

module _ (tenant : String) where
  -- The guard has let the tenant through: it lists the tenant, or works and was told to allow.
  abbrev pub Cleared : Guard → Trace → Type 0
  Cleared (allowlist ids deny) t = listed tenant ids ≡ true
  Cleared (api_guard g) t =
      ((g.misconfigured == "") ≡ true)
      × ((reason : String) × Had
            (event (call_guard g.url tenant) (ok (replied 200 (ok (some true, reason))))) t)

  abbrev pub ClearedAll : List Guard → Trace → Type 0
  ClearedAll [] t = Unit
  ClearedAll (g ∷ gs) t = Cleared g t × ClearedAll gs t

  Cleared-cons :
      (g : Guard) (q : Request) (x : Response q) (t : Trace)
      → Cleared g t
      → Cleared g (event q x ∷ t)
  Cleared-cons (allowlist ids deny) q x t h = h
  Cleared-cons (api_guard g) q x t (works, (reason, had)) = (works, (reason, inr had))

  pub ClearedAll-cons :
      (gs : List Guard) (q : Request) (x : Response q) (t : Trace)
      → ClearedAll gs t
      → ClearedAll gs (event q x ∷ t)
  ClearedAll-cons [] q x t h = tt
  ClearedAll-cons (g ∷ gs) q x t (h, hs) = (Cleared-cons g q x t h, ClearedAll-cons gs q x t hs)

  -- A reply that lets through is a plain yes.
  by_code_yes :
      (code : ℕ) (body : Result (Option Bool × String)) (b : Bool)
      → nat_eq code 200 ≡ b
      → by_code code body b ≡ none
      → (reason : String) × (ok (replied code body) ≡ ok (replied 200 (ok (some true, reason))))
  unfolding by_code body_verdict
  by_code_yes code body false differs h = absurd cc
  by_code_yes code (err e) true same h = absurd cc
  by_code_yes code (ok (none, reason)) true same h = absurd cc
  by_code_yes code (ok (some false, reason)) true same h = absurd cc
  by_code_yes code (ok (some true, reason)) true same h =
      let is_200 : code ≡ 200 = ground arith in (reason, rw is_200)

  plain_yes :
      (x : Result GuardReply)
      → reply_verdict x ≡ none
      → (reason : String) × (x ≡ ok (replied 200 (ok (some true, reason))))
  unfolding reply_verdict
  plain_yes (err e) h = absurd cc
  plain_yes (ok (replied code body)) h = by_code_yes code body (nat_eq code 200) refl h

  module _ (key : Key) (guards : List Guard) where
    -- The claim was read active at this URL.
    abbrev pub Reached : String → Trace → Type 0
    Reached url t =
        (claim : Claim) × Had (event (get_claim key) (ok claim)) t
        × (active_url claim.status ≡ some url)

    -- Claims are made and ended, and events are sent, only once the guards have let the tenant through; a claim
    -- is made for the tenant, and an event is sent for the tenant and to a claim that was read active.
    abbrev pub Guarded : Trace → Type 0
    Guarded [] = Unit
    Guarded (event (create_claim c) x ∷ t) =
        (c.spec.tenant_id ≡ tenant) × ClearedAll guards t × Guarded t
    Guarded (event (delete_claim c) x ∷ t) = ClearedAll guards t × Guarded t
    Guarded (event (send_event url who) x ∷ t) =
        (who ≡ tenant) × Reached url t × ClearedAll guards t × Guarded t
    Guarded (_ ∷ t) = Guarded t

    -- What a check says.
    abbrev Judged : Guard → Option Error → Trace → Type 0
    Judged g none t = Cleared g t
    Judged g (some e) t = Unit

    allow-Judged :
        (ids : List String) (deny : String) (b : Bool)
        → listed tenant ids ≡ b
        → (t : Trace) → Judged (allowlist ids deny) (check_allowlist ids deny tenant) t
    unfolding check_allowlist
    allow-Judged ids deny true is t = rw is is
    allow-Judged ids deny false is t = rw is tt

    api-Judged :
        (g : ApiGuard)
        → (g.misconfigured == "") ≡ true
        → (t : Trace) (x : Result GuardReply) (o : Option Error) → reply_verdict x ≡ o
        → Judged (api_guard g) o (event (call_guard g.url tenant) x ∷ t)
    api-Judged g works t x none allowed =
        let plain : (reason : String) × (x ≡ ok (replied 200 (ok (some true, reason)))) =
          plain_yes x allowed in
        (works, (plain.0, inl (ap (λ y. event (call_guard g.url tenant) y) plain.1)))
    api-Judged g works t x (some e) denied = tt

    -- Guards that have let the tenant through, and a guarded history.
    abbrev pub Past : List Guard → Trace → Type 0
    Past gs t = ClearedAll gs t × Guarded t

    check-Judged :
        (past : List Guard) (g : Guard)
        → Triple Guarded (Past past) (λ o t. Judged g o t × Past past t) (check g tenant)
    unfolding check check_api
    check-Judged past (allowlist ids deny) =
        Triple-pure (check_allowlist ids deny tenant)
          (λ t h. (allow-Judged ids deny (listed tenant ids) refl t, h))
    check-Judged past (api_guard g) = elim (Bool-cases (g.misconfigured == "")) [
      | inl works ↦ rw works (
          Triple-bind (λ x t. Judged (api_guard g) (reply_verdict x) t × Past past t)
            (Triple-call (call_guard g.url tenant) (λ t x h. (
              api-Judged g works t x (reply_verdict x) refl,
              (ClearedAll-cons past (call_guard g.url tenant) x t h.0, h.1),
            )))
            (λ x. Triple-pure (reply_verdict x) (λ t h. h)))
      | inr broken ↦ rw broken (Triple-pure _ (λ t h. (tt, h)))
    ]

    passed-ClearedAll :
        (past : List Guard) (g : Guard) (gs : List Guard)
        → Triple Guarded
            (Past (g ∷ past))
            (λ _ t. ClearedAll gs t × Past (g ∷ past) t)
            (run_guards gs tenant)
        → (o : Option Error)
        → Triple Guarded
            (λ t. Judged g o t × Past past t)
            (λ _ t. ClearedAll (g ∷ gs) t × Past past t)
            (if_passed o (run_guards gs tenant))
    unfolding if_passed
    passed-ClearedAll past g gs next none =
        Triple-post (λ _ t h. ((h.1.0.0, h.0), (h.1.0.1, h.1.1)))
          (Triple-pre (λ t h. ((h.0, h.1.0), h.1.1)) next)
    passed-ClearedAll past g gs next (some e) = Triple-raise _ (λ t h. h.1.1)

    -- The chain ends well only if every guard lets the tenant through.
    pub run_guards-ClearedAll :
        (past rest : List Guard)
        → Triple Guarded
            (Past past)
            (λ _ t. ClearedAll rest t × Past past t)
            (run_guards rest tenant)
    unfolding run_guards
    run_guards-ClearedAll past [] = Triple-pure tt (λ t h. (tt, h))
    run_guards-ClearedAll past (g ∷ gs) =
        Triple-bind (λ o t. Judged g o t × Past past t) (check-Judged past g)
          (λ o. passed-ClearedAll past g gs (run_guards-ClearedAll (g ∷ past) gs) o)
