-- ===== src/Api/Claims/Acquiring.antt =====
-- What `acquireClaim` may do to the claims of the cluster.
use boilerhouse.Common.{String, Bool, List, [], ◌∷◌, Option, ◌≡◌, refl, ◌⊎◌, inl}
use boilerhouse.Types.Meta.{Key}
use boilerhouse.Types.Claim.{Claim, Phase, active, released}
use boilerhouse.Cluster.{
  Trace, event, Result, ok, err, get_claim, update_claim, update_claim_status, delete_claim,
  create_claim, now, sleep,
}
use boilerhouse.Cluster.Keeps.{
  Keeps, keeps_rules, Keeps-call, Keeps-pure, Keeps-bind, Keeps-succeed_or_wrap,
}
use boilerhouse.Cluster.Triple.{
  Triple, Triple-Keeps, Keeps-Triple, Triple-call, Triple-bind, Triple-pure, Triple-pre,
  Triple-within,
}
use boilerhouse.Api.Reply.{Server}
use boilerhouse.Api.Claims.{
  claim_name, claim_key, no_status, fresh_claim, create_fresh, clear_finalizers, revive, by_phase,
  by_answer, acquire_claim,
}

-- The claim, but for its finalizers, was read as released under the key.
abbrev pub WasReleased : Key → Claim → Trace → Type 0
WasReleased k c [] = ⊥
WasReleased k c (event (get_claim j) (ok r) ∷ t) =
    ((j ≡ k)
      × (r.status.phase ≡ released)
      × (c ≡ record r { meta = record (r.meta) { finalizers = [] } }))
    ⊎ WasReleased k c t
WasReleased k c (_ ∷ t) = WasReleased k c t

module _ (s : Server) (tenant workload : String) (resume : Option Bool) where
  abbrev key : Key
  key = claim_key s (claim_name tenant workload)

  -- A claim as it is created.
  abbrev pub IsFresh : Claim → Type 0
  IsFresh c =
      (c.meta.name ≡ claim_name tenant workload)
      × (c.meta.namespace ≡ s.namespace)
      × (c.spec.tenant_id ≡ tenant)
      × (c.spec.workload_ref ≡ workload)
      × (c.spec.resume ≡ resume)
      × (c.status ≡ no_status)

  abbrev pub Careful : Trace → Type 0
  Careful [] = Unit
  Careful (event (update_claim c) x ∷ t) = WasReleased key c t × Careful t
  Careful (event (delete_claim c) x ∷ t) = WasReleased key c t × Careful t
  Careful (event (create_claim c) x ∷ t) = IsFresh c × Careful t
  Careful (event (update_claim_status c) x ∷ t) = ⊥
  Careful (_ ∷ t) = Careful t

  create_fresh-Careful : Keeps Careful (create_fresh s tenant workload resume)
  unfolding create_fresh fresh_claim claim_key
  create_fresh-Careful = Keeps-bind _ _ (Keeps-call now (λ t x h. h)) (λ clock.
      Keeps-bind _ _
        (Keeps-call (create_claim _) (λ t x h. ((refl, refl, refl, refl, refl, refl), h)))
        (λ outcome. search keeps_rules))

  -- The claim is known as released.
  abbrev Known : Claim → Trace → Type 0
  Known c t = WasReleased key c t × Careful t

  clear-Known :
      (c : Claim) (finalizers : List String) → Keeps (Known c) (clear_finalizers c finalizers)
  unfolding clear_finalizers
  clear-Known c [] = Keeps-pure tt
  clear-Known c (f ∷ fs) =
      Keeps-bind _ _ (Keeps-call (update_claim c) (λ t x h. (h.0, h)))
        (λ outcome. Keeps-succeed_or_wrap _ outcome)

  revive-Careful :
      (r : Claim)
      → Triple Careful
          (Known (record r { meta = record (r.meta) { finalizers = [] } }))
          (λ _. Careful)
          (revive s tenant workload resume r)
  unfolding revive
  revive-Careful r =
      Triple-bind (λ _. Known _) (Triple-within (λ t h. h.1) (clear-Known _ r.meta.finalizers))
        (λ _.
          Triple-bind (λ _. Careful) (Triple-call (delete_claim _) (λ t x h. h))
            (λ outcome.
              Triple-bind (λ _. Careful) (Triple-Keeps (Keeps-succeed_or_wrap _ _))
                (λ _.
                  Triple-bind (λ _. Careful) (Triple-call (sleep _) (λ t x h. h))
                    (λ slept. Triple-Keeps create_fresh-Careful))))

  -- What the answer says of the history.
  abbrev ReadAs : Result Claim → Trace → Type 0
  ReadAs (ok r) t =
      (r.status.phase ≡ released
        → WasReleased key (record r { meta = record (r.meta) { finalizers = [] } }) t)
      × Careful t
  ReadAs (err e) t = Careful t

  by_phase-Careful :
      (r : Claim) (p : Phase)
      → r.status.phase ≡ p
      → Triple Careful (ReadAs (ok r)) (λ _. Careful) (by_phase s tenant workload resume r p)
  unfolding by_phase
  by_phase-Careful r released is = Triple-pre (λ t h. (h.0 is, h.1)) (revive-Careful r)
  by_phase-Careful r active is = Triple-pure _ (λ t h. h.1)
  by_phase-Careful r _ is = Triple-pre (λ t h. h.1) (Triple-Keeps create_fresh-Careful)

  by_answer-Careful :
      (x : Result Claim)
      → Triple Careful (ReadAs x) (λ _. Careful) (by_answer s tenant workload resume x)
  unfolding by_answer
  by_answer-Careful (err e) = Triple-Keeps create_fresh-Careful
  by_answer-Careful (ok r) = by_phase-Careful r r.status.phase refl

  read_event : (t : Trace) (x : Result Claim) → Careful t → ReadAs x (event (get_claim key) x ∷ t)
  read_event t (ok r) h = (λ is. inl (refl, is, refl), h)
  read_event t (err e) h = h

  pub acquire-Careful : Keeps Careful (acquire_claim s tenant workload resume)
  unfolding acquire_claim
  acquire-Careful =
      Keeps-Triple (Triple-bind ReadAs (Triple-call (get_claim key) read_event) by_answer-Careful)
