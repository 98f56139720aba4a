-- ===== src/Pool/Fill.antt =====
-- How many Pods one pass of `PoolReconciler.Reconcile` creates.
use boilerhouse.Common.{
  ℕ, suc, zero, ◌+◌, ◌-◌, ◌≤◌, ◌≡◌, refl, ◌⊎◌, inl, inr, true, ◌&&◌, List, [], ◌∷◌, Option, none,
  some, ◌==◌, ltb, length, Bool-cases, arith, if◌then◌else◌,
}
use boilerhouse.Types.Workload.{Workload}
use boilerhouse.Types.Pool.{Pool}
use boilerhouse.Types.Pod.{Pod, ConfigMap}
use boilerhouse.Translate.Container.{DecodeEnv}
use boilerhouse.Translate.Objects.{ProxyConfig}
use boilerhouse.Claim.Reads
use boilerhouse.Cluster.{
  ok, event, Request, Response, Trace, call, list_pods, create_pod, update_pod, get_secret,
  generate_tls, random_suffix,
}
use boilerhouse.Translate.Build.{TranslateResult}
use boilerhouse.Cluster.Keeps.{Keeps, keeps_rules, Keeps-call, Keeps-or_wrap}
use boilerhouse.Cluster.Triple.{
  Triple, Triple-call, Triple-bind, Triple-pure, Triple-bad, Triple-post, Triple-within,
}
use boilerhouse.Pool.Reconcile.{
  pool_pods, relabel, status_of, is_pod_ready, create_config_map_of, create_pool_pod, fill,
  max_fill, can_create, fill_gap, relabeled,
}

-- The creations of Pods that a history holds.
abbrev pub creations : Trace → ℕ
creations [] = 0
creations (event (create_pod p) x ∷ t) = suc (creations t)
creations (_ ∷ t) = creations t

-- These Pods were listed.
abbrev pub Listed : List Pod → Trace → Type 0
Listed pods [] = ⊥
Listed pods (event (list_pods ns labels) (ok ps) ∷ t) = (ps ≡ pods) ⊎ Listed pods t
Listed pods (_ ∷ t) = Listed pods t

-- The Pods that are warming and are not relabelled.
abbrev pub still_warming : List Pod → ℕ
still_warming [] = 0
still_warming (p ∷ ps) =
    let rest = still_warming ps in
    if (status_of p == "warming") && is_pod_ready p
    then rest
    else if status_of p == "ready"
    then rest
    else if status_of p == "warming"
    then suc rest
    else rest

-- Other requests than the creation of a Pod.
abbrev Other : Request → Type 0
Other (create_pod p) = ⊥
Other _ = Unit

module _ (pods : List Pod) where
  abbrev pub Made : ℕ → Trace → Type 0
  Made b t = Listed pods t × (creations t ≤ b)

  Made-Other :
      (b : ℕ) (r : Request) (x : Response r) (t : Trace)
      → Other r
      → Made b t
      → Made b (event r x ∷ t)
  Made-Other b (create_pod p) x t h m = absurd h
  Made-Other b (list_pods ns labels) (ok ps) t h m = (inr m.0, m.1)
  Made-Other b _ x t h m = m

  Made-mono : (b c : ℕ) (t : Trace) → b ≤ c → Made b t → Made c t
  Made-mono b c t le m = (m.0, omega (arith, m.1, le))

  Made-Reads : (b : ℕ) → Reads.IgnoresReads (Made b)
  Made-Reads b (get_secret k) x t h m = m
  Made-Reads b (generate_tls domains) x t h m = m
  Made-Reads b _ x t h m = absurd h

module _ (pods : List Pod) (b : ℕ) where
  Keeps-Other : (r : Request) → Other r → Keeps (Made pods b) (call r)
  Keeps-Other r h = Keeps-call r (λ t x m. Made-Other pods b r x t h m)

  config_map-Made : (o : Option ConfigMap) → Keeps (Made pods b) (create_config_map_of o)
  unfolding create_config_map_of
  config_map-Made none = search keeps_rules
  config_map-Made (some cm) = search keeps_rules

module _ (pods : List Pod) (decode : DecodeEnv) (pool : Pool) (wl : Workload)
    (proxy : Option ProxyConfig) where
  create_pool_pod-Made :
      (c b : ℕ)
      → suc c ≤ b
      → Triple
          (Made pods b)
          (Made pods c)
          (λ _. Made pods (suc c))
          (create_pool_pod decode pool wl proxy)
  unfolding create_pool_pod
  create_pool_pod-Made c b le =
      let weaken : (t : Trace) → Made pods c t → Made pods b t =
        λ t. Made-mono pods c b t (omega (arith, le)) in
      Triple-bind (λ _. Made pods c) (Triple-within weaken (Keeps-Other pods c random_suffix tt))
        (λ suffix.
          Triple-bind {A = TranslateResult} (λ _. Made pods c)
            (Triple-within weaken (search keeps_rules))
            (λ result.
              Triple-bind (λ _. Made pods c)
                (Triple-within weaken (config_map-Made pods c result.config_map))
                (λ _.
                  Triple-bind (λ _. Made pods (suc c))
                    (Triple-call (create_pod result.pod) (λ t x m. (m.0, omega (arith, m.1))))
                    (λ answer.
                      Triple-within (λ t. Made-mono pods (suc c) b t le)
                        (Keeps-or_wrap "creating pool pod" answer)))))

  -- The loop makes at most as many Pods as it has rounds.
  pub fill-Made :
      (n warming c b : ℕ)
      → c + n ≤ b
      → Triple (Made pods b) (Made pods c) (λ _. Made pods b) (fill decode pool wl proxy n warming)
  unfolding fill
  fill-Made zero warming c b le =
      Triple-pure warming (λ t. Made-mono pods c b t (omega (arith, le)))
  fill-Made (suc n) warming c b le =
      Triple-bind (λ _. Made pods (suc c)) (create_pool_pod-Made c b (omega (arith, le)))
        (λ pod. fill-Made n (suc warming) (suc c) b (omega (arith, le)))

-- What a filling loop may make fits both limits, if it makes anything.
room :
    (k total size limit warming : ℕ)
    → ltb total size ≡ true
    → k ≤ can_create (size - total) limit warming
    → (k ≡ 0) ⊎ ((k + total ≤ size) × (k + warming ≤ limit))
unfolding can_create
room zero total size limit warming gap le = inl refl
room (suc k) total size limit warming gap le = inr (ground arith, ground arith)

module _ (pool : Pool) where
  -- What one pass may have done: nothing created, or no more than the Pods it listed leave room for.
  abbrev pub Bounded : Trace → Type 0
  Bounded t =
      (creations t ≡ 0)
      ⊎ ((pods : List Pod) × Listed pods t
          × (creations t + length (pool_pods pods) ≤ pool.spec.size)
          × (creations t + still_warming (pool_pods pods) ≤ max_fill pool))

  -- A listing is known and nothing has been created.
  abbrev pub Fresh : List Pod → Trace → Type 0
  Fresh pods t = Made pods 0 t

  pub Fresh-Bounded : (pods : List Pod) (t : Trace) → Fresh pods t → Bounded t
  Fresh-Bounded pods t m = inl (omega (arith, m.1))

  -- The first count of `relabel` is that of the Pods that still warm.
  pub relabel-Made :
      (pods ps : List Pod) (warming done : ℕ)
      → Triple Bounded
          (Fresh pods)
          (λ counts t. (counts.0 ≡ still_warming ps + warming) × Fresh pods t)
          (relabel ps warming done)
  unfolding relabel
  relabel-Made pods [] warming done = Triple-pure (warming, done) (λ t m. (omega arith, m))
  relabel-Made pods (p ∷ ps) warming done =
      elim (Bool-cases ((status_of p == "warming") && is_pod_ready p)) [
        | inl ready ↦ rw ready (
            Triple-bind (λ _. Fresh pods)
              (Triple-within (Fresh-Bounded pods)
                (Keeps-Other pods 0 (update_pod (relabeled p)) tt))
              (λ answer.
                Triple-bind (λ _. Fresh pods)
                  (Triple-within (Fresh-Bounded pods) (Keeps-or_wrap _ answer))
                  (λ _. relabel-Made pods ps warming (suc done))))
        | inr old ↦ rw old (elim (Bool-cases (status_of p == "ready")) [
          | inl done ↦ rw done (relabel-Made pods ps warming _)
          | inr not_done ↦ rw not_done (elim (Bool-cases (status_of p == "warming")) [
            | inl warms ↦ rw warms (
                Triple-post (λ counts t h. (omega (arith, h.0), h.1))
                  (relabel-Made pods ps (suc warming) done))
            | inr other ↦ rw other (relabel-Made pods ps warming done)
          ])
        ])
      ]

  module _ (pods : List Pod) where
    Made-Bounded :
        (warming : ℕ) (t : Trace)
        → ltb (length (pool_pods pods)) pool.spec.size ≡ true
        → warming ≡ still_warming (pool_pods pods)
        → Made pods
            (can_create (pool.spec.size - length (pool_pods pods)) (max_fill pool) warming)
            t
        → Bounded t
    Made-Bounded warming t gap same m =
        elim (room (creations t) (length (pool_pods pods)) pool.spec.size (max_fill pool) warming
          gap m.1) [
            | inl none_made ↦ inl none_made
            | inr fits ↦ inr (pods, m.0, fits.0, omega (arith, fits.1, same))
          ]

    pub fill_gap-Bounded :
        (decode : DecodeEnv) (wl : Workload) (warming : ℕ)
        → warming ≡ still_warming (pool_pods pods)
        → Triple Bounded
            (Fresh pods)
            (λ _. Bounded)
            (fill_gap decode pool wl (length (pool_pods pods)) warming)
    unfolding fill_gap
    fill_gap-Bounded decode wl warming same =
        elim (Bool-cases (ltb (length (pool_pods pods)) pool.spec.size)) [
          | inl gap ↦ rw gap (
              Triple-bind (λ _. Fresh pods)
                (Triple-within (Fresh-Bounded pods)
                  (Reads.proxy_config_for-Keeps (Made-Reads pods 0) _ _ wl.spec.network))
                (λ proxy.
                  Triple-bad (λ t. Made-Bounded warming t gap same)
                    (Triple-post (λ _ t. Made-Bounded warming t gap same)
                      (fill-Made pods decode pool wl proxy
                        (can_create (pool.spec.size - length (pool_pods pods)) (max_fill pool)
                          warming)
                        warming 0 _ (omega arith)))))
          | inr full ↦ rw full (Triple-pure warming (Fresh-Bounded pods))
        ]
