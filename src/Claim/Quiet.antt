-- ===== src/Claim/Quiet.antt =====
-- The steps that write no claim and delete no Pod keep every property of the history that looks at
-- nothing else.
use boilerhouse.Common.{ℕ, String, List, [], ◌∷◌, Option, none, some, Bool, true}
use boilerhouse.Types.Workload.{Workload, WorkloadNetwork, IdleAction, hibernate, destroy}
use boilerhouse.Types.Claim.{Claim}
use boilerhouse.Types.Pod.{Pod, ConfigMap, Secret}
use boilerhouse.Cluster.{
  M, Error, Result, ok, err, Trace, event, Request, Response, call, delete_pod, get_secret,
  generate_tls, update_claim, update_claim_status, delete_claim, create_claim, extract_and_store,
}
use boilerhouse.Cluster.Keeps.{Keeps, keeps_rules, Keeps-call, Keeps-bind}
use boilerhouse.Claim.Reconciler.{Reconciler}
use boilerhouse.Claim.Token.{
  ensure_claim_token, delete_claim_token, create_token, created, reuse_or_create,
}
use boilerhouse.Claim.Release.{
  Extracted, find_tenant_pod, find_pool_pod, retry, extract_loop, extract_with_retry, extract_dirs,
  extract_of, extract_first, delete_stored, remove_pod,
}
use boilerhouse.Claim.Deletion.{extract_before_deletion}
use boilerhouse.Claim.Pods.{
  inject, restore_snapshot, proxy_config_for, create_proxy_config_map, create_tenant_pod,
}
use boilerhouse.Claim.Reads
use boilerhouse.Claim.Reads.{IgnoresReads}

-- Every request but the writes of claims and the deletion of Pods.
abbrev pub Quiet : Request → Type 0
Quiet (update_claim _) = ⊥
Quiet (update_claim_status _) = ⊥
Quiet (create_claim _) = ⊥
Quiet (delete_claim _) = ⊥
Quiet (delete_pod _) = ⊥
Quiet _ = Unit

-- `P` looks at no other request.
abbrev pub IgnoresQuiet : (Trace → Type 0) → Type 0
IgnoresQuiet P = (r : Request) (x : Response r) (t : Trace) → Quiet r → P t → P (event r x ∷ t)

module _ {P : Trace → Type 0} (q : IgnoresQuiet P) where
  ignores_reads : IgnoresReads P
  ignores_reads (get_secret k) x t h p = q (get_secret k) x t tt p
  ignores_reads (generate_tls domains) x t h p = q (generate_tls domains) x t tt p
  ignores_reads _ x t h p = absurd h

  pub Keeps-Quiet : (r : Request) → Quiet r → Keeps P (call r)
  Keeps-Quiet r h = Keeps-call r (λ t x p. q r x t h p)

  pub delete_stored-Keeps :
      (r : Reconciler) (action : IdleAction) (claim : Claim)
      → Keeps P (delete_stored r action claim)
  unfolding delete_stored
  delete_stored-Keeps r destroy claim = search (keeps_rules, Keeps-Quiet)
  delete_stored-Keeps r _ claim = search keeps_rules

  pub delete_claim_token-Keeps : (claim : Claim) → Keeps P (delete_claim_token claim)
  unfolding delete_claim_token
  delete_claim_token-Keeps claim = search (keeps_rules, Keeps-Quiet)

  created-Keeps : (name : String) (o : Option Error) → Keeps P (created name o)
  unfolding created
  created-Keeps name none = search keeps_rules
  created-Keeps name (some e) = search keeps_rules

  create_token-Keeps :
      (r : Reconciler) (claim : Claim) (scopes : List String)
      → Keeps P (create_token r claim scopes)
  unfolding create_token
  create_token-Keeps r claim scopes = search (keeps_rules, Keeps-Quiet, created-Keeps) depth 12

  pub find_tenant_pod-Keeps :
      (ns tenant workload : String) → Keeps P (find_tenant_pod ns tenant workload)
  unfolding find_tenant_pod
  find_tenant_pod-Keeps ns tenant workload = search (keeps_rules, Keeps-Quiet)

  pub find_pool_pod-Keeps : (ns workload : String) → Keeps P (find_pool_pod ns workload)
  unfolding find_pool_pod
  find_pool_pod-Keeps ns workload = search (keeps_rules, Keeps-Quiet)

  retry-Keeps :
      (d : ℕ) (next : M Extracted) (o : Extracted) → Keeps P next → Keeps P (retry d next o)
  unfolding retry
  retry-Keeps d next none k = search keeps_rules
  retry-Keeps d next (some e) k = search (keeps_rules, Keeps-Quiet)

  module _ (pod tenant workload : String) (dirs : List String) where
    extract_loop-Keeps :
        (backoff : List ℕ) → Keeps P (extract_loop pod tenant workload dirs backoff)
    unfolding extract_loop
    extract_loop-Keeps [] = search keeps_rules
    extract_loop-Keeps (d ∷ []) = Keeps-Quiet (extract_and_store pod tenant workload dirs) tt
    extract_loop-Keeps (d ∷ d' ∷ rest) =
        Keeps-bind _ _ (Keeps-Quiet (extract_and_store pod tenant workload dirs) tt)
          (λ o. retry-Keeps d _ o (extract_loop-Keeps (d' ∷ rest)))

  extract_dirs-Keeps :
      (r : Reconciler) (claim : Claim) (pod : Pod) (dirs : List String)
      → Keeps P (extract_dirs r claim pod dirs)
  unfolding extract_dirs extract_with_retry
  extract_dirs-Keeps r claim pod [] = search keeps_rules
  extract_dirs-Keeps r claim pod (d ∷ ds) = extract_loop-Keeps _ _ _ _ _

  extract_of-Keeps :
      (r : Reconciler) (claim : Claim) (pod : Pod) (x : Result Workload)
      → Keeps P (extract_of r claim pod x)
  unfolding extract_of
  extract_of-Keeps r claim pod (ok wl) = extract_dirs-Keeps r claim pod _
  extract_of-Keeps r claim pod (err e) = search keeps_rules

  pub extract_first-Keeps :
      (r : Reconciler) (action : IdleAction) (claim : Claim) (pod : Pod)
      → Keeps P (extract_first r action claim pod)
  unfolding extract_first
  extract_first-Keeps r hibernate claim pod = search (keeps_rules, Keeps-Quiet, extract_of-Keeps)
  extract_first-Keeps r _ claim pod = search keeps_rules

  pub extract_before_deletion-Keeps :
      (r : Reconciler) (action : IdleAction) (claim : Claim) (pod : Pod) (dirs : List String)
      → Keeps P (extract_before_deletion r action claim pod dirs)
  unfolding extract_before_deletion
  extract_before_deletion-Keeps r hibernate claim pod dirs =
      search (keeps_rules, extract_dirs-Keeps)
  extract_before_deletion-Keeps r _ claim pod dirs = search keeps_rules

  pub remove_pod-Keeps :
      (r : Reconciler) (action : IdleAction) (text : String) (claim : Claim) (pod : Pod)
      → Keeps P (call (delete_pod pod))
      → Keeps P (remove_pod r action text claim pod)
  unfolding remove_pod
  remove_pod-Keeps r action text claim pod deletes =
      search (keeps_rules, delete_stored-Keeps) depth 8

  reuse_or_create-Keeps :
      (r : Reconciler) (claim : Claim) (scopes : List String) (x : Result Secret)
      → Keeps P (reuse_or_create r claim scopes x)
  unfolding reuse_or_create
  reuse_or_create-Keeps r claim scopes (ok s) = search keeps_rules
  reuse_or_create-Keeps r claim scopes (err e) = search (keeps_rules, create_token-Keeps)

  pub ensure_claim_token-Keeps :
      (r : Reconciler) (claim : Claim) (wl : Workload) → Keeps P (ensure_claim_token r claim wl)
  unfolding ensure_claim_token
  ensure_claim_token-Keeps r claim wl = search (keeps_rules, Keeps-Quiet, reuse_or_create-Keeps)

  inject-Keeps :
      (pod : Pod) (tenant workload : String) (x : Result Bool)
      → Keeps P (inject pod tenant workload x)
  unfolding inject
  inject-Keeps pod tenant workload (ok true) = search (keeps_rules, Keeps-Quiet)
  inject-Keeps pod tenant workload _ = search keeps_rules

  pub restore_snapshot-Keeps :
      (r : Reconciler) (claim : Claim) (pod : Pod) → Keeps P (restore_snapshot r claim pod)
  unfolding restore_snapshot
  restore_snapshot-Keeps r claim pod = search (keeps_rules, Keeps-Quiet, inject-Keeps)

  pub proxy_config_for-Keeps :
      (ns text : String) (o : Option WorkloadNetwork) → Keeps P (proxy_config_for ns text o)
  proxy_config_for-Keeps ns text o = Reads.proxy_config_for-Keeps ignores_reads ns text o

  create_proxy_config_map-Keeps : (o : Option ConfigMap) → Keeps P (create_proxy_config_map o)
  unfolding create_proxy_config_map
  create_proxy_config_map-Keeps none = search keeps_rules
  create_proxy_config_map-Keeps (some cm) = search (keeps_rules, Keeps-Quiet)

  pub create_tenant_pod-Keeps :
      (r : Reconciler) (claim : Claim) (wl : Workload) (token : String)
      → Keeps P (create_tenant_pod r claim wl token)
  unfolding create_tenant_pod
  create_tenant_pod-Keeps r claim wl token =
      search (keeps_rules, Keeps-Quiet, proxy_config_for-Keeps, create_proxy_config_map-Keeps) depth
        16
