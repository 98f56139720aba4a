-- ===== src/Claim/Saves/Extraction.antt =====
-- What the history says of the snapshots of a Pod, and the retry loop against it.
use boilerhouse.Common.{ℕ, ◌*◌, String, List, [], ◌∷◌, none, some, ◌≡◌, refl, ◌⊎◌, inl, inr}
use boilerhouse.Types.Meta.{second}
use boilerhouse.Types.Workload.{Workload, IdleAction}
use boilerhouse.Types.Claim.{Claim}
use boilerhouse.Types.Pod.{Pod}
use boilerhouse.Cluster.{
  M, Result, event, Request, Response, Trace, extract_and_store, get_workload, delete_pod, sleep,
  unless_missing,
}
use boilerhouse.Cluster.Keeps.{Keeps-succeed_or_wrap}
use boilerhouse.Cluster.Triple.{
  Triple, Triple-Keeps, Triple-within, Triple-call, Triple-bind, Triple-if, Triple-pure, Triple-pre,
  Triple-post,
}
use boilerhouse.Claim.Reconciler.{Reconciler}
use boilerhouse.Claim.Release.{
  Extracted, retry, extract_loop, extract_with_retry, extract_dirs, or_default, context_canceled,
  remove_pod,
}
use boilerhouse.Claim.Quiet
use boilerhouse.Claim.Quiet.{IgnoresQuiet}

-- A snapshot of the Pod was stored.
abbrev pub WasExtracted : String → Trace → Type 0
WasExtracted pod [] = ⊥
WasExtracted pod (event (extract_and_store p tenant workload dirs) none ∷ t) =
    (p ≡ pod) ⊎ WasExtracted pod t
WasExtracted pod (event (extract_and_store p tenant workload dirs) (some e) ∷ t) =
    WasExtracted pod t
WasExtracted pod (_ ∷ t) = WasExtracted pod t

-- The workload was read with an answer that asks for no snapshot, in the sense of `Excuse`.
abbrev pub Excused : (Result Workload → Type 0) → Trace → Type 0
Excused Excuse [] = ⊥
Excused Excuse (event (get_workload k) x ∷ t) = Excuse x ⊎ Excused Excuse t
Excused Excuse (_ ∷ t) = Excused Excuse t

abbrev pub Justified : (Result Workload → Type 0) → String → Trace → Type 0
Justified Excuse pod t = WasExtracted pod t ⊎ Excused Excuse t

-- Every deletion of a Pod comes after a stored snapshot of it, unless the workload excused it.
abbrev pub SafeDeletes : (Result Workload → Type 0) → Trace → Type 0
SafeDeletes Excuse [] = Unit
SafeDeletes Excuse (event (delete_pod p) x ∷ t) =
    Justified Excuse p.meta.name t × SafeDeletes Excuse t
SafeDeletes Excuse (_ ∷ t) = SafeDeletes Excuse t

module _ (E : Result Workload → Type 0) where
  pub SafeDeletes-Quiet : IgnoresQuiet (SafeDeletes E)
  SafeDeletes-Quiet (delete_pod p) x t h s = absurd h
  SafeDeletes-Quiet _ x t h s = s

  -- A stored snapshot and a safe history, after an attempt that reports `x`.
  abbrev pub Stored : String → Extracted → Trace → Type 0
  Stored pod none t = WasExtracted pod t × SafeDeletes E t
  Stored pod (some e) t = SafeDeletes E t

  retry-Stored :
      (pod : String) (d : ℕ) {next : M Extracted}
      → Triple (SafeDeletes E) (SafeDeletes E) (Stored pod) next
      → (x : Extracted) → Triple (SafeDeletes E) (Stored pod x) (Stored pod) (retry d next x)
  unfolding retry
  retry-Stored pod d k none = Triple-pure none (λ t h. h)
  retry-Stored pod d k (some e) =
      Triple-bind (λ _. SafeDeletes E) (Triple-call (sleep d) (λ t x h. h))
        (λ slept. Triple-if slept k (Triple-pure (some context_canceled) (λ t h. h)))

  module _ (pod tenant workload : String) (dirs : List String) where
    Stored-event :
        (t : Trace) (x : Extracted)
        → SafeDeletes E t
        → Stored pod x (event (extract_and_store pod tenant workload dirs) x ∷ t)
    Stored-event t none s = (inl refl, s)
    Stored-event t (some e) s = s

    -- A loop that makes an attempt and reports success has stored a snapshot.
    pub extract_loop-Stored :
        (d : ℕ) (rest : List ℕ)
        → Triple
            (SafeDeletes E)
            (SafeDeletes E)
            (Stored pod)
            (extract_loop pod tenant workload dirs (d ∷ rest))
    unfolding extract_loop
    extract_loop-Stored d [] = Triple-call (extract_and_store pod tenant workload dirs) Stored-event
    extract_loop-Stored d (d' ∷ rest) =
        Triple-bind (Stored pod)
          (Triple-call (extract_and_store pod tenant workload dirs) Stored-event)
          (retry-Stored pod d (extract_loop-Stored d' rest))

  -- So has the whole retry schedule, the default one included.
  schedule-Stored :
      (pod tenant workload : String) (dirs : List String) (backoff : List ℕ)
      → Triple
          (SafeDeletes E)
          (SafeDeletes E)
          (Stored pod)
          (extract_loop pod tenant workload dirs (or_default backoff))
  unfolding or_default
  schedule-Stored pod tenant workload dirs [] =
      extract_loop-Stored pod tenant workload dirs (1 * second) ((4 * second) ∷ (16 * second) ∷ [])
  schedule-Stored pod tenant workload dirs (b ∷ bs) =
      extract_loop-Stored pod tenant workload dirs b bs

  -- Before the Pod is deleted: a safe history, and a reason if extraction reports success.
  abbrev pub Ready : String → Extracted → Trace → Type 0
  Ready pod none t = Justified E pod t × SafeDeletes E t
  Ready pod (some e) t = SafeDeletes E t

  Stored-Ready : (pod : String) (x : Extracted) (t : Trace) → Stored pod x t → Ready pod x t
  Stored-Ready pod none t h = (inl h.0, h.1)
  Stored-Ready pod (some e) t h = h

  pub extract_dirs-Ready :
      (r : Reconciler) (claim : Claim) (pod : Pod) (dirs : List String)
      → Triple
          (SafeDeletes E)
          (λ t. (dirs ≡ [] → Excused E t) × SafeDeletes E t)
          (Ready pod.meta.name)
          (extract_dirs r claim pod dirs)
  unfolding extract_dirs extract_with_retry
  extract_dirs-Ready r claim pod [] = Triple-pure none (λ t h. (inr (h.0 refl), h.1))
  extract_dirs-Ready r claim pod (d ∷ ds) =
      Triple-pre (λ t h. h.1)
        (Triple-post (Stored-Ready pod.meta.name) (
          schedule-Stored pod.meta.name claim.spec.tenant_id claim.spec.workload_ref (d ∷ ds)
            r.extract_retry_backoff))

  WasExtracted-cons :
      (pod : String) (r : Request) (x : Response r) (t : Trace)
      → WasExtracted pod t
      → WasExtracted pod (event r x ∷ t)
  WasExtracted-cons pod (extract_and_store p tenant workload dirs) none t h = inr h
  WasExtracted-cons pod (extract_and_store p tenant workload dirs) (some e) t h = h
  WasExtracted-cons pod _ x t h = h

  pub Excused-cons :
      (r : Request) (x : Response r) (t : Trace) → Excused E t → Excused E (event r x ∷ t)
  Excused-cons (get_workload k) x t h = inr h
  Excused-cons _ x t h = h

  -- A reason to delete is not lost.
  Justified-cons :
      (pod : String) (r : Request) (x : Response r) (t : Trace)
      → Justified E pod t
      → Justified E pod (event r x ∷ t)
  Justified-cons pod r x t (inl h) = inl (WasExtracted-cons pod r x t h)
  Justified-cons pod r x t (inr h) = inr (Excused-cons r x t h)

  abbrev pub Reasoned : String → Trace → Type 0
  Reasoned pod t = Justified E pod t × SafeDeletes E t

  Reasoned-Quiet : (pod : String) → IgnoresQuiet (Reasoned pod)
  Reasoned-Quiet pod r x t quiet h =
      (Justified-cons pod r x t h.0, SafeDeletes-Quiet r x t quiet h.1)

  pub remove_pod-Safe :
      (r : Reconciler) (action : IdleAction) (text : String) (claim : Claim) (pod : Pod)
      → Triple
          (SafeDeletes E)
          (Reasoned pod.meta.name)
          (λ _. SafeDeletes E)
          (remove_pod r action text claim pod)
  unfolding remove_pod
  remove_pod-Safe r action text claim pod =
      Triple-bind (λ _. Reasoned pod.meta.name)
        (Triple-within (λ t h. h.1)
          (Quiet.delete_stored-Keeps (Reasoned-Quiet pod.meta.name) r action claim))
        (λ _.
          Triple-bind (λ _. SafeDeletes E) (Triple-call (delete_pod pod) (λ t x h. h))
            (λ outcome. Triple-Keeps (Keeps-succeed_or_wrap text (unless_missing outcome))))
