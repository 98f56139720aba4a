-- ===== src/Snapshots/Verified.antt =====
-- What reaches a Pod when a snapshot is injected into it (go/internal/operator/snapshots.go).
use boilerhouse.Common.{
  zero, suc, String, Bool, true, false, [], ◌∷◌, Option, none, some, ◌==◌, ◌<>◌, ◌≡◌, refl, ap, ◌∙◌,
  ◌⊎◌, inl, inr, ==_sound, if◌then◌else◌,
}
use boilerhouse.Common.Split.{trim_space}
use boilerhouse.Types.Pod.{Pod, PodPhase}
use boilerhouse.Cluster.{
  M, Env, Error, Result, ok, err, Ran, exited, not_started, Had, Trace, trace_of, event, Request,
  Response, message, is_not_found, unless_exists, unless_missing, get_volume_claim,
  create_volume_claim, create_helper_pod, delete_pod, ◌>>=◌, ◌>>◌, call, or_fail, succeed_or_wrap,
  wrapping, kubectl, get_pod,
}
use boilerhouse.Cluster.Keeps.{
  Keeps, Keeps-pure, Keeps-or_fail, Keeps-call, Keeps-raise, Keeps-if, Keeps-bind,
  Keeps-succeed_or_wrap,
}
use boilerhouse.Cluster.Triple.{
  Triple, Triple-Keeps, Triple-pure, Triple-call, Triple-bind, Triple-if, Triple-pre, Triple-bad,
  Triple-wrapping, Triple-ok, Triple-err, at_end,
}
use boilerhouse.Snapshots.{
  snapshots_pvc, snapshots_pvc_name, snapshot_helper_pod_name, helper_pod, snapshot_path,
  snapshot_sha_path, output_of, kubectl_output, verify_archive, unless_there, ensure_snapshots_pvc,
  create_helper, by_helper_phase, by_helper, ensure_helper_pod, on_helper, read_from_snapshots_pvc,
  read_snapshot_checksum, inject_args, stream_in, inject_archive, inject_snapshot,
}

-- Nothing is streamed into a Pod.
abbrev Quiet : Request → Type 0
Quiet (kubectl args stdin) = stdin ≡ ""
Quiet _ = Unit

-- This text was read from the file of the volume.
abbrev pub HadRead : String → String → String → Trace → Type 0
HadRead ns path text t =
    (errors : String) × Had
      (event (kubectl (on_helper ns ("cat" ∷ path ∷ [])) "") (exited 0 text errors)) t

-- The archive was read, and a checksum that is the archive's.
abbrev pub Checked : (String → String) → String → String → String → String → Trace → Type 0
Checked sha256 ns tenant workload archive t =
    HadRead ns (snapshot_path tenant workload) archive t
    × ((sum : String) × HadRead ns (snapshot_sha_path tenant workload) sum t
        × (sha256 archive ≡ trim_space (trim_space sum)))

-- Whatever is streamed into some Pod is a checked archive, streamed into the Pod asked for.
abbrev pub Verified : (String → String) → String → String → String → String → Trace → Type 0
Verified sha256 ns pod tenant workload [] = Unit
Verified sha256 ns pod tenant workload (event (kubectl args stdin) x ∷ t) =
    ((stdin ≡ "")
      ⊎ ((args ≡ inject_args sha256 ns pod) × Checked sha256 ns tenant workload stdin t))
    × Verified sha256 ns pod tenant workload t
Verified sha256 ns pod tenant workload (_ ∷ t) = Verified sha256 ns pod tenant workload t

module _ {Q : Trace → Type 0}
    (quiet : (r : Request) → Quiet r → (x : Response r) (t : Trace) → Q t → Q (event r x ∷ t))
    (ns : String) where
  asks : (r : Request) → Quiet r → Keeps Q (call r)
  asks r is = Keeps-call r (λ t x h. quiet r is x t h)

  unless_there-Keeps : (o : Option Error) → Keeps Q (unless_there ns o)
  unfolding unless_there
  unless_there-Keeps none = Keeps-pure tt
  unless_there-Keeps (some e) =
      Keeps-if (is_not_found e) _ _
        (Keeps-bind _ _ (asks (create_volume_claim (snapshots_pvc ns)) tt)
          (λ outcome. Keeps-succeed_or_wrap "creating snapshots PVC" (unless_exists outcome)))
        (Keeps-raise _)

  pvc-Keeps : Keeps Q (ensure_snapshots_pvc ns)
  unfolding ensure_snapshots_pvc
  pvc-Keeps =
      Keeps-bind _ _
        (asks (get_volume_claim (record { name = snapshots_pvc_name; namespace = ns })) tt)
        unless_there-Keeps

  create-Keeps : Keeps Q (create_helper ns)
  unfolding create_helper
  create-Keeps =
      Keeps-bind _ _ (asks (create_helper_pod (helper_pod ns)) tt)
        (λ outcome. Keeps-succeed_or_wrap "creating helper pod" (unless_exists outcome))

  replace-Keeps : (pod : Pod) (phase : PodPhase) → Keeps Q (by_helper_phase ns pod phase)
  unfolding by_helper_phase
  replace-Keeps pod PodPhase.running = Keeps-pure tt
  replace-Keeps pod PodPhase.pending = Keeps-pure tt
  replace-Keeps pod _ = Keeps-bind _ _ (asks (delete_pod pod) tt) (λ outcome.
      Keeps-bind _ _ (Keeps-succeed_or_wrap "deleting failed helper pod" (unless_missing outcome))
        (λ done. create-Keeps))

  helper-Keeps : (x : Result Pod) → Keeps Q (by_helper ns x)
  unfolding by_helper
  helper-Keeps (ok pod) = replace-Keeps pod pod.phase
  helper-Keeps (err e) = Keeps-if (is_not_found e) _ _ create-Keeps (Keeps-raise _)

  ensure-Keeps : Keeps Q (ensure_helper_pod ns)
  unfolding ensure_helper_pod
  ensure-Keeps = Keeps-bind _ _ pvc-Keeps (λ done.
      Keeps-bind _ _
        (asks (get_pod (record { name = snapshot_helper_pod_name; namespace = ns })) tt)
        helper-Keeps)

  abbrev Ran-Read : String → Ran → Trace → Type 0
  Ran-Read path (exited zero out errors) t = Q t × HadRead ns path out t
  Ran-Read path _ t = Q t

  was_read :
      (path : String) (t : Trace) (x : Ran)
      → Q t
      → Ran-Read path x (event (kubectl (on_helper ns ("cat" ∷ path ∷ [])) "") x ∷ t)
  was_read path t (exited zero out errors) h = (quiet _ refl _ t h, (errors, inl refl))
  was_read path t (exited (suc code) out errors) h = quiet _ refl _ t h
  was_read path t (not_started e) h = quiet _ refl _ t h

  output-Read :
      (what path : String) (x : Ran)
      → Triple Q
          (Ran-Read path x)
          (λ text t. Q t × HadRead ns path text t)
          (or_fail (output_of what x))
  unfolding output_of
  output-Read what path (exited zero out errors) = Triple-ok out (λ t h. h)
  output-Read what path (exited (suc code) out errors) = Triple-err _ (λ t h. h)
  output-Read what path (not_started e) = Triple-err _ (λ t h. h)

  read-Read :
      (path : String)
      → Triple Q Q (λ text t. Q t × HadRead ns path text t) (read_from_snapshots_pvc ns path)
  unfolding read_from_snapshots_pvc kubectl_output
  read-Read path =
      Triple-bind (λ _. Q) (Triple-wrapping _ (Triple-Keeps ensure-Keeps))
        (λ done.
          Triple-bind (Ran-Read path)
            (Triple-call (kubectl (on_helper ns ("cat" ∷ path ∷ [])) "") (was_read path))
            (output-Read _ path))

passes :
    (sha256 : String → String) (archive sha : String)
    → verify_archive sha256 archive sha ≡ none
    → sha256 archive ≡ trim_space sha
unfolding verify_archive
passes sha256 archive sha = go (trim_space sha == "") (sha256 archive == trim_space sha) refl
  where
    go :
        (missing same : Bool)
        → (sha256 archive == trim_space sha) ≡ same
        → (if missing
            then some (message "missing checksum")
            else if same
            then none
            else some (
                message
                  ("checksum mismatch: want " <> trim_space sha <> ", got " <> sha256 archive)))
          ≡ none
        → sha256 archive ≡ trim_space sha
    go true same is h = absurd cc
    go false true is h = ==_sound (sha256 archive) (trim_space sha) is
    go false false is h = absurd cc

-- A step behind a check runs only where the check passes.
module _ {A : Type 0} {bad Q : Trace → Type 0} where
  Triple-checked :
      {post : A → Trace → Type 0} {next : M A} (text : String) (o : Option Error)
      → ((t : Trace) → Q t → bad t)
      → (o ≡ none → Triple bad Q post next)
      → Triple bad Q post (succeed_or_wrap text o >> next)
  unfolding ◌>>=◌
  Triple-checked text none ends then_next = record { at = λ env t h. (then_next refl).at env t h }
  Triple-checked text (some e) ends then_next = record { at = λ env t h. ends t h }

module _ (sha256 : String → String) (ns pod tenant workload : String) where
  abbrev V : Trace → Type 0
  V = Verified sha256 ns pod tenant workload

  quietly : (r : Request) → Quiet r → (x : Response r) (t : Trace) → V t → V (event r x ∷ t)
  quietly (kubectl args stdin) is x t h = (inl is, h)
  quietly _ is x t h = h

  abbrev Held : String → Trace → Type 0
  Held archive t = V t × HadRead ns (snapshot_path tenant workload) archive t

  still-Held :
      (archive : String) (r : Request)
      → Quiet r
      → (x : Response r) (t : Trace) → Held archive t
      → Held archive (event r x ∷ t)
  still-Held archive r is x t h = (quietly r is x t h.0, (h.1.0, inr h.1.1))

  stream-Verified :
      (archive : String)
      → Triple V
          (λ t. V t × Checked sha256 ns tenant workload archive t)
          (λ _. V)
          (stream_in sha256 ns pod archive)
  unfolding stream_in kubectl_output
  stream-Verified archive =
      Triple-bind (λ _. V)
        (Triple-bind (λ _. V)
          (Triple-call (kubectl (inject_args sha256 ns pod) archive)
            (λ t x h. (inr (refl, h.1), h.0)))
          (λ ran. Triple-Keeps (Keeps-or_fail (output_of _ ran))))
        (λ out. Triple-pure tt (λ t h. h))

  -- The checksum at hand was read from the file beside the archive's.
  abbrev Summed : String → String → Trace → Type 0
  Summed archive sum t =
      Held archive t
      × ((raw : String) × HadRead ns (snapshot_sha_path tenant workload) raw t
          × (sum ≡ trim_space raw))

  sum-Summed :
      (archive : String)
      → Triple V
          (Held archive)
          (Summed archive)
          (wrapping "read snapshot checksum" (read_snapshot_checksum ns tenant workload))
  unfolding read_snapshot_checksum
  sum-Summed archive = Triple-wrapping _ (
      Triple-bind (λ raw t. Held archive t × HadRead ns (snapshot_sha_path tenant workload) raw t)
        (Triple-bad (λ t h. h.0)
          (read-Read (still-Held archive) ns (snapshot_sha_path tenant workload)))
        (λ raw. Triple-pure (trim_space raw) (λ t h. (h.0, (raw, h.1, refl)))))

  sum-Checked :
      (archive sum : String)
      → verify_archive sha256 archive sum ≡ none
      → (t : Trace) → Summed archive sum t
      → V t × Checked sha256 ns tenant workload archive t
  sum-Checked archive sum passed t ((v, held), (raw, read, is)) =
      (v, (held, (raw, read, passes sha256 archive sum passed ∙ ap trim_space is)))

  checked :
      (archive sum : String)
      → Triple V
          (Summed archive sum)
          (λ _. V)
          (succeed_or_wrap
              ("snapshot " <> snapshot_path tenant workload)
              (verify_archive sha256 archive sum)
            >> stream_in sha256 ns pod archive)
  checked archive sum =
      Triple-checked _ (verify_archive sha256 archive sum) (λ t h. h.0.0)
        (λ passed. Triple-pre (sum-Checked archive sum passed) (stream-Verified archive))

  inject_archive-Verified :
      (archive : String)
      → Triple V (Held archive) (λ _. V) (inject_archive sha256 ns pod tenant workload archive)
  unfolding inject_archive
  inject_archive-Verified archive =
      Triple-if (archive == "") (Triple-pure tt (λ t h. h.0))
        (Triple-bind (Summed archive) (sum-Summed archive) (checked archive))

  injected : Triple V V (λ _. V) (inject_snapshot sha256 ns pod tenant workload)
  unfolding inject_snapshot
  injected =
      Triple-bind Held (Triple-wrapping _ (read-Read quietly ns (snapshot_path tenant workload)))
        inject_archive-Verified

-- In any world and however the injection of a snapshot ends: nothing is streamed into a Pod but an archive that was
-- read from the file of the tenant's workload, after a checksum was read from the file beside it that is the
-- archive's; and only into the Pod that was asked for.
pub inject_snapshot-Verified :
    (sha256 : String → String) (ns pod tenant workload : String) (env : Env)
    → Verified sha256 ns pod tenant workload
        (trace_of (inject_snapshot sha256 ns pod tenant workload env []))
inject_snapshot-Verified sha256 ns pod tenant workload env =
    at_end (Verified sha256 ns pod tenant workload) (λ _ t h. h) (λ t h. h)
      (injected sha256 ns pod tenant workload) env tt
