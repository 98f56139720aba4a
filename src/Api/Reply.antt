-- ===== src/Api/Reply.antt =====
-- `writeJSON` and `writeError` of go/internal/api/server.go, and the early returns of the handlers. A handler is
-- a step that ends with what it writes; its body is decoded by the caller, `json.NewDecoder(r.Body).Decode`.
pub mod Rules
use boilerhouse.Common.{ℕ, String, Option, none, some, ◌<>◌}
use boilerhouse.Common.Time.{TimeFormat}
use boilerhouse.Cluster.{M, Error, error_text, Result, ok, err, ◌>>=◌, pure}

pub data Reply {ℓ} (A : Type ℓ) : Type ℓ where
  wrote : ℕ → A → Reply A
  refused : ℕ → String → Reply A

-- The fields of `Server` that the handlers use, and the printing of times.
pub record Server : Type 0 where
  pub namespace : String
  pub time : TimeFormat

-- `if err != nil { writeError(w, code, prefix+err.Error()); return }`
unfoldable pub or_refuse {ℓ κ} :
    {A : Type ℓ} {B : Type κ} → ℕ → String → Result A → (A → M (Reply B)) → M (Reply B)
or_refuse code prefix (ok a) next = next a
or_refuse code prefix (err e) next = pure (refused code (prefix <> error_text e))

unfoldable pub unless_refused {ℓ} :
    {B : Type ℓ} → ℕ → String → Option Error → M (Reply B) → M (Reply B)
unless_refused code prefix none next = next
unless_refused code prefix (some e) next = pure (refused code (prefix <> error_text e))

-- `t.UTC().Format("2006-01-02T15:04:05Z")`, for the zero time too.
unfoldable pub show_time : TimeFormat → Option ℕ → String
show_time time none = "0001-01-01T00:00:00Z"
show_time time (some t) = time.format t
