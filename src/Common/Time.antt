-- ===== src/Common/Time.antt =====
-- Go's `time` package as far as the code uses it: times are numbers of nanoseconds, and their RFC3339
-- texts are read and written by functions that the model takes as a parameter. `parse` answers
-- `none` for a text that does not parse and for the zero time, which the code treats alike.
use Prim.Native.Nat.{ℕ}
use Prim.Native.String.{String}
use mathlib.Core.Option.{Option}

pub record TimeFormat : Type 0 where
  pub parse : String → Option ℕ
  pub format : ℕ → String
