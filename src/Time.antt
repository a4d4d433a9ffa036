-- ===== src/Time.antt =====
-- What the program uses of Go's `time.Time`: an instant, in nanoseconds from the beginning of the
-- year 1 in UTC, and the location in which it is shown.
use agent_action_control.Prelude.{ℤ, pos, negsuc, String, Bool, false, eqb}

pub record Time : Type 0 where
  pub instant : ℤ
  pub location : String

unfoldable pub is_zero : Time → Bool
is_zero t = elim t.instant [ pos n ↦ eqb n 0 | negsuc n ↦ false ]

-- `t.UTC()`
unfoldable pub utc : Time → Time
utc t = record t { location = "UTC" }
