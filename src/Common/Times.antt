-- ===== src/Common/Times.antt =====
-- Go's time.Time as the number of nanoseconds since its zero time, which is 0. The columns of the
-- database hold whole seconds; they are counted from the same origin, a constant away from the epoch.
use Prim.Native.Nat.{ℕ, ◌*◌, ◌/◌}
use mathlib.Core.Bool.{Bool}
use copilot_review_mcp.Common.Tests.{ltb, nat_beq}

abbrev pub Time : Type 0
Time = ℕ

-- time.Second.
abbrev pub second : ℕ
second = 1000000000

-- `t.IsZero()`.
abbrev pub is_zero : Time → Bool
is_zero t = nat_beq t 0

-- `t.After(u)`.
abbrev pub after : Time → Time → Bool
after t u = ltb u t

-- `t.Before(u)`.
abbrev pub before : Time → Time → Bool
before t u = ltb t u

-- `t.UTC().Unix()`.
abbrev pub to_unix : Time → ℕ
to_unix t = t / second

-- `time.Unix(s, 0)`.
abbrev pub from_unix : ℕ → Time
from_unix s = s * second

-- A time cut to whole seconds.
abbrev pub cut : Time → Time
cut t = from_unix (to_unix t)
