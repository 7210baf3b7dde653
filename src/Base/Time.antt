-- ===== src/Base/Time.antt =====
-- Python's `datetime`: microseconds since the epoch, and whether a time zone is attached.
use Prim.Native.Nat.{ℕ, ◌+◌, ◌*◌, ◌/◌}
use mathlib.Core.Bool.{Bool, true}
use mathlib.Core.Path.{◌≡◌}

-- `==`, `<=` and `timestamp()` of an aware time read its instant alone, so the record has no zone;
-- only `window_bounds_for`, which adds a `timedelta` to the time of a clock, has it as an argument.
-- The other times to which one is added are in UTC, as those of `DefaultClock` are.
pub record Datetime : Type 0 where
  pub micros : ℕ
  pub aware : Bool

-- `int(t.timestamp())`
abbrev pub epoch_seconds : Datetime → ℕ
epoch_seconds t = t.micros / 1000000

-- `datetime.fromtimestamp(s, tz=...)`
abbrev pub from_seconds : ℕ → Datetime
from_seconds s = record { micros = s * 1000000; aware = true }

-- A `tzinfo`: the wall clock at an instant, and the instant that a reading of the wall clock names.
pub record Zone : Type 0 where
  pub wall : ℕ → ℕ
  pub instant : ℕ → ℕ

-- `datetime.UTC`
abbrev pub utc : Zone
utc = record { wall = λ t. t; instant = λ w. w }

-- The zone has a fixed offset from UTC: no change of the clock lies between two instants.
abbrev pub IsFixed : Zone → Type 0
IsFixed zone = (t d : ℕ) → zone.instant (zone.wall t + d) ≡ t + d

-- `t + timedelta(seconds=s)` of a time of the zone, which moves its wall clock.
abbrev pub add_wall_seconds : Zone → Datetime → ℕ → Datetime
add_wall_seconds zone t s = record t { micros = zone.instant (zone.wall t.micros + s * 1000000) }

-- `t + timedelta(seconds=s)` of a time in UTC.
abbrev pub add_seconds : Datetime → ℕ → Datetime
add_seconds t s = record t { micros = t.micros + s * 1000000 }
