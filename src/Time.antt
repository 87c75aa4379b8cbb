-- ===== src/Time.antt =====
-- Points in time and spans of time. A `DateTime<Utc>` is the number of nanoseconds since the
-- earliest one that there is, and a `std::time::Duration` is its number of nanoseconds.
use rustmote.Prelude.{ℕ, ◌*◌}

abbrev pub DateTime : Type 0
DateTime = ℕ

abbrev pub Duration : Type 0
Duration = ℕ

-- `Duration::from_secs` and `Duration::from_millis`.
abbrev pub from_secs : ℕ → Duration
from_secs n = n * 1000000000

abbrev pub from_millis : ℕ → Duration
from_millis n = n * 1000000
