-- ===== src/Platform/Time.antt =====
-- The part of datetime that the program uses: moments in microseconds since year 1, with or without
-- a time zone. A moment with a zone is kept in UTC, which is what comparison goes by.
use llm_agent_control_plane.Base.{ℕ, ◌+◌, ◌-◌, ◌*◌, Bool, ltb, leb, if◌then◌else◌}
use llm_agent_control_plane.Base.{Result, ok, raised, type_error, overflow_error}

pub data DateTime : Type 0 where
  naive : ℕ → DateTime
  aware : ℕ → DateTime

-- `if d.tzinfo is None: d = d.replace(tzinfo=UTC)`
unfoldable pub assume_utc : DateTime → DateTime
assume_utc (naive t) = aware t
assume_utc (aware t) = aware t

-- `a > b`; comparing a naive with an aware moment is a TypeError.
unfoldable pub is_after : DateTime → DateTime → Result Bool
is_after (aware a) (aware b) = ok (ltb b a)
is_after (naive a) (naive b) = ok (ltb b a)
is_after (aware a) (naive b) = raised type_error
is_after (naive a) (aware b) = raised type_error

-- The last microsecond of year 9999.
abbrev pub max_micros : ℕ
max_micros = 315537897599999999

-- An `int` of seconds, by its sign.
pub data Seconds : Type 0 where
  forward backward : ℕ → Seconds

shift : (ℕ → DateTime) → ℕ → Seconds → Result DateTime
shift zone t (forward s) =
    if leb (t + s * 1000000) max_micros then ok (zone (t + s * 1000000)) else raised overflow_error
shift zone t (backward s) =
    if leb (s * 1000000) t then ok (zone (t - s * 1000000)) else raised overflow_error

-- `d + timedelta(seconds=s)`
unfoldable pub add_seconds : DateTime → Seconds → Result DateTime
unfolding shift
add_seconds (naive t) s = shift naive t s
add_seconds (aware t) s = shift aware t s
