-- ===== src/Core/Clock/Rfc3339.antt =====
-- `time.Parse(time.RFC3339, s)`, and the instants of UTC.
-- The package has a fast path for this layout, which accepts fewer texts, to the same values.
pub mod Printed
use dkll.Base.{
  ℕ, zero, suc, ◌+◌, ◌-◌, ◌*◌, ◌/◌, ◌^◌, ◌≡◌, refl, true, ◌&&◌, Option, none, some, [], ◌∷◌, leb,
  ◌==◌, if◌then◌else◌, Bytes, codes,
}
use dkll.Core.{Time, zero_time}
use dkll.Core.Clock.{
  Civil, Location, Parser, ◌>>=◌, ◌>>◌, pure, guard, skip_byte, get_num, get_below, get_year,
  get_fraction, days_in, checked, time_of_day, complete,
}

-- The days of the first `n` months of a year.
days_before : ℕ → ℕ → ℕ
days_before zero y = 0
days_before (suc n) y = days_before n y + days_in (suc n) y

-- The days since the year 0 began, in the Gregorian calendar.
days_of : Civil → ℕ
unfolding days_before
days_of c =
    c.year * 365
    + (c.year + 3) / 4
    + (c.year + 399) / 400
    - (c.year + 99) / 100
    + days_before (c.month - 1) c.year
    + (c.day - 1)

-- The instant of a reading in UTC, as seconds and nanoseconds.
seconds_of : Civil → ℕ
unfolding days_of
seconds_of c = (days_of c + 2) * 86400 + c.hour * 3600 + c.minute * 60 + c.second

-- A zone as the seconds that it is ahead of UTC or behind it, at most 25 hours.
pub data Zone : Type 0 where
  ahead behind : ℕ → Zone

unfoldable pub instant_in : Zone → Civil → Time
unfolding seconds_of
instant_in (ahead s) c = (seconds_of c - s) * 10 ^ 9 + c.nanos
instant_in (behind s) c = (seconds_of c + s) * 10 ^ 9 + c.nanos

abbrev pub utc : Location
utc = record { instant = instant_in (ahead 0) }

-- The sign in front of an offset.
pub signed_zone : ℕ → ℕ → Parser Zone
signed_zone c n =
    if c == b'+' then pure (ahead n) else if c == b'-' then pure (behind n) else λ _. none

abbrev pub get_offset : ℕ → Parser Zone
get_offset c = do
  h ← get_num true
  skip_byte b':'
  m ← get_num true
  guard (leb h 24 && leb m 60)
  signed_zone c ((h * 60 + m) * 60)

-- "Z07:00": a `Z`, or a sign, two digits, a colon and two digits.
pub get_zone : Parser Zone
get_zone [] = none
get_zone (c ∷ s) = if c == b'Z' then some (ahead 0, s) else get_offset c s

abbrev pub rfc3339_parser : Parser Time
rfc3339_parser = do
  y ← get_year
  skip_byte b'-'
  m ← get_below true 13
  guard (leb 1 m)
  skip_byte b'-'
  d ← get_num true
  skip_byte b'T'
  c ← time_of_day y m d
  z ← get_zone
  c ← checked c
  pure (instant_in z c)

unfoldable pub parse_rfc3339 : Bytes → Option Time
unfolding get_year get_below get_num skip_byte get_fraction days_in get_zone signed_zone ◌>>=◌
parse_rfc3339 s = complete (rfc3339_parser s)

-- The zero value of `time.Time` is the beginning of the year 1.
zero_reads : parse_rfc3339 (codes "0001-01-01T00:00:00Z") ≡ some zero_time
unfolding parse_rfc3339 instant_in
zero_reads = refl

-- 1970-01-01 is 62135596800 seconds later, and a zone ahead of UTC reaches a reading earlier.
epoch_reads :
    parse_rfc3339 (codes "1970-01-01T02:00:00.5+02:00")
    ≡ some (zero_time + 62135596800 * 10 ^ 9 + 5 * 10 ^ 8)
unfolding parse_rfc3339 instant_in
epoch_reads = refl

no_such_day : parse_rfc3339 (codes "2023-02-29T00:00:00Z") ≡ none
unfolding parse_rfc3339
no_such_day = refl
