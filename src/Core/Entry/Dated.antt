-- ===== src/Core/Entry/Dated.antt =====
-- Lines whose time is in the layout RFC3339, which `parseTime` tries second.
use dkll.Base.{
  ℕ, ◌+◌, ◌/◌, ◌%◌, ◌≤◌, ◌<◌, ◌≡◌, refl, false, none, ◌∷◌, ◌++◌, arith, ltb, Bytes, Lacks, length,
  take, cut_at_sep, decimal, decimal_four,
}
use dkll.Core.Clock.{Civil, Location, parse_stamp}
use dkll.Core.Clock.RoundTrip.{two_digits, clock_text, IsStamp}
use dkll.Core.Clock.Unstamped.{parse_stamp-digit}
use dkll.Core.Clock.Rfc3339.{instant_in}
use dkll.Core.Clock.Rfc3339.Printed.{
  Offset, zulu, plus, minus, zone_of, zone_text, IsOffset, rfc3339, parse_rfc3339-rfc3339,
}
use dkll.Core.Entry.{Now, new_entry, parse_time, parse_rfc_time, parse_rest, timed, fresh}

two_digits-Lacks : (b n : ℕ) → b < b'0' → Lacks b (two_digits n)
two_digits-Lacks b n h = ground arith

zone_text-Lacks : (z : Offset) → Lacks b' ' (zone_text z)
zone_text-Lacks zulu = ground arith
zone_text-Lacks (plus h m) = ground arith
zone_text-Lacks (minus h m) = ground arith

clock_text-Lacks : (c : Civil) → Lacks b' ' (clock_text c)
clock_text-Lacks c = ground arith

-- What stands behind the first digit of the year.
abbrev behind_digit : Civil → Offset → Bytes
behind_digit c z =
    (b'0' + c.year / 10 / 10 % 10)
    ∷ (b'0' + c.year / 10 % 10)
    ∷ (b'0' + c.year % 10)
    ∷ b'-'
    ∷ (two_digits c.month ++ b'-' ∷ (two_digits c.day ++ b'T' ∷ (clock_text c ++ zone_text z)))

module _ (c : Civil) (z : Offset) (v : IsStamp c) where
  rfc3339-digits : rfc3339 c z ≡ (b'0' + c.year / 10 / 10 / 10) ∷ behind_digit c z
  unfolding rfc3339
  rfc3339-digits = rw (decimal_four c.year v.year_low v.year_high) refl

  rfc3339-Lacks : Lacks b' ' (rfc3339 c z)
  rfc3339-Lacks = rw rfc3339-digits (ground (arith, zone_text-Lacks z))

module _ (clock : Now) (tz : Location) (c : Civil) (z : Offset) (v : IsStamp c) (o : IsOffset z)
    (year_low : 1000 ≤ clock.year) (year_high : clock.year < 10000) where
  no_stamp :
      (rest : Bytes)
      → parse_stamp (decimal clock.year ++ b' ' ∷ take 15 (rfc3339 c z ++ rest)) ≡ none
  no_stamp rest =
      rw (rfc3339-digits c z v)
        (parse_stamp-digit clock.year _ _ year_low year_high (omega (arith, v.year_high)))

  long_enough : (rest : Bytes) → ltb (length (rfc3339 c z ++ rest)) 16 ≡ false
  long_enough rest = rw (rfc3339-digits c z v) (ground arith)

  parse_rfc_time-rfc3339 :
      (rest : Bytes)
      → parse_rfc_time clock tz (rfc3339 c z ++ b' ' ∷ rest) ≡ timed (instant_in (zone_of z) c) rest
  unfolding parse_rfc_time
  parse_rfc_time-rfc3339 rest =
      let read = cut_at_sep (rfc3339 c z) rest b' ' (rfc3339-Lacks c z v) in
      rw (parse_rfc_time, read, parse_rfc3339-rfc3339 c z v o, read) refl

  -- A line that begins with a time in the layout RFC3339 is read behind the space after it.
  pub new_entry-rfc3339 :
      (rest : Bytes)
      → new_entry clock tz (rfc3339 c z ++ b' ' ∷ rest)
        ≡ parse_rest (fresh clock (instant_in (zone_of z) c)) rest
  unfolding new_entry parse_time
  new_entry-rfc3339 rest =
      rw (long_enough (b' ' ∷ rest), no_stamp (b' ' ∷ rest), parse_rfc_time-rfc3339 rest) refl
