-- ===== src/Core/Clock/Rfc3339/Printed.antt =====
-- A text in the layout RFC3339 read back: the reading and the zone that were printed.
use dkll.Base.{
  ℕ, ◌+◌, ◌*◌, ◌≤◌, ◌<◌, ◌≡◌, ap, ◌∙◌, refl, Bool, true, false, some, [], ◌∷◌, ◌++◌, arith, leb,
  le→leb, ◌&&◌, Bytes, codes, decimal,
}
use dkll.Core.Clock.{
  Civil, >>=-some, guard, get_year, get_below, get_num, skip_byte, get_fraction, complete,
  time_of_day, checked,
}
use dkll.Core.Clock.Rfc3339.{
  Zone, ahead, behind, instant_in, rfc3339_parser, parse_rfc3339, get_zone, get_offset, signed_zone,
}
use dkll.Core.Clock.RoundTrip.{
  two_digits, clock_text, IsStamp, get_num-two_digits, get_below-two_digits, get_year-decimal,
  skip_byte_self, checked-lem, days_in-le,
}

-- The zones that are printed: UTC, and offsets of hours and minutes.
pub data Offset : Type 0 where
  zulu : Offset
  plus minus : ℕ → ℕ → Offset

abbrev pub zone_of : Offset → Zone
zone_of zulu = ahead 0
zone_of (plus h m) = ahead ((h * 60 + m) * 60)
zone_of (minus h m) = behind ((h * 60 + m) * 60)

abbrev pub IsOffset : Offset → Type 0
IsOffset zulu = Unit
IsOffset (plus h m) = (h ≤ 24) × (m < 60)
IsOffset (minus h m) = (h ≤ 24) × (m < 60)

abbrev offset_text : ℕ → ℕ → ℕ → Bytes
offset_text sign h m = sign ∷ (two_digits h ++ b':' ∷ two_digits m)

abbrev pub zone_text : Offset → Bytes
zone_text zulu = codes "Z"
zone_text (plus h m) = offset_text b'+' h m
zone_text (minus h m) = offset_text b'-' h m

-- `t.Format(time.RFC3339)`
unfoldable pub rfc3339 : Civil → Offset → Bytes
rfc3339 c z =
    decimal c.year
    ++ b'-'
      ∷ (two_digits c.month ++ b'-' ∷ (two_digits c.day ++ b'T' ∷ (clock_text c ++ zone_text z)))

guard-true : (b : Bool) (s : Bytes) → b ≡ true → guard b s ≡ some (tt, s)
guard-true b s h = rw h

both_true : {a b : Bool} → a ≡ true → b ≡ true → (a && b) ≡ true
both_true h k = rw (h, k)

get_offset-text :
    (sign h m : ℕ)
    → h ≤ 24
    → m < 60
    → get_offset sign (two_digits h ++ b':' ∷ two_digits m)
      ≡ signed_zone sign ((h * 60 + m) * 60) []
get_offset-text sign h m a b =
    >>=-some (get_num true) _ (get_num-two_digits true h _ (omega arith))
    ∙ >>=-some (skip_byte b':') _ (skip_byte_self b':' _)
    ∙ >>=-some (get_num true) _ (get_num-two_digits true m [] (omega arith))
    ∙ >>=-some (guard (leb h 24 && leb m 60)) _
        (guard-true _ [] (both_true (le→leb _ _ a) (le→leb m 60 (omega arith))))

get_zone-zone_text : (z : Offset) → IsOffset z → get_zone (zone_text z) ≡ some (zone_of z, [])
unfolding get_zone signed_zone
get_zone-zone_text zulu h = refl
get_zone-zone_text (plus h m) (a, b) = get_offset-text b'+' h m a b
get_zone-zone_text (minus h m) (a, b) = get_offset-text b'-' h m a b

get_fraction-zone_text : (z : Offset) → get_fraction (zone_text z) ≡ some (0, zone_text z)
unfolding get_fraction
get_fraction-zone_text zulu = refl
get_fraction-zone_text (plus h m) = refl
get_fraction-zone_text (minus h m) = refl

parse_rfc3339_lem : (s : Bytes) → parse_rfc3339 s ≡ complete (rfc3339_parser s)
unfolding parse_rfc3339
parse_rfc3339_lem s = refl

module _ (c : Civil) (z : Offset) (v : IsStamp c) (o : IsOffset z) where
  time_of_day-zone_text :
      time_of_day c.year c.month c.day (clock_text c ++ zone_text z) ≡ some (c, zone_text z)
  time_of_day-zone_text =
      >>=-some (get_below false 24) _
        (get_below-two_digits false c.hour 24 _ v.hour_high (omega arith))
      ∙ >>=-some (skip_byte b':') _ (skip_byte_self b':' _)
      ∙ >>=-some (get_below true 60) _
          (get_below-two_digits true c.minute 60 _ v.minute_high (omega arith))
      ∙ >>=-some (skip_byte b':') _ (skip_byte_self b':' _)
      ∙ >>=-some (get_below true 60) _
          (get_below-two_digits true c.second 60 _ v.second_high (omega arith))
      ∙ >>=-some get_fraction _ (get_fraction-zone_text z)
      ∙ rw (← v.whole) refl

  rfc3339_parser-rfc3339 : rfc3339_parser (rfc3339 c z) ≡ some (instant_in (zone_of z) c, [])
  unfolding rfc3339
  rfc3339_parser-rfc3339 =
      >>=-some get_year _ (get_year-decimal c.year _ v.year_low v.year_high)
      ∙ >>=-some (skip_byte b'-') _ (skip_byte_self b'-' _)
      ∙ >>=-some (get_below true 13) _ (
          get_below-two_digits true c.month 13 _ (omega (arith, v.month_high))
            (omega (arith, v.month_high)))
      ∙ >>=-some (guard (leb 1 c.month)) _ (guard-true _ _ (le→leb _ _ v.month_low))
      ∙ >>=-some (skip_byte b'-') _ (skip_byte_self b'-' _)
      ∙ >>=-some (get_num true) _
          (get_num-two_digits true c.day _ (omega (arith, v.day_high, days_in-le c.month c.year)))
      ∙ >>=-some (skip_byte b'T') _ (skip_byte_self b'T' _)
      ∙ >>=-some (time_of_day c.year c.month c.day) _ time_of_day-zone_text
      ∙ >>=-some get_zone _ (get_zone-zone_text z o)
      ∙ >>=-some (checked c) _ (checked-lem c [] v.day_low v.day_high)

  -- A reading of whole seconds in a zone, printed in the layout RFC3339, is read back to its instant.
  pub parse_rfc3339-rfc3339 : parse_rfc3339 (rfc3339 c z) ≡ some (instant_in (zone_of z) c)
  unfolding rfc3339 parse_rfc3339
  parse_rfc3339-rfc3339 = parse_rfc3339_lem (rfc3339 c z) ∙ ap complete rfc3339_parser-rfc3339
