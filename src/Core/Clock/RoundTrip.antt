-- ===== src/Core/Clock/RoundTrip.antt =====
-- The layout "2006 Jan _2 15:04:05" read back: a text printed in it gives the same reading.
use dkll.Base.{
  ℕ, zero, suc, ◌+◌, ◌/◌, ◌%◌, ◌≤◌, ◌<◌, ◌≡◌, ap, ◌∙◌, refl, Bool, true, false, some, List, [], ◌∷◌,
  ◌++◌, arith, ltb, leb, length, length-append, lt→ltb, le→leb, ◌&&◌, decimal_four, if◌then◌else◌,
  Bytes, decimal, is_digit,
}
use dkll.Core.Clock.{
  Civil, >>=-some, guard, month_names, parse_stamp, get_year, get_month, get_day, get_below,
  get_num, skip_space, skip_byte, get_fraction, days_in, complete, stamp_parser, time_of_day,
  checked,
}

abbrev pub two_digits : ℕ → Bytes
two_digits n = (b'0' + n / 10) ∷ (b'0' + n % 10) ∷ []

-- A day below 10 is padded by a space.
abbrev pub padded_day : ℕ → Bytes
padded_day d = if ltb d 10 then b' ' ∷ (b'0' + d) ∷ [] else two_digits d

nth_name : List Bytes → ℕ → Bytes
nth_name [] n = []
nth_name (w ∷ ws) zero = w
nth_name (w ∷ ws) (suc n) = nth_name ws n

unfoldable pub month_name : ℕ → Bytes
unfolding nth_name
month_name zero = []
month_name (suc m) = nth_name month_names m

abbrev pub clock_text : Civil → Bytes
clock_text c = two_digits c.hour ++ b':' ∷ (two_digits c.minute ++ b':' ∷ two_digits c.second)

-- `t.Format("Jan _2 15:04:05")`, of 15 bytes.
unfoldable pub stamp : Civil → Bytes
unfolding month_name
stamp c = month_name c.month ++ b' ' ∷ (padded_day c.day ++ b' ' ∷ clock_text c)

pub record IsStamp (c : Civil) : Type 0 where
  pub year_low : 1000 ≤ c.year
  pub year_high : c.year < 10000
  pub month_low : 1 ≤ c.month
  pub month_high : c.month ≤ 12
  pub day_low : 1 ≤ c.day
  pub day_high : c.day ≤ days_in c.month c.year
  pub hour_high : c.hour < 24
  pub minute_high : c.minute < 60
  pub second_high : c.second < 60
  pub whole : c.nanos ≡ 0

pub get_num-two_digits :
    (fixed : Bool) (n : ℕ) (rest : Bytes)
    → n < 100
    → get_num fixed (two_digits n ++ rest) ≡ some (n, rest)
unfolding get_num is_digit
get_num-two_digits fixed n rest h = ground arith

pub get_below-two_digits :
    (fixed : Bool) (n bound : ℕ) (rest : Bytes)
    → n < bound
    → n < 100
    → get_below fixed bound (two_digits n ++ rest) ≡ some (n, rest)
unfolding get_below
get_below-two_digits fixed n bound rest h k =
    >>=-some (get_num fixed) _ (get_num-two_digits fixed n rest k)
    ∙ >>=-some (guard (ltb n bound)) _ (rw (lt→ltb n bound h))

-- A statement about months that holds of each of the twelve.
each_month {ℓ} :
    (P : ℕ → Type ℓ)
    → P 1
    → P 2
    → P 3
    → P 4
    → P 5
    → P 6
    → P 7
    → P 8
    → P 9
    → P 10
    → P 11
    → P 12
    → (m : ℕ) → 1 ≤ m
    → m ≤ 12
    → P m
each_month P a b c d e f g i j o q r zero h k = absurd (omega arith)
each_month P a b c d e f g i j o q r (suc zero) h k = a
each_month P a b c d e f g i j o q r (suc (suc zero)) h k = b
each_month P a b c d e f g i j o q r (suc (suc (suc zero))) h k = c
each_month P a b c d e f g i j o q r (suc (suc (suc (suc zero)))) h k = d
each_month P a b c d e f g i j o q r (suc (suc (suc (suc (suc zero))))) h k = e
each_month P a b c d e f g i j o q r (suc (suc (suc (suc (suc (suc zero)))))) h k = f
each_month P a b c d e f g i j o q r (suc (suc (suc (suc (suc (suc (suc zero))))))) h k = g
each_month P a b c d e f g i j o q r (suc (suc (suc (suc (suc (suc (suc (suc zero)))))))) h k = i
each_month P a b c d e f g i j o q r (suc (suc (suc (suc (suc (suc (suc (suc (suc zero))))))))) h
      k =
    j
each_month P a b c d e f g i j o q r
      (suc (suc (suc (suc (suc (suc (suc (suc (suc (suc zero)))))))))) h k =
    o
each_month P a b c d e f g i j o q r
      (suc (suc (suc (suc (suc (suc (suc (suc (suc (suc (suc zero))))))))))) h k =
    q
each_month P a b c d e f g i j o q r
      (suc (suc (suc (suc (suc (suc (suc (suc (suc (suc (suc (suc zero)))))))))))) h k =
    r
each_month P a b c d e f g i j o q r
      (suc (suc (suc (suc (suc (suc (suc (suc (suc (suc (suc (suc (suc m))))))))))))) h k =
    absurd (omega arith)

get_month-month_name :
    (m : ℕ) (rest : Bytes) → 1 ≤ m → m ≤ 12 → get_month (month_name m ++ rest) ≡ some (m, rest)
unfolding get_month month_name
get_month-month_name m rest =
    each_month (λ m. get_month (month_name m ++ rest) ≡ some (m, rest)) refl refl refl refl refl
      refl refl refl refl refl refl refl m

abbrev plain_day : ℕ → Bytes
plain_day d = if ltb d 10 then (b'0' + d) ∷ [] else two_digits d

skip_space-padded_day :
    (d : ℕ) (rest : Bytes)
    → 1 ≤ d
    → skip_space (b' ' ∷ (padded_day d ++ rest)) ≡ some (tt, plain_day d ++ rest)
unfolding skip_space
skip_space-padded_day d rest h = ground arith

get_day-plain_day :
    (d : ℕ) (rest : Bytes) → d ≤ 31 → get_day (plain_day d ++ b' ' ∷ rest) ≡ some (d, b' ' ∷ rest)
unfolding get_day get_num is_digit
get_day-plain_day d rest h = ground arith

pub days_in-le : (m y : ℕ) → days_in m y ≤ 31
unfolding days_in
days_in-le m y = ground arith

pub get_year-decimal :
    (y : ℕ) (rest : Bytes) → 1000 ≤ y → y < 10000 → get_year (decimal y ++ rest) ≡ some (y, rest)
unfolding get_year is_digit
get_year-decimal y rest h k = rw (decimal_four y h k) (ground arith)

skip_space-month_name :
    (m : ℕ) (rest : Bytes)
    → 1 ≤ m
    → m ≤ 12
    → skip_space (b' ' ∷ (month_name m ++ rest)) ≡ some (tt, month_name m ++ rest)
unfolding skip_space month_name
skip_space-month_name m rest =
    each_month (λ m. skip_space (b' ' ∷ (month_name m ++ rest)) ≡ some (tt, month_name m ++ rest))
      refl refl refl refl refl refl refl refl refl refl refl refl m

skip_space-two_digits :
    (n : ℕ) (rest : Bytes)
    → skip_space (b' ' ∷ (two_digits n ++ rest)) ≡ some (tt, two_digits n ++ rest)
unfolding skip_space
skip_space-two_digits n rest = ground arith

pub skip_byte_self : (b : ℕ) (rest : Bytes) → skip_byte b (b ∷ rest) ≡ some (tt, rest)
unfolding skip_byte
skip_byte_self b rest = ground arith

get_fraction-nil : get_fraction [] ≡ some (0, [])
unfolding get_fraction
get_fraction-nil = refl

pub parse_stamp_lem : (s : Bytes) → parse_stamp s ≡ complete (stamp_parser s)
unfolding parse_stamp
parse_stamp_lem s = refl

length-month_name : (m : ℕ) → 1 ≤ m → m ≤ 12 → length (month_name m) ≡ 3
unfolding month_name
length-month_name m =
    each_month (λ m. length (month_name m) ≡ 3) refl refl refl refl refl refl refl refl refl refl
      refl refl m

length-padded_day : (d : ℕ) → length (padded_day d) ≡ 2
length-padded_day d = ground arith

pub length-stamp : (c : Civil) → IsStamp c → length (stamp c) ≡ 15
unfolding stamp
length-stamp c v = omega (
  arith,
  length-append {0} (month_name c.month) (b' ' ∷ (padded_day c.day ++ b' ' ∷ clock_text c)),
  length-append {0} (padded_day c.day) (b' ' ∷ clock_text c),
  length-padded_day c.day,
  length-month_name c.month v.month_low v.month_high,
)

time_of_day-clock_text :
    (y m d : ℕ) (c : Civil)
    → IsStamp c
    → time_of_day y m d (clock_text c)
      ≡ some (record c { year = y; month = m; day = d; nanos = 0 }, [])
time_of_day-clock_text y m d c v =
    >>=-some (get_below false 24) _
      (get_below-two_digits false c.hour 24 _ v.hour_high (omega arith))
    ∙ >>=-some (skip_byte b':') _ (skip_byte_self b':' _)
    ∙ >>=-some (get_below true 60) _
        (get_below-two_digits true c.minute 60 _ v.minute_high (omega arith))
    ∙ >>=-some (skip_byte b':') _ (skip_byte_self b':' _)
    ∙ >>=-some (get_below true 60) _
        (get_below-two_digits true c.second 60 [] v.second_high (omega arith))
    ∙ >>=-some get_fraction _ get_fraction-nil

pub checked-lem :
    (c : Civil) (s : Bytes) → 1 ≤ c.day → c.day ≤ days_in c.month c.year → checked c s ≡ some (c, s)
checked-lem c s low high =
    >>=-some (guard (leb 1 c.day && leb c.day (days_in c.month c.year))) _
      (rw (le→leb _ _ low, le→leb _ _ high))

-- A reading of whole seconds, printed in the layout "2006 Jan _2 15:04:05", is read back.
pub parse_stamp-stamp :
    (c : Civil) → IsStamp c → parse_stamp (decimal c.year ++ b' ' ∷ stamp c) ≡ some c
unfolding stamp
parse_stamp-stamp c v =
    parse_stamp_lem _
    ∙ ap complete (
        >>=-some get_year _ (get_year-decimal c.year _ v.year_low v.year_high)
        ∙ >>=-some skip_space _ (skip_space-month_name c.month _ v.month_low v.month_high)
        ∙ >>=-some get_month _ (get_month-month_name c.month _ v.month_low v.month_high)
        ∙ >>=-some skip_space _ (skip_space-padded_day c.day _ v.day_low)
        ∙ >>=-some get_day _ (get_day-plain_day c.day _ (omega (arith, days_in-le c.month c.year)))
        ∙ >>=-some skip_space _ (skip_space-two_digits c.hour _)
        ∙ >>=-some (time_of_day c.year c.month c.day) _
            (time_of_day-clock_text c.year c.month c.day c v)
        ∙ checked-lem _ [] v.day_low v.day_high)
    ∙ rw (← v.whole)
