-- ===== src/Core/Clock.antt =====
-- What app/core/logentry.go uses of the package `time`: the two layouts that it parses.
pub mod RoundTrip
pub mod Rfc3339
pub mod Unstamped
use dkll.Base.{
  ℕ, zero, suc, ◌+◌, ◌-◌, ◌*◌, ◌/◌, ◌%◌, ◌^◌, ◌≡◌, refl, Bool, true, false, not, ◌&&◌, ◌||◌, Option,
  none, some, List, [], ◌∷◌, ltb, leb, ◌==◌, if◌then◌else◌, Bytes, codes, take, is_digit,
}
use dkll.Core.{Time}

-- The reading of a clock on the wall.
pub record Civil : Type 0 where
  pub year : ℕ
  pub month : ℕ
  pub day : ℕ
  pub hour : ℕ
  pub minute : ℕ
  pub second : ℕ
  pub nanos : ℕ

-- A `time.Location`: the instant of each reading there. The time zones are data of the system.
pub record Location : Type 0 where
  pub instant : Civil → Time

abbrev pub Parser : Type 0 → Type 0
Parser A = Bytes → Option (A × Bytes)

infixl 5 ◌>>=◌ ◌>>◌
unfoldable pub ◌>>=◌ : {A B : Type 0} → Parser A → (A → Parser B) → Parser B
◌>>=◌ p f s = elim (p s) [ none ↦ none | some (a, s') ↦ f a s' ]

abbrev pub ◌>>◌ : {B : Type 0} → Parser (Unit {0}) → Parser B → Parser B
p >> q = p >>= λ _. q

abbrev pub pure : {A : Type 0} → A → Parser A
pure a s = some (a, s)

abbrev pub guard : Bool → Parser (Unit {0})
guard true s = some (tt, s)
guard false s = none

pub >>=-some :
    {A B : Type 0} (p : Parser A) (f : A → Parser B) {s s' : Bytes} {a : A}
    → p s ≡ some (a, s')
    → ◌>>=◌ p f s ≡ f a s'
unfolding ◌>>=◌
>>=-some p f h = rw (h, ◌>>=◌)

pub >>=-none :
    {A B : Type 0} (p : Parser A) (f : A → Parser B) {s : Bytes} → p s ≡ none → ◌>>=◌ p f s ≡ none
unfolding ◌>>=◌
>>=-none p f h = rw (h, ◌>>=◌)

-- A literal byte of a layout.
pub skip_byte : ℕ → Parser (Unit {0})
skip_byte b [] = none
skip_byte b (c ∷ s) = if c == b then some (tt, s) else none

cut_spaces : Bytes → Bytes
cut_spaces [] = []
cut_spaces (c ∷ s) = let rest = cut_spaces s in if c == b' ' then rest else c ∷ s

-- A literal space stands for any number of them, none only at the end.
pub skip_space : Parser (Unit {0})
unfolding cut_spaces
skip_space [] = some (tt, [])
skip_space (c ∷ s) = if c == b' ' then some (tt, cut_spaces s) else none

-- One or two digits, or exactly two.
pub get_num : Bool → Parser ℕ
unfolding is_digit
get_num fixed [] = none
get_num fixed (a ∷ []) = if is_digit a && not fixed then some (a - b'0', []) else none
get_num fixed (a ∷ b ∷ s) =
    if not (is_digit a)
    then none
    else if is_digit b
    then some ((a - b'0') * 10 + (b - b'0'), s)
    else if fixed
    then none
    else some (a - b'0', b ∷ s)

-- A number of `get_num` below a bound.
pub get_below : Bool → ℕ → Parser ℕ
get_below fixed bound = do n ← get_num fixed; guard (ltb n bound); pure n

pub get_year : Parser ℕ
unfolding is_digit
get_year (a ∷ b ∷ c ∷ d ∷ s) =
    if is_digit a && is_digit b && is_digit c && is_digit d
    then some ((a - b'0') * 1000 + (b - b'0') * 100 + (c - b'0') * 10 + (d - b'0'), s)
    else none
get_year _ = none

abbrev pub month_names : List Bytes
month_names =
    codes "Jan"
    ∷ codes "Feb"
    ∷ codes "Mar"
    ∷ codes "Apr"
    ∷ codes "May"
    ∷ codes "Jun"
    ∷ codes "Jul"
    ∷ codes "Aug"
    ∷ codes "Sep"
    ∷ codes "Oct"
    ∷ codes "Nov"
    ∷ codes "Dec"
    ∷ []

lower : ℕ → ℕ
lower c = if leb b'A' c && leb c b'Z' then c + 32 else c

-- What follows a word, read in any case of its letters.
drop_word : Bytes → Bytes → Option Bytes
unfolding lower
drop_word [] s = some s
drop_word (a ∷ w) [] = none
drop_word (a ∷ w) (c ∷ s) = if lower a == lower c then drop_word w s else none

-- The number of the first of the names that the text begins with, counted from `n`.
lookup_name : List Bytes → ℕ → Parser ℕ
unfolding drop_word
lookup_name [] n s = none
lookup_name (w ∷ ws) n s =
    let rest = lookup_name ws (suc n) s in
    elim (drop_word w s) [ some s' ↦ some (n, s') | none ↦ rest ]

pub get_month : Parser ℕ
unfolding lookup_name
get_month = lookup_name month_names 1

-- Up to nine digits, the first of which counts 10 ^ (width - 1).
frac_value : ℕ → Bytes → ℕ
frac_value zero s = 0
frac_value (suc k) [] = 0
frac_value (suc k) (c ∷ s) = (c - b'0') * 10 ^ k + frac_value k s

span_digits : Bytes → Bytes × Bytes
unfolding is_digit
span_digits [] = ([], [])
span_digits (c ∷ s) =
    let rest = span_digits s in if is_digit c then (c ∷ rest.0, rest.1) else ([], c ∷ s)

-- A fraction of a second, which may follow the seconds though no layout asks for it.
pub get_fraction : Parser ℕ
unfolding span_digits frac_value is_digit
get_fraction (c ∷ d ∷ s) =
    let digits = span_digits (d ∷ s) in
    if (c == b'.' || c == b',') && is_digit d
    then some (frac_value 9 digits.0, digits.1)
    else some (0, c ∷ d ∷ s)
get_fraction s = some (0, s)

is_leap : ℕ → Bool
is_leap y = y % 4 == 0 && (not (y % 100 == 0) || y % 400 == 0)

unfoldable pub days_in : ℕ → ℕ → ℕ
unfolding is_leap
days_in m y =
    if m == 2
    then (if is_leap y then 29 else 28)
    else if m == 4 || m == 6 || m == 9 || m == 11
    then 30
    else 31

-- The reading that has been parsed, if the month has the day.
abbrev pub checked : Civil → Parser Civil
checked c = do guard (leb 1 c.day && leb c.day (days_in c.month c.year)); pure c

-- "15:04:05", with a fraction
abbrev time_of_day : ℕ → ℕ → ℕ → Parser Civil
time_of_day y m d = do
  h ← get_below false 24
  skip_byte b':'
  i ← get_below true 60
  skip_byte b':'
  s ← get_below true 60
  n ← get_fraction
  pure (record { year = y; month = m; day = d; hour = h; minute = i; second = s; nanos = n })

-- A day may be padded by one space.
pub get_day : Parser ℕ
get_day [] = none
get_day (c ∷ s) = if c == b' ' then get_num false s else get_num false (c ∷ s)

-- All of the text has to be read.
abbrev pub complete : {A : Type 0} → Option (A × Bytes) → Option A
complete none = none
complete (some (a, [])) = some a
complete (some (a, _ ∷ _)) = none

abbrev pub stamp_parser : Parser Civil
stamp_parser = do
  y ← get_year
  skip_space
  m ← get_month
  skip_space
  d ← get_day
  skip_space
  c ← time_of_day y m d
  checked c

-- time.Parse("2006 Jan _2 15:04:05", s), up to the location
unfoldable pub parse_stamp : Bytes → Option Civil
unfolding get_year skip_space get_month get_day get_below get_num skip_byte get_fraction days_in
    ◌>>=◌
parse_stamp s = complete (stamp_parser s)
