-- ===== src/Base/Decimal.antt =====
-- Decimal numbers: `%d` of the package `fmt`, and `strconv.Atoi`.
use Prim.Native.Nat.{ℕ, zero, suc, ◌+◌, ◌-◌, ◌*◌, ◌/◌, ◌%◌, ◌^◌, ◌≤◌, ◌<◌}
use mathlib.Core.Bool.{Bool, ◌&&◌}
use mathlib.Core.Logic.{◌≢◌, inl, inr}
use mathlib.Core.Path.{◌≡◌, refl, ap}
use mathlib.Core.Option.{Option, none, some}
use mathlib.Core.List.{[], ◌∷◌, ◌++◌, cons-ne-nil, concat-ne-nil}
use native.Mathlib.Omega.{arith}
use dkll.Base.Tests.{ltb, leb, ◌==◌, Bool-cases, if◌then◌else◌}
use dkll.Base.Lists.{All, All-append}
use dkll.Base.Strings.{Bytes, codes}
use dkll.Base.Int.{ℤ, pos, negsuc}

-- The digits of a number; the fuel is more than the number, so it lasts.
digits_fuel : ℕ → ℕ → Bytes
digits_fuel zero n = []
digits_fuel (suc fuel) n =
    let front = digits_fuel fuel (n / 10) in
    if ltb n 10 then (b'0' + n) ∷ [] else front ++ (b'0' + n % 10) ∷ []

-- fmt.Sprintf("%d", n)
unfoldable pub decimal : ℕ → Bytes
unfolding digits_fuel
decimal n = digits_fuel (suc n) n

unfoldable pub decimal_ℤ : ℤ → Bytes
unfolding decimal
decimal_ℤ (pos n) = decimal n
decimal_ℤ (negsuc n) = b'-' ∷ decimal (suc n)

unfoldable pub is_digit : ℕ → Bool
is_digit c = leb b'0' c && leb c b'9'

-- The number that digits spell behind `n`.
digits_value : Bytes → ℕ → Option ℕ
unfolding is_digit
digits_value [] n = some n
digits_value (c ∷ s) n = if is_digit c then digits_value s (n * 10 + (c - b'0')) else none

unsigned : Bytes → Option ℕ
unfolding digits_value
unsigned [] = none
unsigned (c ∷ s) = digits_value (c ∷ s) 0

-- The range test of a 64-bit `int`.
positive : Option ℕ → Option ℤ
positive none = none
positive (some n) = if ltb n (2 ^ 63) then some (pos n) else none

negative : Option ℕ → Option ℤ
negative none = none
negative (some zero) = some (pos 0)
negative (some (suc n)) = if ltb n (2 ^ 63) then some (negsuc n) else none

-- strconv.Atoi(s); `none` is an error.
unfoldable pub atoi : Bytes → Option ℤ
unfolding unsigned positive negative
atoi [] = none
atoi (c ∷ s) =
    if c == b'-'
    then negative (unsigned s)
    else if c == b'+'
    then positive (unsigned s)
    else positive (unsigned (c ∷ s))

abbrev pub IsDigit : ℕ → Type 0
IsDigit c = (b'0' ≤ c) × (c ≤ b'9')

digits_value-snoc :
    (s : Bytes) (c n m : ℕ)
    → digits_value s n ≡ some m
    → IsDigit c
    → digits_value (s ++ c ∷ []) n ≡ some (m * 10 + (c - b'0'))
unfolding digits_value
digits_value-snoc [] c n m h d = ground arith
digits_value-snoc (x ∷ s) c n m h d = ground (arith, digits_value-snoc s c (n * 10 + (x - b'0')) m)

digit_value : (n : ℕ) → n < 10 → digits_value ((b'0' + n) ∷ []) 0 ≡ some n
unfolding digits_value
digit_value n h = ground arith

digits_value-digits_fuel : (fuel n : ℕ) → n < fuel → digits_value (digits_fuel fuel n) 0 ≡ some n
unfolding digits_fuel
digits_value-digits_fuel zero n h = absurd (omega arith)
digits_value-digits_fuel (suc fuel) n h = elim (Bool-cases (ltb n 10)) [
  | inl small ↦ rw small (digit_value n (ground arith))
  | inr large ↦
      rw
        (
          large,
          digits_value-snoc (digits_fuel fuel (n / 10)) (b'0' + n % 10) 0 (n / 10)
              (digits_value-digits_fuel fuel (n / 10) (ground arith)) (omega arith),
        )
        (ap some (omega arith))
]

digits_fuel-IsDigit : (fuel n : ℕ) → All IsDigit (digits_fuel fuel n)
unfolding digits_fuel
digits_fuel-IsDigit zero n = tt
digits_fuel-IsDigit (suc fuel) n = elim (Bool-cases (ltb n 10)) [
  | inl small ↦ rw small (ground arith)
  | inr large ↦ rw large (
      All-append IsDigit (digits_fuel fuel (n / 10)) _ (digits_fuel-IsDigit fuel (n / 10))
        (omega arith))
]

pub decimal-IsDigit : (n : ℕ) → All IsDigit (decimal n)
unfolding decimal
decimal-IsDigit n = digits_fuel-IsDigit (suc n) n

-- Digits are read as a number with no sign.
atoi_of_digits :
    (s : Bytes) (n : ℕ)
    → s ≢ []
    → All IsDigit s
    → digits_value s 0 ≡ some n
    → n < 2 ^ 63
    → atoi s ≡ some (pos n)
unfolding atoi
atoi_of_digits [] n h _ _ _ = absurd (h refl)
atoi_of_digits (c ∷ s) n _ d v h = ground arith

digits_fuel-ne-nil : (fuel n : ℕ) → digits_fuel (suc fuel) n ≢ []
unfolding digits_fuel
digits_fuel-ne-nil fuel n = elim (Bool-cases (ltb n 10)) [
  | inl small ↦ rw small (cons-ne-nil _ _)
  | inr large ↦ rw large (concat-ne-nil _ _)
]

-- Every number that fits an `int` is read back from its print.
pub atoi-decimal : (n : ℕ) → n < 2 ^ 63 → atoi (decimal n) ≡ some (pos n)
unfolding decimal
atoi-decimal n h =
    atoi_of_digits (digits_fuel (suc n) n) n (digits_fuel-ne-nil n n) (decimal-IsDigit n)
      (digits_value-digits_fuel (suc n) n (omega arith)) h

digits_fuel_four :
    (fuel n : ℕ)
    → 1000 ≤ n
    → n < 10000
    → digits_fuel (suc (suc (suc (suc fuel)))) n
      ≡ (b'0' + n / 10 / 10 / 10)
        ∷ (b'0' + n / 10 / 10 % 10)
        ∷ (b'0' + n / 10 % 10)
        ∷ (b'0' + n % 10)
        ∷ []
unfolding digits_fuel
digits_fuel_four fuel n h k = ground arith

-- A number of four digits.
pub decimal_four :
    (n : ℕ)
    → 1000 ≤ n
    → n < 10000
    → decimal n
      ≡ (b'0' + n / 10 / 10 / 10)
        ∷ (b'0' + n / 10 / 10 % 10)
        ∷ (b'0' + n / 10 % 10)
        ∷ (b'0' + n % 10)
        ∷ []
unfolding decimal
decimal_four zero h k = absurd (omega arith)
decimal_four (suc zero) h k = absurd (omega arith)
decimal_four (suc (suc zero)) h k = absurd (omega arith)
decimal_four (suc (suc (suc n))) h k = digits_fuel_four n (suc (suc (suc n))) h k

reads :
    (atoi (codes "-12") ≡ some (negsuc 11))
    × (atoi (codes "9223372036854775808") ≡ none)
    × (atoi (codes "12x") ≡ none)
    × (decimal 120 ≡ codes "120")
unfolding atoi decimal
reads = (refl, refl, refl, refl)
