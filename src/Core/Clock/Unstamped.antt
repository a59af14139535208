-- ===== src/Core/Clock/Unstamped.antt =====
-- Texts of digits where the layout "2006 Jan _2 15:04:05" wants the name of a month.
use dkll.Base.{
  ℕ, zero, suc, ◌+◌, ◌≤◌, ◌<◌, ◌≡◌, ap, ◌∙◌, refl, none, some, ◌∷◌, ◌++◌, arith, Bytes, decimal,
}
use dkll.Core.Clock.{
  >>=-some, >>=-none, get_year, get_month, skip_space, complete, parse_stamp, stamp_parser,
}
use dkll.Core.Clock.RoundTrip.{get_year-decimal, parse_stamp_lem}

-- No name of a month begins with a digit.
get_month-digit : (k : ℕ) (rest : Bytes) → k < 10 → get_month ((b'0' + k) ∷ rest) ≡ none
unfolding get_month
get_month-digit zero rest h = refl
get_month-digit (suc zero) rest h = refl
get_month-digit (suc (suc zero)) rest h = refl
get_month-digit (suc (suc (suc zero))) rest h = refl
get_month-digit (suc (suc (suc (suc zero)))) rest h = refl
get_month-digit (suc (suc (suc (suc (suc zero))))) rest h = refl
get_month-digit (suc (suc (suc (suc (suc (suc zero)))))) rest h = refl
get_month-digit (suc (suc (suc (suc (suc (suc (suc zero))))))) rest h = refl
get_month-digit (suc (suc (suc (suc (suc (suc (suc (suc zero)))))))) rest h = refl
get_month-digit (suc (suc (suc (suc (suc (suc (suc (suc (suc zero))))))))) rest h = refl
get_month-digit (suc (suc (suc (suc (suc (suc (suc (suc (suc (suc k)))))))))) rest h =
    absurd (omega arith)

skip_space-digit :
    (k : ℕ) (rest : Bytes) → skip_space (b' ' ∷ (b'0' + k) ∷ rest) ≡ some (tt, (b'0' + k) ∷ rest)
unfolding skip_space
skip_space-digit k rest = ground arith

-- A text with a digit behind the year has no stamp.
pub parse_stamp-digit :
    (y k : ℕ) (rest : Bytes)
    → 1000 ≤ y
    → y < 10000
    → k < 10
    → parse_stamp (decimal y ++ b' ' ∷ (b'0' + k) ∷ rest) ≡ none
parse_stamp-digit y k rest low high h = parse_stamp_lem _ ∙ ap complete no_stamp
  where
    no_stamp : stamp_parser (decimal y ++ b' ' ∷ (b'0' + k) ∷ rest) ≡ none
    no_stamp =
        >>=-some get_year _ (get_year-decimal y _ low high)
        ∙ >>=-some skip_space _ (skip_space-digit k rest)
        ∙ >>=-none get_month _ (get_month-digit k rest h)
