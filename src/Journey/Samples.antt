-- ===== src/Journey/Samples.antt =====
-- A driver whose identifiers are numbers, and a collection that keeps what comes after its rows.
use dkll.Base.{
  ℕ, zero, suc, ◌-◌, ◌≡◌, ◌≢◌, inl, inr, refl, ap, ◌∙◌, Bool, true, none, List, [], ◌∷◌, ◌++◌, map,
  keep, All, Bool-cases, Bytes, codes, bytes_eq, bytes_lt, length, ltb, arith,
}
use dkll.Core.{zero_time}
use dkll.Server.Mongo.{Driver, IsDriver, MongoLogEntry, kept_row}
use dkll.Server.Mongo.Query.Meaning.{matches}
use dkll.Server.Mongo.Store.{Database}
use dkll.Server.Mongo.Store.Selection.{
  limited, directed, sent_query, IsAscending, keep-IsAscending, IsDatabase,
}
use dkll.Reading.After.{keep-All}
use dkll.Journey.{IsGrowing}

-- The text of a number.
abbrev tally : ℕ → Bytes
tally zero = b'a' ∷ []
tally (suc i) = b'a' ∷ tally i

abbrev pub numbers : Driver
numbers = record {
  ObjectId = ℕ;
  from_hex = λ s. (length s - 1, none);
  hex = tally;
  show_id = tally;
  timestamp = λ i. zero_time;
  lt = ltb;
}

length-tally : (i : ℕ) → length (tally i) ≡ suc i
length-tally zero = refl
length-tally (suc i) = ap suc (length-tally i)

tally-ne-nil : (i : ℕ) → tally i ≢ []
tally-ne-nil zero = λ h. absurd cc
tally-ne-nil (suc i) = λ h. absurd cc

tally-ne-zero : (i : ℕ) → tally i ≢ codes "0"
tally-ne-zero zero = ground arith
tally-ne-zero (suc i) = ground arith

tally_order : (i j : ℕ) → bytes_lt (tally i) (tally j) ≡ ltb i j
tally_order zero zero = refl
tally_order zero (suc zero) = refl
tally_order zero (suc (suc j)) = ground arith
tally_order (suc i) zero = ground arith
tally_order (suc i) (suc j) = tally_order i j ∙ (ground arith)

pub numbers-IsDriver : IsDriver numbers
numbers-IsDriver = record {
  from_hex-hex = λ i. ap (λ n. (n, none)) (ap (λ n. n - 1) (length-tally i) ∙ omega arith);
  hex-ne-nil = tally-ne-nil;
  hex-ne-zero = tally-ne-zero;
  hex_order = tally_order;
  show_order = tally_order;
  lt-irrefl = λ i. ground arith;
  lt-trans = λ i j k h g. ground arith;
}

abbrev Row : Type 0
Row = MongoLogEntry numbers

-- The rows that come after all those before them.
abbrev pub rising : List Row → List Row
rising [] = []
rising (x ∷ xs) = x ∷ keep (λ (y : Row). ltb x.id y.id) (rising xs)

keep-kept : (p : Row → Bool) (xs : List Row) → All (λ x. p x ≡ true) (keep p xs)
keep-kept p [] = tt
keep-kept p (x ∷ xs) = elim (Bool-cases (p x)) [
  | inl e ↦ rw (e, keep, All) (e, keep-kept p xs)
  | inr e ↦ rw (e, keep) (keep-kept p xs)
]

-- The rows, and the last identifier that was given out.
abbrev pub growing : Database numbers
growing = record {
  State = List Row × ℕ;
  insert_many = λ rs s. ((rising s.0 ++ map (kept_row numbers) rs, s.1), (none, length rs));
  find = λ q l dir s. inl (
      limited l (
        directed numbers dir
          (keep (matches numbers bytes_eq (sent_query numbers q)) (rising s.0))));
  find_last = λ s. none;
  new_id = λ s. ((s.0, suc s.1), suc s.1);
}

pub later_suc : (n : ℕ) → ltb n (suc n) ≡ true
later_suc n = ground arith

pub rising-IsAscending : (xs : List Row) → IsAscending numbers (rising xs)
rising-IsAscending [] = tt
rising-IsAscending (x ∷ xs) = (
  keep-kept (λ (y : Row). ltb x.id y.id) (rising xs),
  keep-IsAscending numbers numbers-IsDriver growing (λ (y : Row). ltb x.id y.id) (rising xs)
      (rising-IsAscending xs),
)

pub rising_lem : (xs : List Row) → IsAscending numbers xs → rising xs ≡ xs
rising_lem [] h = refl
rising_lem (x ∷ xs) (h, hs) =
    ap (λ t. x ∷ keep (λ (y : Row). ltb x.id y.id) t) (rising_lem xs hs)
    ∙ ap (λ t. x ∷ t) (keep-All (λ (y : Row). ltb x.id y.id) xs h)

-- The cut of the times keeps the order.
kept-After :
    (i : ℕ) (rs : List Row)
    → All (λ (y : Row). ltb i y.id ≡ true) rs
    → All (λ (y : Row). ltb i y.id ≡ true) (map (kept_row numbers) rs)
kept-After i [] h = tt
kept-After i (r ∷ rs) (h, hs) = (h, kept-After i rs hs)

kept-IsAscending :
    (xs rs : List Row)
    → IsAscending numbers (xs ++ rs)
    → IsAscending numbers (xs ++ map (kept_row numbers) rs)
kept-IsAscending [] [] h = tt
kept-IsAscending [] (r ∷ rs) (h, hs) = (kept-After r.id rs h, kept-IsAscending [] rs hs)
kept-IsAscending (x ∷ xs) rs (h, hs) = (mixed x.id xs rs h, kept-IsAscending xs rs hs)
  where
    mixed :
        (i : ℕ) (ys zs : List Row)
        → All (λ (y : Row). ltb i y.id ≡ true) (ys ++ zs)
        → All (λ (y : Row). ltb i y.id ≡ true) (ys ++ map (kept_row numbers) zs)
    mixed i [] zs k = kept-After i zs k
    mixed i (y ∷ ys) zs (k, ks) = (k, mixed i ys zs ks)

pub rising_kept :
    (rs : List Row) (s : List Row × ℕ)
    → IsAscending numbers (rising s.0 ++ rs)
    → rising (rising s.0 ++ map (kept_row numbers) rs) ≡ rising s.0 ++ map (kept_row numbers) rs
rising_kept rs s h = rising_lem _ (kept-IsAscending (rising s.0) rs h)

abbrev pub growing-IsDatabase : IsDatabase numbers bytes_eq growing
growing-IsDatabase = record {
  rows = λ s. rising s.0;
  rows_ascend = λ s. rising-IsAscending s.0;
  found = λ q l dir s. inl refl;
}

abbrev pub growing-IsGrowing : IsGrowing numbers bytes_eq growing growing-IsDatabase
growing-IsGrowing = record {
  answers = λ q l dir s. (_, refl);
  last_id = λ s. s.1;
  HasGrown = λ s. Unit {0};
  grown-new_id = λ s h. (tt, later_suc s.1);
  grown-insert_many = λ rs s h. tt;
  last_id-new_id = λ s. refl;
  rows-new_id = λ s. refl;
  last_id-insert_many = λ rs s. refl;
  rows-insert_many = λ rs s h. rising_kept rs s h;
}
