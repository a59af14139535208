-- ===== src/Server/Mongo/Query.antt =====
-- `makeQuery` and `convertListWithRegex`, and what a query means.
pub mod Meaning
pub mod Panics
use dkll.Base.{
  ℕ, ◌+◌, ◌-◌, ◌≡◌, refl, Bool, true, false, not, ◌&&◌, ◌||◌, Option, none, some, List, [], ◌∷◌,
  leb, ltb, if◌then◌else◌, Bytes, codes, length, take, drop, has_prefix, has_suffix, bytes_eq, ℤ,
  pos, ltb_ℤ,
}
use dkll.Core.{Time, is_zero, Request}
use dkll.Server.Mongo.{Driver, MongoLogEntry, get_bid}

-- A value in a list of a query: a text, or a `primitive.Regex` with no options.
pub data Pattern : Type 0 where
  exact regex : Bytes → Pattern

infixl 5 ◌>>=◌
abbrev pub ◌>>=◌ : {A B : Type 0} → Option A → (A → Option B) → Option B
none >>= f = none
some a >>= f = f a

-- One text of a list. `elem[1 : len(elem)-1]` of the text `/` is out of range: the program panics.
unfoldable pub convert_one : Bytes → Option Pattern
unfolding has_prefix has_suffix
convert_one elem =
    if has_prefix elem (codes "/") && has_suffix elem (codes "/")
    then (if leb 2 (length elem) then some (regex (take (length elem - 2) (drop 1 elem))) else none)
    else some (exact elem)

-- `convertListWithRegex`; `none` is a panic.
unfoldable pub convert_list : List Bytes → Option (List Pattern)
convert_list [] = some []
convert_list (elem ∷ elems) = do p ← convert_one elem; ps ← convert_list elems; some (p ∷ ps)

-- The `$in` and the `$nin` of a field.
pub record Choice : Type 0 where
  pub among : Option (List Pattern)
  pub outside : Option (List Pattern)

-- The two times that stand for no bound, `time.Date(2000, 1, 1, …)` and `time.Date(2100, 1, 1, …)` in
-- the local zone.
pub record Bounds : Type 0 where
  pub year_2000 : Time
  pub year_2100 : Time

module _ (d : Driver) where
  open d use {ObjectId}

  -- The document that `makeQuery` builds; a field that it does not name is `none`.
  pub record Query : Type 0 where
    pub id_gt : ObjectId
    pub ts_gte : Time
    pub ts_lt : Time
    pub container : Option Choice
    pub host : Option Choice

  -- `query[key] = bson.M{"$in": convertListWithRegex(elems)}` if there are any.
  unfoldable pub among_of : List Bytes → Option (Option Choice)
  among_of [] = some none
  among_of (e ∷ es) = do
    ps ← convert_list (e ∷ es)
    some (some (record { among = some ps; outside = none }))

  -- The excludes join the condition on the container, if there is one.
  unfoldable pub exclude : List Bytes → Option Choice → Option (Option Choice)
  exclude [] c = some c
  exclude (e ∷ es) (some c) = do
    ps ← convert_list (e ∷ es)
    some (some (record c { outside = some ps }))
  exclude (e ∷ es) none = do
    ps ← convert_list (e ∷ es)
    some (some (record { among = none; outside = some ps }))

  -- `makeQuery`; `none` is a panic.
  unfoldable pub make_query : Bounds → Request → Option Query
  make_query bounds req = do
    containers ← among_of req.containers
    hosts ← among_of req.hosts
    containers ← exclude req.excludes containers
    some (record {
      id_gt = get_bid d req.last_id;
      ts_gte = if is_zero req.from_ts then bounds.year_2000 else req.from_ts;
      ts_lt = if is_zero req.to_ts then bounds.year_2100 else req.to_ts;
      container = containers;
      host = hosts;
    })
