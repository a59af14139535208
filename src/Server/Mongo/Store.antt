-- ===== src/Server/Mongo/Store.antt =====
-- `Publish`, `LastPublished` and `Find`, over a collection of the database.
pub mod Selection
pub mod Published
use dkll.Base.{
  ℕ, zero, suc, ◌+◌, ◌≡◌, ◌⊎◌, inl, inr, refl, Bool, true, false, not, ◌&&◌, ◌||◌, Option, none,
  some, List, [], ◌∷◌, ◌++◌, map, if◌then◌else◌, Bytes, codes, bytes_eq, bytes_lt, length, last_or,
  ℤ, pos, negsuc, ltb_ℤ, eq_ℤ,
}
use dkll.Errors.{Error}
use dkll.Core.{Time, LogEntry, empty_entry, Request}
use dkll.Server.Mongo.{
  Driver, MongoLogEntry, get_bid, make_mongo_entry, make_log_entry, is_first, default_limit,
}
use dkll.Server.Mongo.Query.{Bounds, Query, make_query}

-- The order of a search: `_id` from the least on, or from the greatest on.
pub data Direction : Type 0 where
  ascending descending : Direction

-- What the store calls of a collection. `find` covers `Find` and `cursor.All`, each of which can fail;
-- `find_last` is `FindOne` with the greatest `_id`, decoded; `insert_many` gives an error or the
-- number of inserted identifiers, and `new_id` is `NewObjectID`.
pub record Database (d : Driver) : Type 1 where
  pub State : Type 0
  pub insert_many : List (MongoLogEntry d) → State → State × (Option Error × ℕ)
  pub find : Query d → ℤ → Direction → State → List (MongoLogEntry d) ⊎ Error
  pub find_last : State → Option (MongoLogEntry d)
  pub new_id : State → State × d.ObjectId

-- The result of a call that may fail or panic.
pub data Outcome {ℓ} (A : Type ℓ) : Type ℓ where
  done : A → Outcome A
  failed : Error → Outcome A
  panicked : Outcome A

-- The limit that `sanitizeReq` gives a request; a negative one stays as it is.
sanitize_req : ℤ → ℤ
sanitize_req limit = if ltb_ℤ (pos 1000) limit then pos 1000 else limit

-- The limit with which `Find` goes on, where 0 stands for the default.
unfoldable pub sanitize_limit : ℤ → ℤ
unfolding sanitize_req
sanitize_limit limit = sanitize_req (if eq_ℤ limit (pos 0) then default_limit else limit)

module _ (d : Driver) (db : Database d) where
  open db use {State, insert_many, find, find_last, new_id}

  -- `Mongo`: the collection, and the cached entry `lastPublished`.
  pub record Mongo : Type 0 where
    pub state : State
    pub last_published : LogEntry

  -- `recs[i] = m.makeMongoEntry(v)`, in order; an identifier is drawn for each entry without one.
  unfoldable pub make_records : List LogEntry → State → State × List (MongoLogEntry d)
  make_records [] s = (s, [])
  make_records (e ∷ es) s =
      let drawn = if bytes_eq e.id [] then new_id s else (s, get_bid d e.id) in
      let rest = make_records es drawn.0 in (rest.0, make_mongo_entry d drawn.1 e ∷ rest.1)

  -- The cache after an insertion that gave `inserted` identifiers; `records[len(records)-1]` of no
  -- records panics.
  unfoldable pub cache_last : List LogEntry → ℕ → Mongo → Mongo × Outcome (Unit {0})
  cache_last rs zero m = (m, done tt)
  cache_last [] (suc n) m = (m, panicked)
  cache_last (r ∷ rs) (suc n) m = (record m { last_published = last_or r rs }, done tt)

  unfoldable pub after_insert :
      List LogEntry → Option Error → ℕ → Mongo → Mongo × Outcome (Unit {0})
  unfolding cache_last
  after_insert rs (some e) n m = (m, failed e)
  after_insert rs none n m = cache_last rs n m

  -- `Publish`
  unfoldable pub publish : List LogEntry → Mongo → Mongo × Outcome (Unit {0})
  unfolding make_records after_insert
  publish records m =
      let made = make_records records m.state in
      let inserted = insert_many made.1 made.0 in
      after_insert records inserted.1.0 inserted.1.1 (record m { state = inserted.0 })

  -- `LastPublished`, which never fails.
  unfoldable pub last_published : Mongo → LogEntry
  last_published m =
      if not (bytes_eq m.last_published.id [])
      then m.last_published
      else elim (find_last m.state) [ none ↦ empty_entry | some e ↦ make_log_entry d e ]

  -- `sort.Slice` by the text of the identifier, as insertion; identifiers in a collection are distinct.
  pub insert_sorted : MongoLogEntry d → List (MongoLogEntry d) → List (MongoLogEntry d)
  insert_sorted e [] = e ∷ []
  insert_sorted e (x ∷ xs) =
      let rest = insert_sorted e xs in
      if bytes_lt (d.show_id x.id) (d.show_id e.id) then x ∷ rest else e ∷ x ∷ xs

  pub sort_slice : List (MongoLogEntry d) → List (MongoLogEntry d)
  unfolding insert_sorted
  sort_slice [] = []
  sort_slice (e ∷ es) = insert_sorted e (sort_slice es)

  -- The test that spares a search: the caller has seen the last published entry.
  unfoldable pub is_seen : Request → LogEntry → Bool
  is_seen req last =
      not (bytes_eq req.last_id [])
      && (not (bytes_eq last.id []) && not (bytes_lt req.last_id last.id))

  -- What `Find` makes of the rows.
  unfoldable pub finish : Bool → List (MongoLogEntry d) ⊎ Error → Outcome (List LogEntry)
  unfolding sort_slice
  finish first (inr e) = failed e
  finish first (inl rows) = done (map (make_log_entry d) (if first then sort_slice rows else rows))

  unfoldable pub search : Bounds → Request → Mongo → Outcome (List LogEntry)
  unfolding finish
  search bounds req m = elim (make_query d bounds req) [
    | none ↦ panicked
    | some q ↦
        finish (is_first req.last_id)
          (find q req.limit (if is_first req.last_id then descending else ascending) m.state)
  ]

  -- `Find`
  unfoldable pub find_entries : Bounds → Request → Mongo → Outcome (List LogEntry)
  find_entries bounds req m =
      let req' = record req { limit = sanitize_limit req.limit } in
      if is_seen req' m.last_published then done [] else search bounds req' m
