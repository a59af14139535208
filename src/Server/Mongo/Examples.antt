-- ===== src/Server/Mongo/Examples.antt =====
-- The theorems on the store, with a driver of two identifiers and a collection of two entries.
use dkll.Base.{
  ℕ, ◌*◌, ◌^◌, ◌≡◌, ◌≢◌, ◌⊎◌, inl, inr, refl, Bool, true, false, not, ◌&&◌, ◌||◌, none, some, List,
  [], ◌∷◌, map, keep, arith, if◌then◌else◌, Bytes, codes, bytes_eq, bytes_lt, pos, has_prefix,
  has_suffix,
}
use dkll.Errors.{Error}
use dkll.Core.{LogEntry, Request, zero_time, empty_entry}
use dkll.Server.Mongo.{Driver, IsDriver, MongoLogEntry, make_log_entry, is_first, get_bid}
use dkll.Server.Mongo.Query.{
  Bounds, Query, make_query, exact, regex, convert_one, convert_list, among_of, exclude,
}
use dkll.Server.Mongo.Query.Meaning.{matches, admits, matches-make_query}
use dkll.Server.Mongo.Query.Panics.{is_none, has_slash, make_query-slash}
use dkll.Server.Mongo.Store.{
  publish, last_published, Database, Mongo, done, failed, sanitize_limit, find_entries, is_seen,
  ascending, descending,
}
use dkll.Server.Mongo.Store.Published.{publish-uncached}
use dkll.Samples.{entry_of}
use dkll.Server.Mongo.Store.Selection.{
  limited, directed, sent_query, IsDatabase, page, find_entries-page,
}

-- The texts of the two identifiers.
abbrev pub name_of : Bool → Bytes
name_of false = codes "a"
name_of true = codes "b"

abbrev pub two_ids : Driver
two_ids = record {
  ObjectId = Bool;
  from_hex = λ s.
      if bytes_eq s (codes "b")
      then (true, none)
      else if bytes_eq s (codes "a")
      then (false, none)
      else (false, some (codes "invalid"));
  hex = name_of;
  show_id = name_of;
  timestamp = λ i. zero_time;
  lt = λ i j. not i && j;
}

pub two_ids-IsDriver : IsDriver two_ids
two_ids-IsDriver = record {
  from_hex-hex = read_back;
  hex-ne-nil = not_nil;
  hex-ne-zero = not_zero;
  hex_order = in_order;
  show_order = in_order;
  lt-irrefl = irrefl;
  lt-trans = λ i j k h g. ground arith;
}
  where
    read_back : (i : Bool) → two_ids.from_hex (name_of i) ≡ (i, none)
    read_back true = refl
    read_back false = refl

    not_nil : (i : Bool) → name_of i ≢ []
    not_nil true = λ h. absurd cc
    not_nil false = λ h. absurd cc

    not_zero : (i : Bool) → name_of i ≢ codes "0"
    not_zero true = ground arith
    not_zero false = ground arith

    in_order : (i j : Bool) → bytes_lt (name_of i) (name_of j) ≡ (not i && j)
    in_order true true = refl
    in_order true false = refl
    in_order false true = refl
    in_order false false = refl

    irrefl : (i : Bool) → (not i && i) ≡ false
    irrefl true = refl
    irrefl false = refl

-- A number of days as a time.
abbrev pub days : ℕ → ℕ
days n = n * 86400 * 10 ^ 9

abbrev pub row : Bool → Bytes → MongoLogEntry two_ids
row i container = record {
  id = i;
  host = codes "host-1";
  container = container;
  pid = pos 5;
  msg = codes "ready";
  ts = days 400;
}

abbrev pub rows : List (MongoLogEntry two_ids)
rows = row false (codes "mongo") ∷ row true (codes "nginx") ∷ []

-- A collection of the two rows, which takes no others.
abbrev pub fixed_rows : Database two_ids
fixed_rows = record {
  State = Unit {0};
  insert_many = λ rs s. (s, (some (codes "read only"), 0));
  find = λ q l dir s. inl (
      limited l
        (directed two_ids dir (keep (matches two_ids bytes_eq (sent_query two_ids q)) rows)));
  find_last = λ s. some (row true (codes "nginx"));
  new_id = λ s. (s, true);
}

abbrev pub fixed_rows-IsDatabase : IsDatabase two_ids bytes_eq fixed_rows
fixed_rows-IsDatabase = record {
  rows = λ s. rows;
  rows_ascend = λ s. ((refl, tt), (tt, tt));
  found = λ q l dir s. inl refl;
}

abbrev pub years : Bounds
years = record { year_2000 = days 369; year_2100 = days 500 }

abbrev pub request : List Bytes → List Bytes → Request
request containers excludes = record {
  last_id = [];
  limit = pos 0;
  hosts = [];
  containers = containers;
  excludes = excludes;
  from_ts = zero_time;
  to_ts = zero_time;
}

abbrev some_containers : Request
some_containers = request (codes "mongo" ∷ codes "/nginx/" ∷ []) (codes "mongo" ∷ [])

abbrev query : Query two_ids
query = record {
  id_gt = false;
  ts_gte = days 369;
  ts_lt = days 500;
  container = some (record {
    among = some (exact (codes "mongo") ∷ regex (codes "nginx") ∷ []);
    outside = some (exact (codes "mongo") ∷ []);
  });
  host = none;
}

make_query-some : make_query two_ids years some_containers ≡ some query
unfolding make_query among_of exclude convert_list convert_one get_bid has_prefix has_suffix
make_query-some = refl

matches-make_query_example :
    matches two_ids bytes_eq query (row true (codes "nginx"))
    ≡ admits two_ids bytes_eq years some_containers (row true (codes "nginx"))
matches-make_query_example =
    matches-make_query two_ids bytes_eq years some_containers query (row true (codes "nginx"))
      make_query-some

make_query-slash_example :
    is_none (make_query two_ids years (request [] (codes "a" ∷ codes "/" ∷ [])))
    ≡ (has_slash [] || (has_slash [] || has_slash (codes "a" ∷ codes "/" ∷ [])))
make_query-slash_example = make_query-slash two_ids years (request [] (codes "a" ∷ codes "/" ∷ []))

abbrev store : Mongo two_ids fixed_rows
store = record { state = tt; last_published = empty_entry }

find_entries-page_example :
    (find_entries two_ids fixed_rows years some_containers store
      ≡ done (
          map (make_log_entry two_ids) (
            page two_ids two_ids-IsDriver fixed_rows
              (is_first some_containers.last_id)
              (sanitize_limit some_containers.limit)
              (keep (admits two_ids bytes_eq years some_containers) rows))))
    ⊎ ((e : Error) × (fixed_rows.find query
            (sanitize_limit some_containers.limit)
            (if is_first some_containers.last_id then descending else ascending)
            tt
          ≡ inr e)
        × (find_entries two_ids fixed_rows years some_containers store ≡ failed e))
unfolding is_seen admits
find_entries-page_example =
    find_entries-page two_ids two_ids-IsDriver fixed_rows bytes_eq fixed_rows-IsDatabase store years
      some_containers query refl make_query-some refl

-- An entry with an identifier of the driver.
abbrev stored : LogEntry
stored = entry_of (codes "b") (codes "host-1") (codes "mongo") (codes "started")

-- An entry as the forwarder makes it.
abbrev new : LogEntry
new = entry_of [] (codes "host-1") (codes "mongo") (codes "started")

publish-uncached_example :
    let m' = (publish two_ids fixed_rows (new ∷ []) store).0 in
    ((req : Request) → is_seen two_ids fixed_rows req m'.last_published ≡ false)
    × (last_published two_ids fixed_rows m' ≡ elim (fixed_rows.find_last m'.state) [
      | none ↦ empty_entry
      | some e ↦ make_log_entry two_ids e
    ])
publish-uncached_example = publish-uncached two_ids fixed_rows (new ∷ []) store (refl, tt) refl
