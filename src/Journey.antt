-- ===== src/Journey.antt =====
-- The way of a line through the whole server to a client: the forwarder, the store, the handlers and the
-- client over one collection.
pub mod Grown
pub mod Delivered
pub mod Samples
pub mod Examples
use dkll.Base.{◌≡◌, inl, true, ℤ, Bytes, List, map, ◌++◌, ◌&&◌, Bool, leb, ltb, if◌then◌else◌}
use dkll.Core.{LogEntry, Request, is_zero}
use dkll.Server.Mongo.{Driver, MongoLogEntry, kept_row}
use dkll.Server.Mongo.Query.{Bounds, Query}
use dkll.Server.Mongo.Query.Meaning.{any_or_listed, unlisted}
use dkll.Server.Mongo.Store.{Database, Direction}
use dkll.Server.Mongo.Store.Selection.{IsAscending, IsDatabase}

-- A collection that does not fail and is below its cap, and its identifiers. They need not grow, as the
-- clock may be set back and the counter in them starts again after 2 ^ 24; `HasGrown` says of a state that
-- each one that was given out until then was later than the one before. Drawing one does not change the
-- rows; an insertion of rows that come after those that are there puts them behind these, with times cut
-- to milliseconds, and gives out no identifier.
pub record IsGrowing (d : Driver) (match_regex : Bytes → Bytes → Bool) (db : Database d)
    (isdb : IsDatabase d match_regex db) : Type 1 where
  pub answers :
      (q : Query d) (l : ℤ) (dir : Direction) (s : db.State)
      → (rs : List (MongoLogEntry d)) × (db.find q l dir s ≡ inl rs)
  pub last_id : db.State → d.ObjectId
  pub HasGrown : db.State → Type 0
  pub grown-new_id :
      (s : db.State)
      → HasGrown (db.new_id s).0
      → HasGrown s × (d.lt (last_id s) (db.new_id s).1 ≡ true)
  pub grown-insert_many :
      (rs : List (MongoLogEntry d)) (s : db.State) → HasGrown (db.insert_many rs s).0 → HasGrown s
  pub last_id-new_id : (s : db.State) → last_id (db.new_id s).0 ≡ (db.new_id s).1
  pub rows-new_id : (s : db.State) → isdb.rows (db.new_id s).0 ≡ isdb.rows s
  pub last_id-insert_many :
      (rs : List (MongoLogEntry d)) (s : db.State) → last_id (db.insert_many rs s).0 ≡ last_id s
  pub rows-insert_many :
      (rs : List (MongoLogEntry d)) (s : db.State)
      → IsAscending d (isdb.rows s ++ rs)
      → isdb.rows (db.insert_many rs s).0 ≡ isdb.rows s ++ map (kept_row d) rs

-- An entry that a request asks for, apart from the last entry that was seen.
abbrev pub wants : (Bytes → Bytes → Bool) → Bounds → Request → LogEntry → Bool
wants match_regex bounds r e =
    leb (if is_zero r.from_ts then bounds.year_2000 else r.from_ts) e.ts
    && (ltb e.ts (if is_zero r.to_ts then bounds.year_2100 else r.to_ts)
        && ((any_or_listed match_regex r.containers e.container
              && unlisted match_regex r.excludes e.container)
            && any_or_listed match_regex r.hosts e.host))
