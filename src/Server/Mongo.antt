-- ===== src/Server/Mongo.antt =====
-- app/server/mongo.go: the store of the entries, on the driver of MongoDB.
pub mod Query
pub mod Store
pub mod Init
pub mod Examples
use dkll.Base.{
  ℕ, ◌+◌, ◌*◌, ◌/◌, ◌^◌, ◌≡◌, ◌≢◌, refl, Bool, true, false, ◌||◌, Option, none, some, List, [], ◌∷◌,
  ◌==◌, ltb, if◌then◌else◌, Bytes, codes, bytes_eq, bytes_lt, ℤ, pos,
}
use dkll.Errors.{Error}
use dkll.Core.{Time, LogEntry}

-- A time as `NewDateTimeFromTime` of the driver cuts it, to whole milliseconds.
abbrev pub millis : Time → Time
millis t = t / 10 ^ 6 * 10 ^ 6

-- `primitive.ObjectID` of the driver, and the order of the database on it.
pub record Driver : Type 1 where
  pub ObjectId : Type 0
  -- ObjectIDFromHex
  pub from_hex : Bytes → ObjectId × Option Error
  -- Hex, String and Timestamp
  pub hex : ObjectId → Bytes
  pub show_id : ObjectId → Bytes
  pub timestamp : ObjectId → Time
  pub lt : ObjectId → ObjectId → Bool

-- What the driver documents of them: an identifier is read back from its digits, which are neither none
-- nor a single 0, texts are ordered as the identifiers are, and that order is strict.
pub record IsDriver (d : Driver) : Type 0 where
  pub from_hex-hex : (i : d.ObjectId) → d.from_hex (d.hex i) ≡ (i, none)
  pub hex-ne-nil : (i : d.ObjectId) → d.hex i ≢ []
  pub hex-ne-zero : (i : d.ObjectId) → d.hex i ≢ codes "0"
  pub hex_order : (i j : d.ObjectId) → bytes_lt (d.hex i) (d.hex j) ≡ d.lt i j
  pub show_order : (i j : d.ObjectId) → bytes_lt (d.show_id i) (d.show_id j) ≡ d.lt i j
  pub lt-irrefl : (i : d.ObjectId) → d.lt i i ≡ false
  pub lt-trans : (i j k : d.ObjectId) → d.lt i j ≡ true → d.lt j k ≡ true → d.lt i k ≡ true

abbrev pub def_max_docs : ℕ
def_max_docs = 100000000

abbrev pub def_max_collection_size : ℕ
def_max_collection_size = 10 * 1024 * 1024 * 1024

abbrev pub default_limit : ℤ
default_limit = pos 1000

-- `MongoParams`; the delay is not used.
pub record MongoParams : Type 0 where
  pub max_docs : ℕ
  pub max_collection_size : ℕ
  pub db_name : Bytes
  pub collection : Bytes

-- The defaults that `NewMongo` puts in.
unfoldable pub with_defaults : MongoParams → MongoParams
with_defaults p = record p {
  max_collection_size =
      if p.max_collection_size == 0 then def_max_collection_size else p.max_collection_size;
  max_docs = if p.max_docs == 0 then def_max_docs else p.max_docs;
}

-- `req.LastID == "" || req.LastID == "0"`
abbrev pub is_first : Bytes → Bool
is_first id = bytes_eq id [] || bytes_eq id (codes "0")

module _ (d : Driver) where
  open d use {ObjectId, from_hex, hex, timestamp}

  -- `mongoLogEntry`
  pub record MongoLogEntry : Type 0 where
    pub id : ObjectId
    pub host : Bytes
    pub container : Bytes
    pub pid : ℤ
    pub msg : Bytes
    pub ts : Time

  -- A record as the database keeps it: the driver writes a time as a number of milliseconds.
  abbrev pub kept_row : MongoLogEntry → MongoLogEntry
  kept_row r = record r { ts = millis r.ts }

  -- `getBid`; what `ObjectIDFromHex` returns beside an error for 12 zeros stands for the least identifier.
  unfoldable pub get_bid : Bytes → ObjectId
  get_bid id =
      let least = (from_hex (codes "000000000000")).0 in
      if is_first id
      then least
      else elim (from_hex id).1 [ none ↦ (from_hex id).0 | some e ↦ least ]

  -- `makeMongoEntry`; `fresh` is what `primitive.NewObjectID` returns.
  unfoldable pub make_mongo_entry : ObjectId → LogEntry → MongoLogEntry
  unfolding get_bid
  make_mongo_entry fresh entry = record {
    id = if bytes_eq entry.id [] then fresh else get_bid entry.id;
    host = entry.host;
    container = entry.container;
    pid = entry.pid;
    msg = entry.msg;
    ts = entry.ts;
  }

  -- `makeLogEntry`
  unfoldable pub make_log_entry : MongoLogEntry → LogEntry
  make_log_entry entry = record {
    id = hex entry.id;
    host = entry.host;
    container = entry.container;
    pid = entry.pid;
    msg = entry.msg;
    ts = entry.ts;
    created_ts = timestamp entry.id;
  }
