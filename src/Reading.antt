-- ===== src/Reading.antt =====
-- The client, the handlers of the server and the store together: what a client reads of a collection.
pub mod After
pub mod Printed
pub mod Examples
use dkll.Base.{
  ℕ, zero, suc, ◌*◌, ◌^◌, ◌≤◌, ◌<◌, ◌≡◌, ◌≢◌, ◌⊎◌, inl, inr, refl, ap, ap₂, sym, subst, ◌∙◌, Bool,
  true, false, not, ◌&&◌, ◌||◌, Option, none, some, List, [], ◌∷◌, ◌++◌, map, take, keep, All,
  Bool-cases, if◌then◌else◌, Bytes, codes, bytes_eq, leb, ltb, ℤ, pos, eq_ℤ, ltb_ℤ, length, arith,
}
use dkll.Errors.{Error}
use dkll.Core.{Time, is_zero, LogEntry, Request}
use dkll.Server.Mongo.{Driver, IsDriver, MongoLogEntry, get_bid, make_log_entry, is_first}
use dkll.Server.Mongo.Query.{Bounds, Query, make_query}
use dkll.Server.Mongo.Query.Meaning.{make_query-parts, any_or_listed, unlisted, admits}
use dkll.Server.Mongo.Store.{
  Database, Outcome, done, failed, panicked, Mongo, sanitize_limit, Direction, ascending,
  descending, is_seen, finish, search, last_published, find_entries,
}
use dkll.Server.Mongo.Store.Published.{not_same, get_bid-hex, is_seen-NoId}
use dkll.Server.Mongo.Store.Selection.{
  make_query-limit, keep-IsAscending, find_entries-page, page, limited, IsAscending, IsDatabase,
}
use dkll.Server.Rest.{Service, Response, records, last, bad_request, clamp, find_ctrl, last_ctrl}
use dkll.Client.{DisplayParams, Terminal, Run, activate_loop, out_all, returned}
use dkll.Client.Pages.{IsPaged, asking, activate_loop-pages}

-- What is given of the client and the server: the terminal, and the encoding of requests and of what is
-- answered to them as JSON, where entries that cannot be written are an error. `Json` is the type of the texts, and `to_utf8` what the
-- encoding makes of a text: it replaces the bytes that are not UTF-8.
pub record Surroundings : Type 1 where
  pub red : Bytes → Bytes
  pub green : Bytes → Bytes
  pub yellow : Bytes → Bytes
  pub white : Bytes → Bytes
  pub show_time : Time → Bytes
  pub is_canceled_error : Error → Bool
  pub encode : Request → Bytes
  pub decode : Bytes → Request ⊎ Error
  pub Json : Type 0
  pub encode_entries : List LogEntry → Json ⊎ Error
  pub decode_entries : Json → List LogEntry ⊎ Error
  pub encode_entry : LogEntry → Json ⊎ Error
  pub decode_entry : Json → LogEntry ⊎ Error
  pub to_utf8 : Bytes → Bytes

-- An entry as it is read back from JSON.
abbrev pub coerced : Surroundings → LogEntry → LogEntry
coerced env e = record e {
  id = env.to_utf8 e.id;
  host = env.to_utf8 e.host;
  container = env.to_utf8 e.container;
  msg = env.to_utf8 e.msg;
}

-- A time of the years 0 to 9999, which JSON can write.
abbrev pub InYears : Time → Type 0
InYears t = (2 * 86400 * 10 ^ 9 ≤ t) × (t < 3652427 * 86400 * 10 ^ 9)

abbrev pub IsWritable : LogEntry → Type 0
IsWritable e = InYears e.ts × InYears e.created_ts

-- What the package encoding/json documents: entries with such times are written, and are read back with
-- their texts in UTF-8; the text of an identifier is UTF-8.
pub record IsJson (d : Driver) (env : Surroundings) : Type 0 where
  pub reads :
      (es : List LogEntry)
      → All IsWritable es
      → (b : env.Json) × (env.encode_entries es ≡ inl b)
        × (env.decode_entries b ≡ inl (map (coerced env) es))
  pub hex_kept : (i : d.ObjectId) → env.to_utf8 (d.hex i) ≡ d.hex i

module _ (d : Driver) (db : Database d) (bounds : Bounds) (m : Mongo d db) (env : Surroundings)
    (limit : ℤ) where
  -- What `Find` gives, as a value and an error; a panic ends the request.
  unfoldable pub result : Outcome (List LogEntry) → List LogEntry ⊎ Error
  result (done rs) = inl rs
  result (failed e) = inr e
  result panicked = inr (codes "panic")

  -- The store behind the handlers, at the state `m`, which they do not change.
  abbrev pub store_service : Service
  store_service = record {
    World = Unit {0};
    find = λ req w. (w, result (find_entries d db bounds req m));
    last_published = λ w. (w, inl (last_published d db m));
    decode = env.decode;
    encode = λ e w. (w, none);
  }

  -- What the client reads of a response; entries that JSON cannot write are answered with status 500.
  unfoldable pub entries_of : Response → List LogEntry ⊎ Error
  entries_of (records rs) = elim (env.encode_entries rs) [
    | inl b ↦ env.decode_entries b
    | inr e ↦ inr (codes "status")
  ]
  entries_of (last e) = inr (codes "status")
  entries_of (bad_request e msg) = inr (codes "status")

  unfoldable pub last_of : Response → LogEntry ⊎ Error
  last_of (records rs) = inr (codes "json")
  last_of (last e) = elim (env.encode_entry e) [
    | inl b ↦ env.decode_entry b
    | inr x ↦ inr (codes "http code")
  ]
  last_of (bad_request e msg) = inr (codes "http code")

  -- The client at the handlers.
  unfoldable pub post : Request → List LogEntry ⊎ Error
  unfolding entries_of find_ctrl
  post req = entries_of (find_ctrl store_service limit (env.encode req) tt).1

  abbrev pub at_handlers : Terminal
  at_handlers = record {
    World = Unit {0};
    red = env.red;
    green = env.green;
    yellow = env.yellow;
    white = env.white;
    show_time = env.show_time;
    get_last = λ w. (w, last_of (last_ctrl store_service limit w).1);
    post_find = λ req w. (w, post req);
    is_cancelled = λ w. (w, false);
    is_canceled_error = env.is_canceled_error;
  }
