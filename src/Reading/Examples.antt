-- ===== src/Reading/Examples.antt =====
-- The client at the handlers of a server over a small collection.
use dkll.Base.{◌≡◌, ◌⊎◌, inl, inr, refl, ap, List, true, false, none, [], ◌∷◌, map, codes, pos}
use dkll.Core.{LogEntry, Request, empty_entry}
use dkll.Errors.{Error}
use dkll.Server.Mongo.{Driver}
use dkll.Server.Mongo.Query.{Query}
use dkll.Server.Mongo.Store.{Mongo, sanitize_limit}
use dkll.Server.Rest.{clamp}
use dkll.Server.Mongo.Examples.{two_ids, days, fixed_rows, request}
use dkll.Client.{DisplayParams}
use dkll.Client.Pages.{asking}
use dkll.Reading.{Surroundings, coerced, IsJson}
use dkll.Reading.Printed.{effective_limit}

abbrev store : Mongo two_ids fixed_rows
store = record { state = tt; last_published = empty_entry }

-- Requests that are read back whatever they are written as.
abbrev pub all_asked : Request
all_asked = request [] []

abbrev pub plain : DisplayParams
plain = record {
  show_pid = true;
  show_ts = false;
  follow_mode = false;
  tail_mode = false;
  show_syslog = false;
  grep = [];
  un_grep = [];
}

abbrev first_of : List LogEntry → LogEntry ⊎ Error
first_of [] = inr (codes "json")
first_of (e ∷ es) = inl e

-- Requests of this kind, written as the entry after which they ask, and answers that are the entries.
abbrev pub surroundings : Surroundings
surroundings = record {
  red = λ s. s;
  green = λ s. s;
  yellow = λ s. s;
  white = λ s. s;
  show_time = λ t. codes "T";
  is_canceled_error = λ e. false;
  encode = λ r. r.last_id;
  decode = λ b. inl (asking all_asked b);
  Json = List LogEntry;
  encode_entries = λ es. inl es;
  decode_entries = λ es. inl es;
  encode_entry = λ e. inl (e ∷ []);
  decode_entry = first_of;
  to_utf8 = λ s. s;
}

coerced-same : (es : List LogEntry) → es ≡ map (coerced surroundings) es
coerced-same [] = refl
coerced-same (e ∷ es) = ap (λ t. e ∷ t) (coerced-same es)

pub surroundings-IsJson : (d : Driver) → IsJson d surroundings
surroundings-IsJson d = record {
  reads = λ es h. (es, refl, ap inl (coerced-same es));
  hex_kept = λ i. refl;
}

abbrev all_query : Query two_ids
all_query = record {
  id_gt = false;
  ts_gte = days 369;
  ts_lt = days 500;
  container = none;
  host = none;
}

pub limited_100 : effective_limit (pos 100) all_asked ≡ pos 100
unfolding sanitize_limit clamp
limited_100 = refl
