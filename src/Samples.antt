-- ===== src/Samples.antt =====
-- Test data: a clock, lines and entries, and a collection of errors that keeps the last one.
use dkll.Base.{◌≢◌, refl, arith, Option, none, some, Bytes, codes, pos}
use dkll.Errors.{Error, MultiError, IsMultiError}
use dkll.Core.{LogEntry}
use dkll.Core.Clock.{Civil, days_in}
use dkll.Core.Clock.RoundTrip.{IsStamp}
use dkll.Core.Entry.{Now}

abbrev pub clock_2019 : Now
clock_2019 = record { now = 7; year = 2019 }

abbrev pub october : Civil
october = record {
  year = 2019;
  month = 10;
  day = 9;
  hour = 15;
  minute = 29;
  second = 43;
  nanos = 0;
}

pub october-IsStamp : IsStamp october
unfolding days_in
october-IsStamp = record {
  year_low = omega arith;
  year_high = omega arith;
  month_low = omega arith;
  month_high = omega arith;
  day_low = omega arith;
  day_high = omega arith;
  hour_high = omega arith;
  minute_high = omega arith;
  second_high = omega arith;
  whole = refl;
}

abbrev pub entry_of : Bytes → Bytes → Bytes → Bytes → LogEntry
entry_of id host container msg = record {
  id = id;
  host = host;
  container = container;
  pid = pos 5;
  msg = msg;
  ts = 9;
  created_ts = 7;
}

abbrev pub mongo_entry : LogEntry
mongo_entry = entry_of (codes "a1") (codes "host-1") (codes "mongo") (codes "started")

abbrev pub nginx_entry : LogEntry
nginx_entry = entry_of (codes "a2") (codes "host-1") (codes "nginx") (codes "ready")

-- The last of two errors, if there is one.
abbrev later : Option Error → Option Error → Option Error
later es none = es
later es (some e) = some e

abbrev pub last_error : MultiError
last_error = record { Errors = Option Error; empty = none; append = later; error_or_nil = λ es. es }

pub last_error-IsMultiError : IsMultiError last_error
last_error-IsMultiError = record {
  skips = λ es. refl;
  nil_of_empty = refl;
  error_of_append = λ es e h. absurd cc;
  error_stays = stays;
}
  where
    stays : (es e : Option Error) → es ≢ none → later es e ≢ none
    stays es none h = h
    stays es (some e) h = λ q. absurd cc
