-- ===== src/Journey/Examples.antt =====
-- A line that the server accepts and stores behind an entry, and a client that asks after that entry.
use dkll.Base.{◌≡◌, refl, ap, Option, none, [], ◌∷◌, ◌++◌, arith, codes, bytes_eq, pos, ◌^◌}
use dkll.Errors.{Error}
use dkll.Core.{LogEntry, empty_entry}
use dkll.Core.Clock.Rfc3339.{utc}
use dkll.Server.Mongo.{MongoLogEntry, make_log_entry}
use dkll.Server.Mongo.Query.{Bounds, Query}
use dkll.Server.Mongo.Store.{Mongo}
use dkll.Server.Mongo.Store.Published.{content}
use dkll.Server.Forwarder.{
  Sinks, idle, sending, Forwarder, receive, accept, write_buff, line, send, message, tick, Reach,
  here, next, start,
}
use dkll.Server.Forwarder.Shutdown.{accept-made}
use dkll.Server.Forwarder.Examples.{text, made, new_entry-text, received-writing}
use dkll.Client.{Terminal}
use dkll.Reading.Examples.{plain, surroundings, surroundings-IsJson}
use dkll.Server.Mongo.Examples.{days}
use dkll.Journey.Delivered.{to_store, handlers}
use dkll.Journey.Samples.{numbers, numbers-IsDriver, growing, growing-IsDatabase, growing-IsGrowing}
use dkll.Samples.{clock_2019}

abbrev no_files : LogEntry → Unit {0} → Unit {0} × Option Error
no_files e w = (w, none)

abbrev sinks : Sinks
sinks =
    to_store numbers numbers-IsDriver bytes_eq growing growing-IsDatabase growing-IsGrowing
      (Unit {0}) no_files

-- The entry that is there.
abbrev first_row : MongoLogEntry numbers
first_row = record {
  id = 3;
  host = codes "host-1";
  container = codes "nginx";
  pid = pos 5;
  msg = codes "ready";
  ts = days 400;
}

abbrev store : Mongo numbers growing
store = record { state = (first_row ∷ [], 3); last_published = empty_entry }

abbrev s0 : Forwarder sinks
s0 = start sinks store tt

abbrev s1 : Forwarder sinks
s1 = accept sinks clock_2019 utc text s0

abbrev s2 : Forwarder sinks
s2 = record s1 { messages = s1.messages ++ made ∷ []; run = idle }

abbrev received_from : Forwarder sinks
received_from = record s2 { messages = [] }

abbrev s3 : Forwarder sinks
s3 = receive sinks made received_from

abbrev s4 : Forwarder sinks
s4 = write_buff sinks s3

accept-text : s1 ≡ record s0 { run = sending made }
accept-text = accept-made sinks clock_2019 utc text made s0 new_entry-text

abbrev stored : Reach sinks s0 s4
stored =
    next
      (next
        (next (next here (line clock_2019 utc text refl)) (
          send (ap (λ (x : Forwarder sinks). x.run) accept-text)
            (rw (ap (λ (x : Forwarder sinks). x.messages) accept-text) (omega arith))))
        (message (ap (λ (x : Forwarder sinks). x.writing) accept-text)
          (ap (λ (x : Forwarder sinks). x.messages ++ made ∷ []) accept-text)))
      (tick (
        received-writing sinks made received_from
          (ap (λ (x : Forwarder sinks). x.buffer) accept-text)
          (ap (λ (x : Forwarder sinks). x.writing) accept-text)))

abbrev all_years : Bounds
all_years = record { year_2000 = 0; year_2100 = 10 ^ 21 }

abbrev all_query : Query numbers
all_query = record { id_gt = 11; ts_gte = 0; ts_lt = 10 ^ 21; container = none; host = none }

abbrev contents : MongoLogEntry numbers → LogEntry
contents r = content (make_log_entry numbers r)

abbrev after_first : Terminal
after_first =
    handlers numbers numbers-IsDriver bytes_eq growing growing-IsDatabase growing-IsGrowing
      (Unit {0}) no_files all_years surroundings (surroundings-IsJson numbers) (pos 100) plain
      s4.store
