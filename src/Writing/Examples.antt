-- ===== src/Writing/Examples.antt =====
-- The forwarder over a collection that keeps what it is given: a line is read, sent, received and stored.
use dkll.Base.{◌≡◌, refl, ap, Option, none, List, [], ◌∷◌, ◌++◌, map, inl, length, arith, true}
use dkll.Errors.{Error}
use dkll.Core.{LogEntry, empty_entry}
use dkll.Core.Clock.Rfc3339.{utc}
use dkll.Server.Mongo.{MongoLogEntry, kept_row}
use dkll.Server.Mongo.Store.{Database, Mongo}
use dkll.Server.Mongo.Store.Published.{kept}
use dkll.Server.Mongo.Examples.{two_ids}
use dkll.Server.Forwarder.{
  Sinks, idle, sending, Forwarder, receive, accept, line, send, message, Reach, here, next, start,
}
use dkll.Server.Forwarder.Order.{accepted, pending}
use dkll.Server.Forwarder.Shutdown.{accept-made}
use dkll.Server.Forwarder.Examples.{text, made, new_entry-text}
use dkll.Writing.Stored.{IsCollection, stored, sinks, accepted-stored}
use dkll.Samples.{clock_2019}

abbrev kept_rows : Database two_ids
kept_rows = record {
  State = List (MongoLogEntry two_ids);
  insert_many = λ rs s. (s ++ map (kept_row two_ids) rs, (none, length rs));
  find = λ q l dir s. inl s;
  find_last = λ s. none;
  new_id = λ s. (s, true);
}

abbrev kept_rows-IsCollection : IsCollection two_ids kept_rows
kept_rows-IsCollection = record {
  contents = λ s. s;
  appends = λ rs s. refl;
  same_after_id = λ s. refl;
}

abbrev no_files : LogEntry → Unit {0} → Unit {0} × Option Error
no_files e w = (w, none)

abbrev to_rows : Sinks
to_rows = sinks two_ids kept_rows kept_rows-IsCollection (Unit {0}) no_files

abbrev empty_store : Mongo two_ids kept_rows
empty_store = record { state = []; last_published = empty_entry }

abbrev s0 : Forwarder to_rows
s0 = start to_rows empty_store tt

abbrev s1 : Forwarder to_rows
s1 = accept to_rows clock_2019 utc text s0

abbrev s2 : Forwarder to_rows
s2 = record s1 { messages = s1.messages ++ made ∷ []; run = idle }

abbrev s3 : Forwarder to_rows
s3 = receive to_rows made (record s2 { messages = [] })

accept-text : s1 ≡ record s0 { run = sending made }
accept-text = accept-made to_rows clock_2019 utc text made s0 new_entry-text

abbrev received : Reach to_rows s0 s3
received =
    next
      (next (next here (line clock_2019 utc text refl)) (
        send (ap (λ (x : Forwarder to_rows). x.run) accept-text)
          (rw (ap (λ (x : Forwarder to_rows). x.messages) accept-text) (omega arith))))
      (message (ap (λ (x : Forwarder to_rows). x.writing) accept-text)
        (ap (λ (x : Forwarder to_rows). x.messages ++ made ∷ []) accept-text))

accepted-stored_example :
    stored two_ids kept_rows kept_rows-IsCollection s3.store
      ++ map kept (s3.buffer ++ (s3.messages ++ pending s3.run))
    ≡ stored two_ids kept_rows kept_rows-IsCollection empty_store
      ++ map kept (accepted to_rows received)
accepted-stored_example =
    accepted-stored two_ids kept_rows kept_rows-IsCollection (Unit {0}) no_files empty_store tt s3
      received
