-- ===== src/Server/Forwarder/Examples.antt =====
-- The theorems on the forwarder, where the publisher and the files keep what they are given.
use dkll.Base.{
  ◌≤◌, ◌≡◌, leb, length, refl, sym, ap, subst, true, false, none, List, [], ◌∷◌, ◌++◌, arith, Bytes,
  codes, replicate, length-replicate, pos, trim_space,
}
use dkll.Core.{LogEntry}
use dkll.Core.Clock.Rfc3339.{utc}
use dkll.Core.Clock.RoundTrip.{stamp}
use dkll.Core.Entry.{new_entry}
use dkll.Core.Entry.RoundTrip.{fields, docker_service, new_entry-docker_line}
use dkll.Server.Forwarder.{
  Sinks, queue_cap, idle, ended, sending, Forwarder, receive, accept, line, send, message, cancel,
  end_writer, write_buff, flush, batch_cap, Reach, here, next, start,
}
use dkll.Server.Forwarder.Order.{accepted, pending, Flows, accepted-Flows}
use dkll.Server.Forwarder.Shutdown.{
  accept-made, DeliveredBut, ended-DeliveredBut, shutdown_loses, blocked_for_ever,
}
use dkll.Samples.{clock_2019, october, october-IsStamp, mongo_entry}

abbrev keeping : Sinks
keeping = record {
  Store = List (List LogEntry);
  Files = List LogEntry;
  publish = λ b s. (s ++ b ∷ [], none);
  write = λ e f. (f ++ e ∷ [], none);
}

abbrev pub text : Bytes
text =
    stamp october
    ++ b' ' ∷ fields (codes "host-1") (docker_service (codes "mongo") 888) (codes "started")

abbrev pub made : LogEntry
made = record {
  id = [];
  host = codes "host-1";
  container = codes "mongo";
  pid = pos 888;
  msg = trim_space (codes "started");
  ts = utc.instant october;
  created_ts = 7;
}

pub new_entry-text : new_entry clock_2019 utc text ≡ (made, none)
new_entry-text =
    new_entry-docker_line clock_2019 utc october october-IsStamp refl b' ' (codes "host-1")
      (codes "mongo") (codes "started") 888 (omega arith) (omega arith) (omega arith) (omega arith)
      (omega arith)

abbrev s0 : Forwarder keeping
s0 = start keeping [] []

abbrev s1 : Forwarder keeping
s1 = accept keeping clock_2019 utc text s0

abbrev s2 : Forwarder keeping
s2 = record s1 { messages = s1.messages ++ made ∷ []; run = idle }

accept-text : s1 ≡ record s0 { run = sending made }
accept-text = accept-made keeping clock_2019 utc text made s0 new_entry-text

-- A line is read, its entry is sent, and the writer receives it.
abbrev received : Reach keeping s0 (receive keeping made (record s2 { messages = [] }))
received =
    next
      (next (next here (line clock_2019 utc text refl)) (
        send (ap (λ (x : Forwarder keeping). x.run) accept-text)
          (rw (ap (λ (x : Forwarder keeping). x.messages) accept-text) (omega arith))))
      (message (ap (λ (x : Forwarder keeping). x.writing) accept-text)
        (ap (λ (x : Forwarder keeping). x.messages ++ made ∷ []) accept-text))

accepted-Flows_example :
    Flows keeping [] []
      (accepted keeping received)
      (receive keeping made (record s2 { messages = [] }))
accepted-Flows_example = accepted-Flows keeping [] [] received

-- A line is read, its entry is sent, and the writer ends.
abbrev stopped :
    Reach keeping s0 (record (write_buff keeping (record s2 { done = true })) { writing = false })
stopped =
    next
      (next
        (next (next here (line clock_2019 utc text refl)) (
          send (ap (λ (x : Forwarder keeping). x.run) accept-text)
            (rw (ap (λ (x : Forwarder keeping). x.messages) accept-text) (omega arith))))
        cancel)
      (end_writer (ap (λ (x : Forwarder keeping). x.writing) accept-text) refl)

ended-DeliveredBut_example :
    DeliveredBut keeping [] []
      (accepted keeping stopped)
      ((write_buff keeping (record s2 { done = true })).messages
        ++ pending (write_buff keeping (record s2 { done = true })).run)
      (record (write_buff keeping (record s2 { done = true })) { writing = false })
ended-DeliveredBut_example = ended-DeliveredBut keeping [] [] stopped refl

shutdown_loses_example :
    (f : Forwarder keeping) × (r : Reach keeping s0 f) × (f.run ≡ ended)
    × (accepted keeping r ≡ made ∷ [])
    × (f.store ≡ [])
    × (f.files ≡ [])
shutdown_loses_example = shutdown_loses keeping [] [] clock_2019 utc text made new_entry-text

-- The writer has ended, the channel is full, and an entry waits.
abbrev full : Forwarder keeping
full = record {
  messages = replicate queue_cap mongo_entry;
  buffer = [];
  store = [];
  files = [];
  done = false;
  run = sending mongo_entry;
  writing = false;
}

blocked_for_ever_example : (record full { done = true }).run ≡ sending mongo_entry
blocked_for_ever_example =
    blocked_for_ever keeping mongo_entry {f = full} refl
      (subst (λ n. queue_cap ≤ n) (sym (length-replicate queue_cap mongo_entry)) (omega arith)) refl
      (next here cancel)

module _ (sinks : Sinks) where
  flush-keeps :
      (b : List LogEntry) (f : Forwarder sinks)
      → f.buffer ≡ b
      → ((flush sinks b f).buffer ≡ [])
        × ((flush sinks b f).messages ≡ f.messages)
        × ((flush sinks b f).run ≡ f.run)
  unfolding flush
  flush-keeps [] f h = (h, refl, refl)
  flush-keeps (r ∷ rs) f h = (refl, refl, refl)

  few : (e : LogEntry) (b : List LogEntry) → b ≡ [] → leb batch_cap (length (b ++ e ∷ [])) ≡ false
  few e b h = ap (λ c. leb batch_cap (length (c ++ e ∷ []))) h

  pub received-writing :
      (e : LogEntry) (f : Forwarder sinks)
      → f.buffer ≡ []
      → f.writing ≡ true
      → (receive sinks e f).writing ≡ true
  unfolding receive
  received-writing e f h w = rw (few e f.buffer h) w

  -- A first entry that is received, and a tick.
  pub ticked :
      (e : LogEntry) (f : Forwarder sinks)
      → f.buffer ≡ []
      → let g = write_buff sinks (receive sinks e f) in
        (g.buffer ≡ []) × (g.messages ≡ f.messages) × (g.run ≡ f.run)
  unfolding receive write_buff
  ticked e f h = rw (few e f.buffer h) (flush-keeps (f.buffer ++ e ∷ []) _ refl)
