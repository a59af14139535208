-- ===== src/Agent/Examples.antt =====
-- The theorems on the agent at small inputs.
use dkll.Base.{
  ℕ, suc, ◌≤◌, ◌≡◌, ◌↔◌, ◌⊎◌, inl, inr, refl, Bool, true, false, none, some, List, [], ◌∷◌, arith,
  ◌==◌, if◌then◌else◌, Bytes, codes, length,
}
use mathlib.Core.List.{reverse, reverse_perm}
use dkll.Errors.{Error}
use dkll.Agent.{Event}
use dkll.Agent.MultiWriter.{
  Writers, JMsg, MultiWriter, new_multi_writer, payload, write_all, close_all,
}
use dkll.Agent.MultiWriter.Results.{
  each_write, each_close, all_failed, last_result, write_all-all_failed, close_all-last,
}
use dkll.Agent.Streamer.{Streaming}
use dkll.Agent.EventLoop.{EventLoop, WriterFactory, run, run_events}
use dkll.Agent.EventLoop.Streams.{starts, closes, run-closes}
use dkll.Agent.EventLoop.Tracked.{tracked, last_status, run_events-tracked}
use dkll.Agent.Notifier.{group}
use dkll.Agent.Streamer.Goroutines.{
  Goroutines, started, returned, write, logs_end, close, join, expire, close_writers, here, next,
  closing-written,
}
use dkll.Samples.{last_error, last_error-IsMultiError}

-- Writers that are numbers, of which 0 fails; the state counts the calls.
abbrev counted : Writers
counted = record {
  State = ℕ;
  Writer = ℕ;
  write = λ w b s. (suc s, if w == 0 then some (codes "full") else none);
  close = λ w s. (suc s, if w == 0 then some (codes "closed") else none);
}

abbrev no_json : JMsg → Bytes ⊎ Error
no_json m = inr (codes "json")

abbrev writer : MultiWriter counted
writer = new_multi_writer counted (0 ∷ 1 ∷ [])

write_all-all_failed_example :
    ((pp : Bytes) × (payload counted no_json writer 7 (codes "x") ≡ inl pp)
      × (write_all counted no_json writer 7 (codes "x") 0 ≡ (
        (each_write counted writer.writers pp 0).0,
        (
          length (codes "x"),
          if all_failed (each_write counted writer.writers pp 0).1
              then some (codes "all writers failed")
              else none,
        ),
      )))
    ⊎ ((e : Error) × (payload counted no_json writer 7 (codes "x") ≡ inr e)
        × (write_all counted no_json writer 7 (codes "x") 0
            ≡ (0, (0, some (codes "can't convert message to json")))))
write_all-all_failed_example = write_all-all_failed counted no_json writer 7 (codes "x") 0

close_all-last_example :
    ((close_all counted last_error writer 0).0 ≡ (each_close counted writer.writers 0).0)
    × (((close_all counted last_error writer 0).1 ≡ none)
        ↔ (last_result none (each_close counted writer.writers 0).1 ≡ none))
close_all-last_example = close_all-last counted last_error last_error-IsMultiError writer 0

-- Streams whose writers are numbers, and which end when they are cancelled.
abbrev pub quiet : Streaming
quiet = record {
  World = ℕ;
  Writer = ℕ;
  same_writer = λ a b. a == b;
  close_writer = λ a w. (w, none);
  wait = λ i w. (w, none);
  logs = λ i t a b w. (w, none);
}

abbrev pub new_writers : WriterFactory quiet
new_writers name group w = (suc (suc w), inl (w, suc w))

abbrev event : Bytes → Bool → Event
event id status = record {
  container_id = id;
  container_name = codes "mongo";
  group = [];
  ts = 7;
  status = status;
}

abbrev events : List Event
events =
    event (codes "a") true
    ∷ event (codes "b") true
    ∷ event (codes "a") false
    ∷ event (codes "a") true
    ∷ []

run-closes_example :
    closes quiet (codes "a") (run quiet new_writers reverse events 0).1
    ≡ starts quiet (codes "a") (run quiet new_writers reverse events 0).1
run-closes_example = run-closes quiet new_writers reverse (λ m. reverse_perm m) events 0 (codes "a")

abbrev no_streams : EventLoop quiet
no_streams = record { log_streams = []; world = 0 }

run_events-tracked_example :
    tracked quiet (codes "a") (run_events quiet new_writers events no_streams).0
    ≡ last_status (codes "a") events (tracked quiet (codes "a") no_streams)
run_events-tracked_example =
    run_events-tracked quiet new_writers (λ n g w. ((w, suc w), refl)) events (codes "a") no_streams

-- Two callers: one joins `Run` and closes the writers, the other gives up.
abbrev closed_writers : Goroutines
closed_writers = record started {
  runner = returned;
  cancelled = true;
  written = codes "x" ∷ [];
  joined = 1;
  closing = 1;
}

abbrev second_expired : Goroutines
second_expired = record closed_writers { expired = 1 }

closing-written_example :
    (closed_writers.closing ≤ 1)
    × (1 ≤ closed_writers.closing
        → (second_expired.runner ≡ returned) × (second_expired.written ≡ closed_writers.written))
closing-written_example =
    closing-written
      (next
        (next (next (next (next here (write (codes "x") refl)) close) (logs_end refl))
          (join 0 refl refl))
        (close_writers (omega arith)))
      (next (next here close) (expire 0 refl))
