-- ===== src/Agent/Listening/Examples.antt =====
-- The theorems on the notifier at small inputs.
use dkll.Base.{
  ◌<◌, ◌++◌, suc, ◌≤◌, ◌≡◌, ◌⊎◌, inl, refl, true, List, [], ◌∷◌, arith, Bytes, codes, length,
  trim_prefix,
}
use dkll.Agent.{Event}
use dkll.Agent.Notifier.{
  unix, is_allowed, Filters, ApiEvent, ApiContainer, on_api_event, events_cap,
}
use dkll.Agent.Notifier.Passed.{expected}
use dkll.Agent.Streamer.Goroutines.{here, next}
use dkll.Agent.Watched.{last_up}
use dkll.Agent.Listening.{
  receiving, heard, missed, Watch, watching, stuck, new_event_notifier, listen, hear, check, send,
  take, Reach, here, next, after_check,
}
use dkll.Agent.Listening.Heard.{made, Flows, new_event_notifier-Flows}
use dkll.Agent.Listening.Followed.{listed, IsSettled, streams, streams-heard, streams-missed}
use dkll.Agent.Examples.{quiet, new_writers}

abbrev filters : Filters
filters = record { excludes = codes "dkll" ∷ []; includes = [] }

abbrev started_mongo : ApiEvent
started_mongo = record {
  kind = codes "container";
  status = codes "start";
  actor_id = codes "c1";
  name = codes "/mongo";
  image = codes "umputun/system/mongo";
  time = 1000;
  time_nano = 5;
}

abbrev container : Bytes → ApiContainer
container name = record { id = name; names = name ∷ []; image = name; created = 1000 }

abbrev running : List ApiContainer
running = container (codes "/rest") ∷ container (codes "/dkll") ∷ []

running-fits : length (expected filters running) ≤ events_cap
unfolding is_allowed trim_prefix
running-fits = omega arith

abbrev mongo_up : Event
mongo_up = record {
  container_id = codes "c1";
  container_name = codes "mongo";
  group = codes "system";
  ts = unix 1 5;
  status = true;
}

-- The loop has taken the event of the listed container, and one that the goroutine has heard.
abbrev caught_up : Watch
caught_up = record {
  phase = receiving;
  events_ch = [];
  happened = heard started_mongo ∷ [];
  taken = expected filters running ++ mongo_up ∷ [];
}

caught_up-Reach : Reach filters (made filters running) caught_up
unfolding on_api_event is_allowed after_check unix trim_prefix
caught_up-Reach =
    next
      (next
        (next
          (next (next (next here (listen refl)) (hear started_mongo refl))
            (check started_mongo refl))
          (send mongo_up refl (omega arith)))
        (take _ (mongo_up ∷ []) (λ h. absurd cc) refl))
      (take mongo_up [] (λ h. absurd cc) refl)

new_event_notifier-Flows_example :
    ((events_cap < length (expected filters running))
      × (new_event_notifier filters (inl running) ≡ stuck))
    ⊎ ((length (expected filters running) ≤ events_cap)
        × (new_event_notifier filters (inl running) ≡ watching (made filters running))
        × Flows filters running caught_up)
new_event_notifier-Flows_example =
    new_event_notifier-Flows filters running caught_up (λ h. absurd cc, (λ h. absurd cc, tt))
      caught_up-Reach

streams-heard_example :
    streams quiet new_writers (λ n g w. ((w, suc w), refl)) caught_up 0 (codes "c1")
    ≡ last_up filters (codes "c1") (started_mongo ∷ []) (listed filters (codes "c1") running)
streams-heard_example =
    streams-heard quiet new_writers (λ n g w. ((w, suc w), refl)) filters running running-fits
      caught_up caught_up-Reach (refl, refl) 0 (codes "c1")

streams-missed_example :
    (t : Watch) × Reach filters (made filters running) t
    × (t.happened ≡ missed started_mongo ∷ [])
    × IsSettled t
    × ((w : quiet.World) (k : Bytes)
        → streams quiet new_writers (λ n g w. ((w, suc w), refl)) t w k ≡ listed filters k running)
streams-missed_example =
    streams-missed quiet new_writers (λ n g w. ((w, suc w), refl)) filters running running-fits
      started_mongo
