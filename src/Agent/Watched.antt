-- ===== src/Agent/Watched.antt =====
-- The notifier and the event loop together: whose logs are streamed, from the events of docker.
use dkll.Base.{
  ◌≡◌, inl, inr, refl, ap, ap₂, ◌∙◌, Bool, false, ◌&&◌, Option, none, some, List, [], ◌∷◌,
  if◌then◌else◌, Bytes, bytes_eq,
}
use dkll.Agent.{Event}
use dkll.Agent.Streamer.{Streaming}
use dkll.Agent.EventLoop.{WriterFactory, run_events}
use dkll.Agent.EventLoop.Tracked.{tracked, last_status, Reliable, tracked-none, run_events-tracked}
use dkll.Agent.Notifier.{Filters, ApiEvent, contains, up_statuses, on_api_event}
use dkll.Agent.Notifier.Passed.{is_passed, on_api_event-passes}

unfoldable pub push_event : Option Event → List Event → List Event
push_event none es = es
push_event (some e) es = e ∷ es

-- The events that `activate` sends to the channel, in order.
unfoldable pub notified : Filters → List ApiEvent → List Event
unfolding push_event
notified f [] = []
notified f (e ∷ es) = push_event (on_api_event f e) (notified f es)

-- Whether a container was last seen to be up, by the events of docker that are passed on.
abbrev pub last_up : Filters → Bytes → List ApiEvent → Bool → Bool
last_up f k [] b = b
last_up f k (e ∷ es) b =
    last_up f k es
      (if is_passed f e && bytes_eq e.actor_id k then contains e.status up_statuses else b)

pub last_status-notified :
    (f : Filters) (k : Bytes) (es : List ApiEvent) (b : Bool)
    → last_status k (notified f es) b ≡ last_up f k es b
unfolding notified push_event
last_status-notified f k [] b = refl
last_status-notified f k (e ∷ es) b = elim (on_api_event-passes f e) [
  | inl (p, n) ↦ rw (n, p) (last_status-notified f k es b)
  | inr (p, (v, n, i, _, s)) ↦
      rw (n, p)
        (last_status-notified f k es _
          ∙ ap (last_up f k es) (ap₂ (λ j t. if bytes_eq j k then t else b) i s))
]

-- If the writers of every container can be made: after any events of docker, a loop that began with no
-- streams keeps a stream of a container exactly if the last event of that container that the filters
-- pass on says that it has started.
pub run_events-notified :
    (env : Streaming) (writer_factory : WriterFactory env)
    → Reliable env writer_factory
    → (f : Filters) (es : List ApiEvent) (k : Bytes) (w : env.World)
    → tracked env k
        (run_events env writer_factory (notified f es) (record { log_streams = []; world = w })).0
      ≡ last_up f k es false
run_events-notified env writer_factory reliable f es k w =
    run_events-tracked env writer_factory reliable (notified f es) k
      (record { log_streams = []; world = w })
    ∙ ap (last_status k (notified f es)) (tracked-none env k w)
    ∙ last_status-notified f k es false
