-- ===== src/Agent/Listening.antt =====
-- app/agent/docker_notif.go: `NewEventNotifier`, its goroutine `activate`, and the channel to the event
-- loop, while docker goes on.
pub mod Heard
pub mod Followed
pub mod Examples
use dkll.Base.{ℕ, ◌<◌, ◌≡◌, ◌≢◌, ◌⊎◌, Option, none, some, List, [], ◌∷◌, ◌++◌, length}
use dkll.Errors.{Error}
use dkll.Agent.{Event}
use dkll.Agent.Notifier.{
  Filters, ApiEvent, ApiContainer, Emitted, emitted, cannot_list, panicked, blocked, events_cap,
  on_api_event, emit_running_containers,
}

-- The goroutine of `activate`: before it has added its listener, waiting at the channel of docker's events,
-- with one of them, at the send of an event, or past `log.Fatalf`.
pub data Phase : Type 0 where
  starting receiving fatal : Phase
  checking : ApiEvent → Phase
  emitting : Event → Phase

-- An event of docker that the goroutine received, or did not.
pub data Happened : Type 0 where
  heard missed : ApiEvent → Happened

-- An `EventNotifier` that has been made, with the events of docker since its containers were listed, and the
-- events that the loop took from the channel.
pub record Watch : Type 0 where
  pub phase : Phase
  pub events_ch : List Event
  pub happened : List Happened
  pub taken : List Event

-- What `NewEventNotifier` comes to: a notifier, an error, or neither.
pub data Notifier : Type 0 where
  watching : Watch → Notifier
  failed : Error → Notifier
  stuck crashed : Notifier

-- `NewEventNotifier`, from the containers that docker lists.
unfoldable pub new_event_notifier : Filters → List ApiContainer ⊎ Error → Notifier
unfolding emit_running_containers
new_event_notifier f listed = elim (emit_running_containers f listed) [
  | emitted ch ↦ watching (record { phase = starting; events_ch = ch; happened = []; taken = [] })
  | cannot_list e ↦ failed e
  | panicked ↦ crashed
  | blocked ↦ stuck
]

-- What the goroutine does after it has looked at an event of docker.
pub after_check : Option Event → Phase
after_check none = receiving
after_check (some v) = emitting v

-- A step of docker, of the goroutine or of the loop. The channel of docker's events has no buffer, and
-- docker's client drops an event for which nothing waits there.
pub data Step (f : Filters) (s : Watch) : Watch → Type 0 where
  miss :
      (e : ApiEvent)
      → s.phase ≢ receiving
      → Step f s (record s { happened = s.happened ++ missed e ∷ [] })
  listen : s.phase ≡ starting → Step f s (record s { phase = receiving })
  listen_fails : s.phase ≡ starting → Step f s (record s { phase = fatal })
  hear :
      (e : ApiEvent)
      → s.phase ≡ receiving
      → Step f s (record s { phase = checking e; happened = s.happened ++ heard e ∷ [] })
  check :
      (e : ApiEvent)
      → s.phase ≡ checking e
      → Step f s (record s { phase = after_check (on_api_event f e) })
  send :
      (v : Event)
      → s.phase ≡ emitting v
      → length s.events_ch < events_cap
      → Step f s (record s { phase = receiving; events_ch = s.events_ch ++ v ∷ [] })
  take :
      (v : Event) (vs : List Event)
      → s.phase ≢ fatal
      → s.events_ch ≡ v ∷ vs
      → Step f s (record s { events_ch = vs; taken = s.taken ++ v ∷ [] })
  listener_closed : s.phase ≡ receiving → Step f s (record s { phase = fatal })

pub data Reach (f : Filters) (s : Watch) : Watch → Type 0 where
  here : Reach f s s
  next : {t u : Watch} → Reach f s t → Step f t u → Reach f s u
