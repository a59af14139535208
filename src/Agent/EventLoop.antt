-- ===== src/Agent/EventLoop.antt =====
-- app/agent/event_loop.go: the log streams that are kept, from the events of the containers.
pub mod Held
pub mod Streams
pub mod Tracked
use dkll.Base.{
  ℕ, zero, suc, ◌≡◌, ◌⊎◌, inl, inr, refl, Bool, true, false, not, Option, none, some, List, [], ◌∷◌,
  ◌++◌, keep, if◌then◌else◌, Bytes, codes, bytes_eq,
}
use dkll.Errors.{Error}
use dkll.Agent.{Event}
use dkll.Agent.Streamer.{Streaming, Stream, close_stream}

-- A map by container, as a list of its pairs.
pub stream_at {ℓ} : {V : Type ℓ} → Bytes → List (Bytes × V) → Option V
stream_at k [] = none
stream_at k ((j, v) ∷ m) = if bytes_eq j k then some v else stream_at k m

pub delete {ℓ} : {V : Type ℓ} → Bytes → List (Bytes × V) → List (Bytes × V)
delete k [] = []
delete k ((j, v) ∷ m) = let rest = delete k m in if bytes_eq j k then rest else (j, v) ∷ rest

module _ (env : Streaming) where
  open env use {World, Writer}

  -- What the loop does to a stream: the goroutine of `Run`, and `Close` with its result.
  pub data Action : Type 0 where
    started : Stream env → Action
    closed : Stream env → Option Error → Action

  -- `WriterFactory`: the writers for a container's name and group.
  abbrev pub WriterFactory : Type 0
  WriterFactory = Bytes → Bytes → World → World × ((Writer × Writer) ⊎ Error)

  -- The order in which `range` goes through a map: Go chooses it.
  abbrev pub MapOrder : Type 0
  MapOrder = List (Bytes × Stream env) → List (Bytes × Stream env)

  -- `EventLoop`, and the world around it.
  pub record EventLoop : Type 0 where
    pub log_streams : List (Bytes × Stream env)
    pub world : World

  module _ (writer_factory : WriterFactory) where
    -- What the writers of a new container lead to.
    pub track : Event → (Writer × Writer) ⊎ Error → EventLoop → EventLoop × List Action
    track event (inr e) l = (l, [])
    track event (inl (log_writer, err_writer)) l =
        let ls : Stream env = record {
          id = event.container_id;
          name = event.container_name;
          log_writer = log_writer;
          err_writer = err_writer;
        } in
        (record l { log_streams = (event.container_id, ls) ∷ l.log_streams }, started ls ∷ [])

    -- A container that has started, which is not tracked.
    pub start_stream : Event → EventLoop → EventLoop × List Action
    unfolding track
    start_stream event l =
        let made = writer_factory event.container_name event.group l.world in
        track event made.1 (record l { world = made.0 })

    -- The stream of a container that has gone.
    pub stop_stream : Event → Stream env → EventLoop → EventLoop × List Action
    unfolding delete
    stop_stream event ls l =
        let r = close_stream env ls l.world in
        (
          record { log_streams = delete event.container_id l.log_streams; world = r.0 },
          closed ls r.1 ∷ [],
        )

    -- By the event's status, and the stream that the map has for its container.
    pub dispatch : Bool → Option (Stream env) → Event → EventLoop → EventLoop × List Action
    unfolding start_stream stop_stream
    dispatch true (some ls) event l = (l, [])
    dispatch true none event l = start_stream event l
    dispatch false none event l = (l, [])
    dispatch false (some ls) event l = stop_stream event ls l

    -- `onEvent`
    unfoldable pub on_event : Event → EventLoop → EventLoop × List Action
    unfolding stream_at dispatch
    on_event event l = dispatch event.status (stream_at event.container_id l.log_streams) event l

    -- The events that `Run` receives before it is cancelled.
    pub run_events : List Event → EventLoop → EventLoop × List Action
    unfolding on_event
    run_events [] l = (l, [])
    run_events (e ∷ es) l =
        let r = on_event e l in let rest = run_events es r.0 in (rest.0, r.1 ++ rest.1)

    -- The end of `Run`: every stream is closed, whatever its result.
    pub close_streams : List (Bytes × Stream env) → World → World × List Action
    close_streams [] w = (w, [])
    close_streams ((k, ls) ∷ m) w =
        let r = close_stream env ls w in
        let rest = close_streams m r.0 in (rest.0, closed ls r.1 ∷ rest.1)

    -- `EventLoop.Run`: what it does until it returns.
    unfoldable pub run : MapOrder → List Event → World → World × List Action
    unfolding run_events close_streams
    run order events w =
        let r = run_events events (record { log_streams = []; world = w }) in
        let end = close_streams (order r.0.log_streams) r.0.world in (end.0, r.1 ++ end.1)
