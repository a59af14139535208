-- ===== src/Agent/EventLoop/Tracked.antt =====
-- The containers whose streams the loop keeps are those that the last events have started.
use dkll.Base.{
  ◌≡◌, inl, inr, refl, ap, ◌∙◌, Bool, true, false, Option, none, some, List, [], ◌∷◌, if◌then◌else◌,
  Bytes, bytes_eq, bytes_eq_sound, Bool-cases,
}
use dkll.Agent.{Event}
use dkll.Agent.Streamer.{Streaming, Stream}
use dkll.Agent.EventLoop.{
  stream_at, WriterFactory, EventLoop, start_stream, stop_stream, on_event, run_events, track,
  dispatch,
}
use dkll.Agent.EventLoop.Held.{stream_at-delete}

abbrev is_some {ℓ} : {A : Type ℓ} → Option A → Bool
is_some none = false
is_some (some a) = true

-- The status of a container after some events, from its status before them.
abbrev pub last_status : Bytes → List Event → Bool → Bool
last_status k [] b = b
last_status k (e ∷ es) b = last_status k es (if bytes_eq e.container_id k then e.status else b)

module _ (env : Streaming) where
  -- The loop keeps a stream of the container.
  abbrev pub tracked : Bytes → EventLoop env → Bool
  tracked k l = is_some (stream_at k l.log_streams)

  pub tracked-none :
      (k : Bytes) (w : env.World) → tracked k (record { log_streams = []; world = w }) ≡ false
  unfolding stream_at
  tracked-none k w = refl

  module _ (writer_factory : WriterFactory env) where
    -- A factory that makes the writers of every container.
    abbrev pub Reliable : Type 0
    Reliable =
        (name group : Bytes) (w : env.World)
        → (ws : env.Writer × env.Writer) × ((writer_factory name group w).1 ≡ inl ws)

    module _ (reliable : Reliable) where
      same_status :
          (e : Event) (k : Bytes) (b : Bool) (l : EventLoop env) (o : Option (Stream env))
          → stream_at e.container_id l.log_streams ≡ o
          → is_some o ≡ b
          → tracked k l ≡ (if bytes_eq e.container_id k then b else tracked k l)
      same_status e k b l o h f = elim (Bool-cases (bytes_eq e.container_id k)) [
        | inl g ↦ rw (g, ← f, ← h, ← bytes_eq_sound e.container_id k g) refl
        | inr g ↦ rw g refl
      ]

      start_stream-tracked :
          (e : Event) (k : Bytes) (l : EventLoop env)
          → tracked k (start_stream env writer_factory e l).0
            ≡ (if bytes_eq e.container_id k then true else tracked k l)
      unfolding start_stream track stream_at
      start_stream-tracked e k l =
          rw (reliable e.container_name e.group l.world).1
            (elim (Bool-cases (bytes_eq e.container_id k)) [
              | inl g ↦ rw g refl
              | inr g ↦ rw g refl
            ])

      stop_stream-tracked :
          (e : Event) (k : Bytes) (s : Stream env) (l : EventLoop env)
          → tracked k (stop_stream env writer_factory e s l).0
            ≡ (if bytes_eq e.container_id k then false else tracked k l)
      unfolding stop_stream
      stop_stream-tracked e k s l =
          rw (stream_at-delete e.container_id k l.log_streams)
            (elim (Bool-cases (bytes_eq e.container_id k)) [
              | inl g ↦ rw g refl
              | inr g ↦ rw g refl
            ])

      dispatch-tracked :
          (b : Bool) (o : Option (Stream env)) (e : Event) (k : Bytes) (l : EventLoop env)
          → stream_at e.container_id l.log_streams ≡ o
          → tracked k (dispatch env writer_factory b o e l).0
            ≡ (if bytes_eq e.container_id k then b else tracked k l)
      unfolding dispatch
      dispatch-tracked true (some s) e k l h = same_status e k true l (some s) h refl
      dispatch-tracked true none e k l h = start_stream-tracked e k l
      dispatch-tracked false none e k l h = same_status e k false l none h refl
      dispatch-tracked false (some s) e k l h = stop_stream-tracked e k s l

      -- If the writers of every container can be made: after any events, the loop keeps a stream of a
      -- container exactly if the last event of that container says that it has started, or no event is
      -- of that container and the loop kept one before.
      pub run_events-tracked :
          (es : List Event) (k : Bytes) (l : EventLoop env)
          → tracked k (run_events env writer_factory es l).0 ≡ last_status k es (tracked k l)
      unfolding run_events on_event
      run_events-tracked [] k l = refl
      run_events-tracked (e ∷ es) k l =
          run_events-tracked es k (on_event env writer_factory e l).0
          ∙ ap (last_status k es) (dispatch-tracked e.status _ e k l refl)
