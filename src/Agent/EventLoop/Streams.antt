-- ===== src/Agent/EventLoop/Streams.antt =====
-- Which streams the loop keeps, and that it closes each of them.
use dkll.Base.{
  zero_plus, ℕ, ◌+◌, ◌≡◌, ◌⊎◌, inl, inr, refl, sym, ap, ap₂, ◌∙◌, Bool, true, false, Option, none,
  some, List, [], ◌∷◌, ◌++◌, arith, Bytes, bytes_eq, bytes_eq_sound, Bool-cases, some_inj, All,
}
use mathlib.Core.List.{Perm, Permᴰ}
use mathlib.Core.List.Permᴰ.{nil, cons, swap, trans}
use mathlib.Core.Logic.{∥∥₁_elim}
use native.Mathlib.Nat.{ℕ_set}
use dkll.Errors.{Error}
use dkll.Agent.{Event}
use dkll.Agent.Streamer.{Streaming, Stream, close_stream}
use dkll.Agent.EventLoop.{
  stream_at, delete, Action, started, closed, WriterFactory, EventLoop, start_stream, stop_stream,
  on_event, run_events, close_streams, MapOrder, run, track, dispatch,
}
use dkll.Agent.EventLoop.Held.{unit_if, held, Single, held-delete, stream_at-delete}

module _ (env : Streaming) where
  -- How often a container's stream has been started, and closed.
  abbrev pub starts : Bytes → List (Action env) → ℕ
  starts k [] = 0
  starts k (started s ∷ xs) = unit_if (bytes_eq s.id k) + starts k xs
  starts k (closed s e ∷ xs) = starts k xs

  abbrev pub closes : Bytes → List (Action env) → ℕ
  closes k [] = 0
  closes k (started s ∷ xs) = closes k xs
  closes k (closed s e ∷ xs) = unit_if (bytes_eq s.id k) + closes k xs

  starts-append :
      (k : Bytes) (xs bs : List (Action env)) → starts k (xs ++ bs) ≡ starts k xs + starts k bs
  starts-append k [] bs = omega arith
  starts-append k (started s ∷ xs) bs = omega (arith, starts-append k xs bs)
  starts-append k (closed s e ∷ xs) bs = starts-append k xs bs

  closes-append :
      (k : Bytes) (xs bs : List (Action env)) → closes k (xs ++ bs) ≡ closes k xs + closes k bs
  closes-append k [] bs = omega arith
  closes-append k (started s ∷ xs) bs = closes-append k xs bs
  closes-append k (closed s e ∷ xs) bs = omega (arith, closes-append k xs bs)

  abbrev Own : Bytes × Stream env → Type 0
  Own (k, s) = s.id ≡ k

  -- Each stream is kept under its own container, and each container has one at most.
  abbrev Kept : List (Bytes × Stream env) → Type 0
  Kept m = All Own m × Single m

  All-delete : (k : Bytes) (m : List (Bytes × Stream env)) → All Own m → All Own (delete k m)
  unfolding delete
  All-delete k [] h = tt
  All-delete k ((j, s) ∷ m) (h, hs) = elim (Bool-cases (bytes_eq j k)) [
    | inl e ↦ rw (e, All) (All-delete k m hs)
    | inr e ↦ rw (e, All) (h, All-delete k m hs)
  ]

  Single-delete : (k : Bytes) (m : List (Bytes × Stream env)) → Single m → Single (delete k m)
  Single-delete j m h k = elim (Bool-cases (bytes_eq j k)) [
    | inl e ↦ rw (held-delete j k m, stream_at-delete j k m, e) refl
    | inr e ↦ rw (held-delete j k m, stream_at-delete j k m, e) (h k)
  ]

  held_zero :
      (j k : Bytes) (m : List (Bytes × Stream env))
      → Single m
      → stream_at j m ≡ none
      → bytes_eq j k ≡ true
      → held k m ≡ 0
  held_zero j k m h e f = rw (← bytes_eq_sound j k f, h j, e) refl

  Single-start :
      (j : Bytes) (s : Stream env) (m : List (Bytes × Stream env))
      → Single m
      → stream_at j m ≡ none
      → Single ((j, s) ∷ m)
  unfolding stream_at
  Single-start j s m h e k = elim (Bool-cases (bytes_eq j k)) [
    | inl f ↦ rw f (ap (λ n. 1 + n) (held_zero j k m h e f))
    | inr f ↦ rw f (zero_plus ∙ h k)
  ]

  -- A stream that is found is the container's own.
  Own-found :
      (k : Bytes) (s : Stream env) (m : List (Bytes × Stream env))
      → All Own m
      → stream_at k m ≡ some s
      → s.id ≡ k
  unfolding stream_at
  Own-found k s [] h e = absurd cc
  Own-found k s ((j, x) ∷ m) (h, hs) e = elim (Bool-cases (bytes_eq j k)) [
    | inl f ↦
        ap (λ (t : Stream env). t.id) (sym (some_inj (rw f at e))) ∙ (h ∙ bytes_eq_sound j k f)
    | inr f ↦ Own-found k s m hs (rw f at e)
  ]

  closed_balance :
      (j k : Bytes) (s : Stream env) (m : List (Bytes × Stream env))
      → All Own m
      → Single m
      → stream_at j m ≡ some s
      → held k m + 0 ≡ (unit_if (bytes_eq s.id k) + 0) + held k (delete j m)
  closed_balance j k s m o u f =
      rw (Own-found j s m o f, held-delete j k m)
        (elim (Bool-cases (bytes_eq j k)) [
          | inl e ↦ rw (e, ← bytes_eq_sound j k e, u j, f) (omega arith)
          | inr e ↦ rw e (omega arith)
        ])

  -- How many of some streams are a container's own.
  abbrev owned : Bytes → List (Bytes × Stream env) → ℕ
  owned k [] = 0
  owned k ((j, s) ∷ m) = unit_if (bytes_eq s.id k) + owned k m

  owned-held : (k : Bytes) (m : List (Bytes × Stream env)) → All Own m → owned k m ≡ held k m
  owned-held k [] h = refl
  owned-held k ((j, s) ∷ m) (h, hs) = ap₂ (λ i n. unit_if (bytes_eq i k) + n) h (owned-held k m hs)

  owned-permᴰ : (k : Bytes) {m n : List (Bytes × Stream env)} → Permᴰ m n → owned k m ≡ owned k n
  owned-permᴰ k nil = refl
  owned-permᴰ k (cons e p) = ap₂ (λ x c. unit_if (bytes_eq x.1.id k) + c) e (owned-permᴰ k p)
  owned-permᴰ k (swap e f) = rw (e, f) (omega arith)
  owned-permᴰ k (trans p q) = owned-permᴰ k p ∙ owned-permᴰ k q

  owned-perm : (k : Bytes) {m n : List (Bytes × Stream env)} → Perm m n → owned k m ≡ owned k n
  owned-perm k p = ∥∥₁_elim p (ℕ_set _ _) (owned-permᴰ k)

  module _ (writer_factory : WriterFactory env) where
    -- The three things that one event can do to the map.
    abbrev Done : Event → EventLoop env → EventLoop env × List (Action env) → Type 0
    Done e l r =
        ((r.0.log_streams ≡ l.log_streams) × (r.1 ≡ []))
        ⊎ (((s : Stream env) × (s.id ≡ e.container_id)
              × (stream_at e.container_id l.log_streams ≡ none)
              × (r.0.log_streams ≡ (e.container_id, s) ∷ l.log_streams)
              × (r.1 ≡ started s ∷ []))
            ⊎ ((s : Stream env) × (x : Option Error) × (stream_at e.container_id l.log_streams
                  ≡ some s)
                × (r.0.log_streams ≡ delete e.container_id l.log_streams)
                × (r.1 ≡ closed s x ∷ [])))

    track-Done :
        (e : Event) (l : EventLoop env) (ws : (env.Writer × env.Writer) ⊎ Error) (w : env.World)
        → stream_at e.container_id l.log_streams ≡ none
        → Done e l (track env writer_factory e ws (record l { world = w }))
    unfolding track
    track-Done e l (inr x) w h = inl (refl, refl)
    track-Done e l (inl ws) w h = inr (inl (_, refl, h, refl, refl))

    dispatch-Done :
        (b : Bool) (o : Option (Stream env)) (e : Event) (l : EventLoop env)
        → stream_at e.container_id l.log_streams ≡ o
        → Done e l (dispatch env writer_factory b o e l)
    unfolding dispatch start_stream stop_stream
    dispatch-Done true (some s) e l h = inl (refl, refl)
    dispatch-Done true none e l h = track-Done e l _ _ h
    dispatch-Done false none e l h = inl (refl, refl)
    dispatch-Done false (some s) e l h = inr (inr (s, _, h, refl, refl))

    on_event-Done : (e : Event) (l : EventLoop env) → Done e l (on_event env writer_factory e l)
    unfolding on_event
    on_event-Done e l = dispatch-Done e.status _ e l refl

    -- What has been started is what was held or closed, or is held now.
    abbrev Balanced : EventLoop env → EventLoop env × List (Action env) → Type 0
    Balanced l r =
        (k : Bytes) → held k l.log_streams + starts k r.1 ≡ closes k r.1 + held k r.0.log_streams

    Done-Kept :
        (e : Event) (l : EventLoop env) (r : EventLoop env × List (Action env))
        → Kept l.log_streams
        → Done e l r
        → Kept r.0.log_streams × Balanced l r
    Done-Kept e l r h (inl (m, a)) = rw (m, a) (h, λ k. omega arith)
    Done-Kept e l r (o, u) (inr (inl (s, i, f, m, a))) =
        rw (m, a)
          (((i, o), Single-start e.container_id s l.log_streams u f), λ k. rw i (omega arith))
    Done-Kept e l r (o, u) (inr (inr (s, x, f, m, a))) =
        rw (m, a)
          (
            (
              All-delete e.container_id l.log_streams o,
              Single-delete e.container_id l.log_streams u,
            ),
            λ k. closed_balance e.container_id k s l.log_streams o u f,
          )

    run_events-Kept :
        (es : List Event) (l : EventLoop env)
        → Kept l.log_streams
        → Kept (run_events env writer_factory es l).0.log_streams
          × Balanced l (run_events env writer_factory es l)
    unfolding run_events
    run_events-Kept [] l h = (h, λ k. omega arith)
    run_events-Kept (e ∷ es) l h =
        let r = on_event env writer_factory e l in
        let (kept, one) = Done-Kept e l r h (on_event-Done e l) in
        let (all, rest) = run_events-Kept es r.0 kept in
        (all, λ k. rw (starts-append k r.1, closes-append k r.1) (omega (arith, one k, rest k)))

    close_streams-counts :
        (m : List (Bytes × Stream env)) (w : env.World) (k : Bytes)
        → (starts k (close_streams env writer_factory m w).1 ≡ 0)
          × (closes k (close_streams env writer_factory m w).1 ≡ owned k m)
    unfolding close_streams
    close_streams-counts [] w k = (refl, refl)
    close_streams-counts ((j, s) ∷ m) w k =
        let (a, b) = close_streams-counts m (close_stream env s w).0 k in
        (a, ap (λ n. unit_if (bytes_eq s.id k) + n) b)

    -- However the events come, with repeated starts, containers that are not known and writers that
    -- cannot be made, and in whatever order `range` goes through the map at the end: when `Run` has
    -- returned, each container's stream has been closed as often as it has been started.
    pub run-closes :
        (order : MapOrder env)
        → ((m : List (Bytes × Stream env)) → Perm (order m) m)
        → (events : List Event) (w : env.World) (k : Bytes)
        → closes k (run env writer_factory order events w).1
          ≡ starts k (run env writer_factory order events w).1
    unfolding run
    run-closes order same events w k =
        let start : EventLoop env = record { log_streams = []; world = w } in
        let r = run_events env writer_factory events start in
        let (kept, sum) = run_events-Kept events start (tt, λ j. refl) in
        let (a, b) = close_streams-counts (order r.0.log_streams) r.0.world k in
        let all = owned-perm k (same r.0.log_streams) ∙ owned-held k r.0.log_streams kept.0 in
        rw (starts-append k r.1, closes-append k r.1) (omega (arith, sum k, a, b, all))
