-- ===== src/Agent/Listening/Followed.antt =====
-- The notifier and the event loop together, while docker goes on: whose logs are streamed.
use dkll.Base.{
  ◌≤◌, ◌≡◌, ◌≢◌, refl, sym, ap, ◌∙◌, subst, Bool, true, false, ◌&&◌, ◌||◌, List, [], ◌∷◌, ◌++◌,
  append_assoc, append-nil, arith, Bytes, bytes_eq, length, if◌then◌else◌, trim_prefix, codes,
}
use dkll.Agent.{Event}
use dkll.Agent.Streamer.{Streaming}
use dkll.Agent.EventLoop.{WriterFactory, EventLoop, run_events}
use dkll.Agent.EventLoop.Tracked.{tracked, last_status, Reliable, tracked-none, run_events-tracked}
use dkll.Agent.Notifier.{Filters, ApiEvent, ApiContainer, is_allowed, running_event, events_cap}
use dkll.Agent.Notifier.Passed.{expected, expected_of}
use dkll.Agent.Watched.{notified, last_up, last_status-notified}
use dkll.Agent.Listening.{
  Phase, receiving, fatal, Happened, missed, Watch, miss, listen, take, Reach, here, next,
}
use dkll.Agent.Listening.Heard.{heard_of, pending, Flows, made, made-Flows, Reach-Flows}

-- A container is allowed by its first name, and has this identifier.
abbrev is_listed : Filters → Bytes → ApiContainer → List Bytes → Bool
is_listed f k c [] = false
is_listed f k c (name ∷ names) = is_allowed f (trim_prefix name (codes "/")) && bytes_eq c.id k

-- One of the containers that ran when they were listed is allowed and has this identifier.
abbrev pub listed : Filters → Bytes → List ApiContainer → Bool
listed f k [] = false
listed f k (c ∷ cs) = is_listed f k c c.names || listed f k cs

last_status-append :
    (k : Bytes) (es ds : List Event) (b : Bool)
    → last_status k (es ++ ds) b ≡ last_status k ds (last_status k es b)
last_status-append k [] ds b = refl
last_status-append k (e ∷ es) ds b = last_status-append k es ds _

allowed_status :
    (a : Bool) (k : Bytes) (v : Event) (b : Bool)
    → v.status ≡ true
    → last_status k (if a then v ∷ [] else []) b ≡ (a && bytes_eq v.container_id k || b)
allowed_status true k v b h = ground (arith, h)
allowed_status false k v b h = refl

last_status-expected_of :
    (f : Filters) (k : Bytes) (c : ApiContainer) (names : List Bytes) (b : Bool)
    → last_status k (expected_of f c names) b ≡ (is_listed f k c names || b)
unfolding running_event
last_status-expected_of f k c [] b = refl
last_status-expected_of f k c (name ∷ names) b =
    allowed_status (is_allowed f (trim_prefix name (codes "/"))) k (running_event c name) b refl

or_swap : (a b c : Bool) → (a || (b || c)) ≡ ((b || a) || c)
or_swap a b c = ground arith

or_false : (a : Bool) → (a || false) ≡ a
or_false a = ground arith

last_status-expected :
    (f : Filters) (k : Bytes) (cs : List ApiContainer) (b : Bool)
    → last_status k (expected f cs) b ≡ (listed f k cs || b)
last_status-expected f k [] b = refl
last_status-expected f k (c ∷ cs) b =
    last_status-append k (expected_of f c c.names) (expected f cs) b
    ∙ last_status-expected f k cs _
    ∙ ap (λ t. listed f k cs || t) (last_status-expected_of f k c c.names b)
    ∙ or_swap (listed f k cs) (is_listed f k c c.names) b

-- A notifier with nothing on its way to the loop.
abbrev pub IsSettled : Watch → Type 0
IsSettled t = (t.phase ≡ receiving) × (t.events_ch ≡ [])

settled-taken :
    (f : Filters) (cs : List ApiContainer) (t : Watch)
    → Flows f cs t
    → IsSettled t
    → t.taken ≡ expected f cs ++ notified f (heard_of t.happened)
settled-taken f cs t w (p, c) =
    sym (append-nil t.taken)
    ∙ sym (append-nil (t.taken ++ []))
    ∙ ap (λ e. t.taken ++ e ++ []) (sym c)
    ∙ ap (λ q. t.taken ++ t.events_ch ++ pending f q) (sym p)
    ∙ w.flow

-- A state of a notifier, part by part.
abbrev state : Phase → List Event → List Happened → List Event → Watch
state p ch hs tk = record { phase = p; events_ch = ch; happened = hs; taken = tk }

drain :
    (f : Filters) (s : Watch) (p : Phase) (hs : List Happened)
    → p ≢ fatal
    → (ch tk : List Event) → Reach f s (state p ch hs tk)
    → Reach f s (state p [] hs (tk ++ ch))
drain f s p hs n [] tk r = subst (λ l. Reach f s (state p [] hs l)) (sym (append-nil tk)) r
drain f s p hs n (v ∷ ch) tk r =
    subst (λ l. Reach f s (state p [] hs l)) (append_assoc tk (v ∷ []) ch)
      (drain f s p hs n ch (tk ++ v ∷ []) (next r (take v ch n refl)))

-- An event that happens before the goroutine listens.
missing :
    (f : Filters) (cs : List ApiContainer) (e : ApiEvent)
    → Reach f (made f cs) (state receiving [] (missed e ∷ []) (expected f cs))
missing f cs e =
    drain f (made f cs) receiving (missed e ∷ []) (λ h. absurd cc) (expected f cs) []
      (next (next here (miss e (λ h. absurd cc))) (listen refl))

module _ (env : Streaming) (writer_factory : WriterFactory env)
    (reliable : Reliable env writer_factory) where
  -- The loop after the events that it took, which began with no streams.
  abbrev pub streams : Watch → env.World → Bytes → Bool
  streams t w k =
      tracked env k
        (run_events env writer_factory t.taken (record { log_streams = []; world = w })).0

  module _ (f : Filters) (cs : List ApiContainer)
      (bound : length (expected f cs) ≤ events_cap) where
    -- For at most 100 allowed containers, and if the writers of every container can be made: whenever the
    -- goroutine waits for docker and the channel is empty, the loop keeps a stream of a container exactly
    -- if, of the events that the goroutine received and the filters pass on, the last one of that container
    -- says that it has started, or there is none and the container was listed at the start.
    pub streams-heard :
        (t : Watch)
        → Reach f (made f cs) t
        → IsSettled t
        → (w : env.World) (k : Bytes)
        → streams t w k ≡ last_up f k (heard_of t.happened) (listed f k cs)
    streams-heard t r settled w k =
        let start : EventLoop env = record { log_streams = []; world = w } in
        run_events-tracked env writer_factory reliable t.taken k start
        ∙ ap (last_status k t.taken) (tracked-none env k w)
        ∙ ap (λ es. last_status k es false)
            (settled-taken f cs t (Reach-Flows f cs (made-Flows f cs bound) r) settled)
        ∙ last_status-append k (expected f cs) (notified f (heard_of t.happened)) false
        ∙ last_status-notified f k (heard_of t.happened) _
        ∙ ap (last_up f k (heard_of t.happened))
            (last_status-expected f k cs false ∙ or_false (listed f k cs))

    -- Under the same conditions, and for every event of docker: if it happens after the containers have been
    -- listed and before the goroutine listens, the notifier can come to wait with nothing on its way, and
    -- the loop then keeps the streams of the containers that were listed, as if the event had not happened.
    pub streams-missed :
        (e : ApiEvent)
        → (t : Watch) × Reach f (made f cs) t
          × (t.happened ≡ missed e ∷ [])
          × IsSettled t
          × ((w : env.World) (k : Bytes) → streams t w k ≡ listed f k cs)
    streams-missed e =
        let t = state receiving [] (missed e ∷ []) (expected f cs) in
        (t, missing f cs e, refl, (refl, refl), streams-heard t (missing f cs e) (refl, refl))
