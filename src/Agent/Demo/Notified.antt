-- ===== src/Agent/Demo/Notified.antt =====
-- app/agent/demo_mode.go: the three events of `NewDemoEventNotifier`, and the event loop behind it.
use dkll.Base.{
  ℕ, ◌+◌, ◌≤◌, ◌<◌, ◌≡◌, ◌≢◌, ◌⊎◌, suc, inl, inr, refl, sym, ap, ap₂, ◌∙◌, Bool, true, false, ◌||◌,
  List, [], ◌∷◌, ◌++◌, append_assoc, append-nil, arith, Bytes, codes, bytes_eq, length,
  length-append,
}
use dkll.Core.{Time}
use dkll.Agent.{Event}
use dkll.Agent.Streamer.{Streaming}
use dkll.Agent.EventLoop.{WriterFactory, run_events}
use dkll.Agent.EventLoop.Tracked.{tracked, last_status, Reliable, tracked-none, run_events-tracked}
use dkll.Agent.Demo.{demo_events}

-- The constructor, its goroutine and the channel: the events still to send, those in the channel, and those
-- that the loop took.
pub record DemoNotifier : Type 0 where
  pub to_send : List Event
  pub ch : List Event
  pub taken : List Event
  pub cancelled : Bool
  pub closed : Bool
  pub panicked : Bool

-- The capacity of the channel.
abbrev pub demo_cap : ℕ
demo_cap = 3

unfoldable pub demo_start : Time → Time → Time → DemoNotifier
unfolding demo_events
demo_start a b c = record {
  to_send = demo_events a b c;
  ch = [];
  taken = [];
  cancelled = false;
  closed = false;
  panicked = false;
}

-- A step of the constructor, of the goroutine that waits for the context, of the caller or of the loop, which
-- has the notifier once all is sent. A send on the closed channel panics.
pub data Step (s : DemoNotifier) : DemoNotifier → Type 0 where
  send :
      (v : Event) (vs : List Event)
      → s.to_send ≡ v ∷ vs
      → s.closed ≡ false
      → length s.ch < demo_cap
      → Step s (record s { to_send = vs; ch = s.ch ++ v ∷ [] })
  send_closed :
      (v : Event) (vs : List Event)
      → s.to_send ≡ v ∷ vs
      → s.closed ≡ true
      → Step s (record s { panicked = true })
  cancel : Step s (record s { cancelled = true })
  close : s.cancelled ≡ true → s.closed ≡ false → Step s (record s { closed = true })
  take :
      (v : Event) (vs : List Event)
      → s.to_send ≡ []
      → s.ch ≡ v ∷ vs
      → Step s (record s { ch = vs; taken = s.taken ++ v ∷ [] })

pub data Reach (s : DemoNotifier) : DemoNotifier → Type 0 where
  here : Reach s s
  next : {t u : DemoNotifier} → Reach s t → Step t u → Reach s u

-- The events that were taken, those in the channel and those to send are the three, in order; there is room
-- for the last ones; the channel is closed only after the cancellation, and the constructor panics only once
-- it is closed.
pub record IsDemo (es : List Event) (s : DemoNotifier) : Type 0 where
  pub flow : s.taken ++ s.ch ++ s.to_send ≡ es
  pub room : length s.ch + length s.to_send ≤ demo_cap
  pub closes_late : s.closed ≡ true → s.cancelled ≡ true
  pub panics_late : s.panicked ≡ true → s.closed ≡ true

Step-IsDemo : {es : List Event} {s t : DemoNotifier} → Step s t → IsDemo es s → IsDemo es t
Step-IsDemo {s = s} (send v vs h n b) w = record {
  flow =
      append_assoc s.taken (s.ch ++ v ∷ []) vs
      ∙ ap (λ c. s.taken ++ c) (append_assoc s.ch (v ∷ []) vs)
      ∙ sym (append_assoc s.taken s.ch (v ∷ vs))
      ∙ ap (λ c. s.taken ++ s.ch ++ c) (sym h)
      ∙ w.flow;
  room = omega (arith, w.room, ap length h, length-append s.ch (v ∷ []));
  closes_late = w.closes_late;
  panics_late = w.panics_late;
}
Step-IsDemo (send_closed v vs h e) w = record {
  flow = w.flow;
  room = w.room;
  closes_late = w.closes_late;
  panics_late = λ p. e;
}
Step-IsDemo cancel w = record {
  flow = w.flow;
  room = w.room;
  closes_late = λ p. refl;
  panics_late = w.panics_late;
}
Step-IsDemo (close c n) w = record {
  flow = w.flow;
  room = w.room;
  closes_late = λ p. c;
  panics_late = λ p. refl;
}
Step-IsDemo {s = s} (take v vs h e) w = record {
  flow =
      ap (λ c. c ++ s.to_send) (append_assoc s.taken (v ∷ []) vs ∙ ap (λ c. s.taken ++ c) (sym e))
      ∙ w.flow;
  room = omega (arith, w.room, ap length e);
  closes_late = w.closes_late;
  panics_late = w.panics_late;
}

Reach-IsDemo : {es : List Event} {s t : DemoNotifier} → IsDemo es s → Reach s t → IsDemo es t
Reach-IsDemo w here = w
Reach-IsDemo w (next r s) = Step-IsDemo s (Reach-IsDemo w r)

not_true : (b : Bool) → b ≢ true → b ≡ false
not_true b h = ground (arith, h)

demo_start-IsDemo : (a b c : Time) → IsDemo (demo_events a b c) (demo_start a b c)
unfolding demo_start demo_events
demo_start-IsDemo a b c = record {
  flow = refl;
  room = omega arith;
  closes_late = λ h. absurd cc;
  panics_late = λ h. absurd cc;
}

-- The constructor has sent all, or can send the next event.
abbrev pub Goes : DemoNotifier → Type 0
Goes s =
    (s.to_send ≡ []) ⊎ ((t : DemoNotifier) × Step s t × (suc (length t.to_send) ≡ length s.to_send))

IsDemo-Goes :
    {es : List Event} (s : DemoNotifier) (l : List Event)
    → s.to_send ≡ l
    → s.closed ≡ false
    → IsDemo es s
    → Goes s
IsDemo-Goes s [] h n w = inl h
IsDemo-Goes s (v ∷ vs) h n w =
    inr (_, send v vs h n (omega (arith, w.room, ap length h)), ap length (sym h))

-- The three containers.
abbrev pub is_demo : Bytes → Bool
is_demo k = bytes_eq (codes "nginx") k || (bytes_eq (codes "mongo") k || bytes_eq (codes "rest") k)

last_status-demo : (a b c : Time) (k : Bytes) → last_status k (demo_events a b c) false ≡ is_demo k
unfolding demo_events
last_status-demo a b c k = ground arith

taken_all : (x y z es : List Event) → x ++ y ++ z ≡ es → y ≡ [] → z ≡ [] → x ≡ es
taken_all x y z es h e f =
    sym (append-nil x) ∙ sym (append-nil (x ++ [])) ∙ ap₂ (λ c d. x ++ c ++ d) (sym e) (sym f) ∙ h

-- A cancellation before the constructor has returned can make it panic.
pub demo_start-panics :
    (a b c : Time) → (s : DemoNotifier) × Reach (demo_start a b c) s × (s.panicked ≡ true)
unfolding demo_start demo_events
demo_start-panics a b c =
    (_, next (next (next here cancel) (close refl refl)) (send_closed _ _ refl refl), refl)

module _ (a b c : Time) (s : DemoNotifier) (r : Reach (demo_start a b c) s) where
  still_open : s.cancelled ≡ false → s.closed ≡ false
  still_open n =
      not_true s.closed (λ h. cc (n, (Reach-IsDemo (demo_start-IsDemo a b c) r).closes_late h))

  -- In whatever order the constructor, its goroutine and the loop go on, as long as the context is not done:
  -- the constructor does not panic, and it has sent all or can send the next event, so it never waits for
  -- the loop.
  pub demo_start-Goes : s.cancelled ≡ false → (s.panicked ≡ false) × Goes s
  demo_start-Goes n =
      let w = Reach-IsDemo (demo_start-IsDemo a b c) r in
      let opened = still_open n in
      (
        not_true s.panicked (λ h. cc (opened, w.panics_late h)),
        IsDemo-Goes s s.to_send refl opened w,
      )

  -- In whatever order the constructor, its goroutine, a cancellation and the loop go on: once all is sent and the channel is empty, the loop keeps the streams of
  -- exactly the containers nginx, mongo and rest, if the writers of every container can be made.
  pub demo_start-streams :
      (env : Streaming) (writer_factory : WriterFactory env)
      → Reliable env writer_factory
      → s.to_send ≡ []
      → s.ch ≡ []
      → (w : env.World) (k : Bytes)
      → tracked env k
          (run_events env writer_factory s.taken (record { log_streams = []; world = w })).0
        ≡ is_demo k
  demo_start-streams env writer_factory reliable e f v k =
      let w = Reach-IsDemo (demo_start-IsDemo a b c) r in
      run_events-tracked env writer_factory reliable s.taken k
        (record { log_streams = []; world = v })
      ∙ ap (last_status k s.taken) (tracked-none env k v)
      ∙ ap (λ es. last_status k es false) (taken_all s.taken s.ch s.to_send _ w.flow f e)
      ∙ last_status-demo a b c k
