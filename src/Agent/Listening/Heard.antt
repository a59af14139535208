-- ===== src/Agent/Listening/Heard.antt =====
-- Which events the loop gets, whatever the order of the steps.
use dkll.Base.{
  ℕ, ◌≤◌, ◌<◌, ◌≡◌, ◌⊎◌, inl, inr, refl, sym, ap, ◌∙◌, false, Option, none, some, List, [], ◌∷◌,
  ◌++◌, append_assoc, append-nil, arith, length, length-append, All, leb, leb→le, Bool-cases,
  if◌then◌else◌,
}
use dkll.Agent.{Event}
use dkll.Agent.Notifier.{Filters, ApiEvent, ApiContainer, events_cap, on_api_event}
use dkll.Agent.Notifier.Passed.{expected, IsNamed, emit_running_containers-cap}
use dkll.Agent.Watched.{notified, push_event}
use dkll.Agent.Listening.{
  Phase, starting, receiving, fatal, checking, emitting, Happened, heard, missed, Watch, watching,
  stuck, new_event_notifier, after_check, Step, miss, listen, listen_fails, hear, check, send, take,
  listener_closed, Reach, here, next,
}

-- The events of docker that the goroutine received, in order.
abbrev pub heard_of : List Happened → List ApiEvent
heard_of [] = []
heard_of (heard e ∷ hs) = e ∷ heard_of hs
heard_of (missed e ∷ hs) = heard_of hs

-- What the goroutine still has to send, unless the process has ended.
abbrev pub pending : Filters → Phase → List Event
pending f starting = []
pending f receiving = []
pending f fatal = []
pending f (checking e) = notified f (e ∷ [])
pending f (emitting v) = v ∷ []

-- The events that the loop took, those in the channel and the one that the goroutine has are the events of
-- the containers that ran, then those of docker's events that the goroutine received and the filters pass
-- on, in order; and the channel keeps its capacity.
pub record Flows (f : Filters) (cs : List ApiContainer) (s : Watch) : Type 0 where
  pub flow :
      s.taken ++ s.events_ch ++ pending f s.phase
      ≡ expected f cs ++ notified f (heard_of s.happened)
  pub bound : length s.events_ch ≤ events_cap

heard_of-append : (hs ks : List Happened) → heard_of (hs ++ ks) ≡ heard_of hs ++ heard_of ks
heard_of-append [] ks = refl
heard_of-append (heard e ∷ hs) ks = ap (λ t. e ∷ t) (heard_of-append hs ks)
heard_of-append (missed e ∷ hs) ks = heard_of-append hs ks

push_event-append :
    (o : Option Event) (vs ws : List Event) → push_event o (vs ++ ws) ≡ push_event o vs ++ ws
unfolding push_event
push_event-append none vs ws = refl
push_event-append (some v) vs ws = refl

notified-append :
    (f : Filters) (es ds : List ApiEvent) → notified f (es ++ ds) ≡ notified f es ++ notified f ds
unfolding notified push_event
notified-append f [] ds = refl
notified-append f (e ∷ es) ds =
    ap (push_event (on_api_event f e)) (notified-append f es ds)
    ∙ push_event-append (on_api_event f e) (notified f es) (notified f ds)

notified-snoc :
    (f : Filters) (hs : List Happened) (e : ApiEvent)
    → notified f (heard_of (hs ++ heard e ∷ [])) ≡ notified f (heard_of hs) ++ notified f (e ∷ [])
notified-snoc f hs e =
    ap (notified f) (heard_of-append hs (heard e ∷ [])) ∙ notified-append f (heard_of hs) (e ∷ [])

pending-after : (f : Filters) (o : Option Event) → pending f (after_check o) ≡ push_event o []
unfolding push_event after_check
pending-after f none = refl
pending-after f (some v) = refl

pending-check :
    (f : Filters) (e : ApiEvent) → pending f (after_check (on_api_event f e)) ≡ notified f (e ∷ [])
unfolding notified push_event
pending-check f e = pending-after f (on_api_event f e)

more {ℓ} : {A : Type ℓ} (a b c d x : List A) → a ++ b ++ [] ≡ c ++ d → a ++ b ++ x ≡ c ++ (d ++ x)
more a b c d x h = ap (λ t. t ++ x) (sym (append-nil (a ++ b)) ∙ h) ∙ append_assoc c d x

leb-false : (a b : ℕ) → leb a b ≡ false → b < a
leb-false a b h = ground arith

module _ (f : Filters) (cs : List ApiContainer) where
  -- What flows through a notifier, for what its goroutine has.
  abbrev through : Watch → List Event → List Event
  through s p = s.taken ++ s.events_ch ++ p

  Step-flow :
      {s t : Watch}
      → Step f s t
      → through s (pending f s.phase) ≡ expected f cs ++ notified f (heard_of s.happened)
      → through t (pending f t.phase) ≡ expected f cs ++ notified f (heard_of t.happened)
  Step-flow {s = s} (miss e h) w =
      w
      ∙ ap (λ l. expected f cs ++ notified f l)
          (sym (heard_of-append s.happened (missed e ∷ []) ∙ append-nil _))
  Step-flow {s = s} (listen h) w = ap (λ p. through s (pending f p)) (sym h) ∙ w
  Step-flow {s = s} (listen_fails h) w = ap (λ p. through s (pending f p)) (sym h) ∙ w
  Step-flow {s = s} (hear e h) w =
      let old = ap (λ p. through s (pending f p)) (sym h) ∙ w in
      rw (notified-snoc f s.happened e)
        (more s.taken s.events_ch (expected f cs) _ (notified f (e ∷ [])) old)
  Step-flow {s = s} (check e h) w =
      ap (through s) (pending-check f e) ∙ ap (λ p. through s (pending f p)) (sym h) ∙ w
  Step-flow {s = s} (send v h b) w =
      append-nil (s.taken ++ (s.events_ch ++ v ∷ []))
      ∙ sym (append_assoc s.taken s.events_ch (v ∷ []))
      ∙ ap (λ p. through s (pending f p)) (sym h)
      ∙ w
  Step-flow {s = s} (take v vs n h) w =
      ap (λ c. c ++ pending f s.phase)
        (append_assoc s.taken (v ∷ []) vs ∙ ap (λ c. s.taken ++ c) (sym h))
      ∙ w
  Step-flow {s = s} (listener_closed h) w = ap (λ p. through s (pending f p)) (sym h) ∙ w

  Step-bound :
      {s t : Watch} → Step f s t → length s.events_ch ≤ events_cap → length t.events_ch ≤ events_cap
  Step-bound (miss e h) b = b
  Step-bound (listen h) b = b
  Step-bound (listen_fails h) b = b
  Step-bound (hear e h) b = b
  Step-bound (check e h) b = b
  Step-bound {s = s} (send v h l) b = omega (arith, length-append s.events_ch (v ∷ []))
  Step-bound {s = s} (take v vs n h) b = omega (arith, ap length h)
  Step-bound (listener_closed h) b = b

  pub Reach-Flows : {s t : Watch} → Flows f cs s → Reach f s t → Flows f cs t
  Reach-Flows w here = w
  Reach-Flows w (next r s) =
      let v = Reach-Flows w r in record { flow = Step-flow s v.flow; bound = Step-bound s v.bound }

  -- The notifier of containers that have names and fit into the channel.
  abbrev pub made : Watch
  made = record { phase = starting; events_ch = expected f cs; happened = []; taken = [] }

  pub new_event_notifier-made :
      All IsNamed cs
      → new_event_notifier f (inl cs)
        ≡ (if leb (length (expected f cs)) events_cap then watching made else stuck)
  unfolding new_event_notifier
  new_event_notifier-made h = elim (Bool-cases (leb (length (expected f cs)) events_cap)) [
    | inl e ↦ rw (new_event_notifier, emit_running_containers-cap f cs h, e) refl
    | inr e ↦ rw (new_event_notifier, emit_running_containers-cap f cs h, e) refl
  ]

  pub made-Flows : length (expected f cs) ≤ events_cap → Flows f cs made
  unfolding notified
  made-Flows b = record { flow = refl; bound = b }

  -- For containers that all have a name: the notifier is made exactly if at most 100 of them are allowed.
  -- From then on, whatever docker does and in whatever order the goroutine and the loop go on, the events
  -- that the loop took, those in the channel and the one that the goroutine has are, in order, the events of
  -- those containers and of what the goroutine received and the filters pass on: none of these is lost,
  -- repeated or reordered; and the channel keeps its capacity.
  pub new_event_notifier-Flows :
      (t : Watch)
      → All IsNamed cs
      → Reach f made t
      → ((events_cap < length (expected f cs)) × (new_event_notifier f (inl cs) ≡ stuck))
        ⊎ ((length (expected f cs) ≤ events_cap)
            × (new_event_notifier f (inl cs) ≡ watching made)
            × Flows f cs t)
  new_event_notifier-Flows t h r = elim (Bool-cases (leb (length (expected f cs)) events_cap)) [
    | inl e ↦
        let b = leb→le (length (expected f cs)) events_cap e in
        inr (b, new_event_notifier-made h ∙ (rw e refl), Reach-Flows (made-Flows b) r)
    | inr e ↦ inl (leb-false _ _ e, new_event_notifier-made h ∙ (rw e refl))
  ]
