-- ===== src/Agent/Notifier/Passed.antt =====
-- Which containers' events are passed on, and what becomes of the running ones.
use dkll.Base.{
  ℕ, suc, ◌+◌, ◌≤◌, ◌≡◌, ◌≢◌, ◌⊎◌, inl, inr, refl, ◌∙◌, Bool, true, false, not, ◌&&◌, ◌||◌, none,
  some, List, [], ◌∷◌, ◌++◌, append_assoc, append-nil, leb, arith, if◌then◌else◌, Bytes, codes,
  bytes_eq, length, length-append, trim_prefix, Lacks, All, Bool-cases, le→leb, leb→le,
}
use dkll.Agent.{Event}
use dkll.Agent.Notifier.{
  contains, Filters, is_allowed, before_slash, group, ApiEvent, up_statuses, down_statuses,
  on_api_event, ApiContainer, Emitted, emitted, blocked, events_cap, running_event, emit_each,
  emit_one, and_then, emit_running_containers,
}

before_slash-Lacks : (b c : Bytes) → Lacks 47 b → Lacks 10 b → before_slash (b ++ 47 ∷ c) ≡ some b
unfolding before_slash
before_slash-Lacks [] c h k = refl
before_slash-Lacks (x ∷ b) c (h, hs) (k, ks) = ground (arith, before_slash-Lacks b c hs ks)

-- The group of an image is what stands between the first two slashes of its name, if no new line is
-- there.
pub group-between :
    (a b c : Bytes) → Lacks 47 a → Lacks 47 b → Lacks 10 b → group (a ++ 47 ∷ b ++ 47 ∷ c) ≡ b
unfolding group
group-between [] b c ha hb k = rw (before_slash-Lacks b c hb k) refl
group-between (x ∷ a) b c (h, hs) hb k = ground (arith, group-between a b c hs hb k)

passes_if {ℓ} :
    {A : Type ℓ} (a u d w : Bool) (v : A)
    → (if not a then none else (if not u && not d then none else (if not w then none else some v)))
      ≡ (if a && ((u || d) && w) then some v else none)
passes_if a u d w v = ground arith

if_true {ℓ} : {A : Type ℓ} {b : Bool} (v : A) → b ≡ true → (if b then some v else none) ≡ some v
if_true v h = rw h refl

-- It is of a container, of one of the six statuses, and the container is allowed.
abbrev pub is_passed : Filters → ApiEvent → Bool
is_passed f e =
    bytes_eq e.kind (codes "container")
    && ((contains e.status up_statuses || contains e.status down_statuses)
        && is_allowed f (trim_prefix e.name (codes "/")))

-- An event of docker is passed on exactly if it is of a container, has one of the six statuses, and the
-- container is allowed; what is passed on has the container's identifier, its name without a leading
-- slash, and says that the container has started exactly for the statuses start and restart.
pub on_api_event-passes :
    (f : Filters) (e : ApiEvent)
    → ((is_passed f e ≡ false) × (on_api_event f e ≡ none))
      ⊎ ((is_passed f e ≡ true)
          × ((v : Event) × (on_api_event f e ≡ some v)
              × (v.container_id ≡ e.actor_id)
              × (v.container_name ≡ trim_prefix e.name (codes "/"))
              × (v.status ≡ contains e.status up_statuses)))
unfolding on_api_event
on_api_event-passes f e =
    let same =
      passes_if (bytes_eq e.kind (codes "container")) (contains e.status up_statuses)
        (contains e.status down_statuses) (is_allowed f (trim_prefix e.name (codes "/"))) _ in
    elim (Bool-cases (is_passed f e)) [
      | inl h ↦ inr (h, (_, same ∙ if_true _ h, refl, refl, refl))
      | inr h ↦ inl (h, same ∙ (rw h refl))
    ]

abbrev pub IsNamed : ApiContainer → Type 0
IsNamed c = c.names ≢ []

-- The event of a running container of those names, if it is allowed.
abbrev pub expected_of : Filters → ApiContainer → List Bytes → List Event
expected_of f c [] = []
expected_of f c (name ∷ names) =
    if is_allowed f (trim_prefix name (codes "/")) then running_event c name ∷ [] else []

-- The events of the running containers that are allowed.
abbrev pub expected : Filters → List ApiContainer → List Event
expected f [] = []
expected f (c ∷ cs) = expected_of f c c.names ++ expected f cs

abbrev within : List Event → Emitted
within es = if leb (length es) events_cap then emitted es else blocked

leb_flip {ℓ} :
    {A : Type ℓ} (a b : ℕ) (x y : A) → (if leb b a then x else y) ≡ (if leb (suc a) b then y else x)
leb_flip a b x y = ground arith

leb_more : (a b n : ℕ) → leb a n ≡ false → leb (a + b) n ≡ false
leb_more a b n h = ground arith

length-snoc : (ch : List Event) (e : Event) → length (ch ++ e ∷ []) ≡ suc (length ch)
length-snoc ch e = length-append ch (e ∷ []) ∙ omega arith

emit_one-within :
    (f : Filters) (c : ApiContainer) (names : List Bytes) (ch : List Event)
    → names ≢ []
    → length ch ≤ events_cap
    → emit_one f c names ch ≡ within (ch ++ expected_of f c names)
unfolding emit_one
emit_one-within f c [] ch h b = absurd (h refl)
emit_one-within f c (name ∷ names) ch h b =
    elim (Bool-cases (is_allowed f (trim_prefix name (codes "/")))) [
      | inl e ↦ rw (e, length-snoc ch (running_event c name)) (leb_flip (length ch) events_cap _ _)
      | inr e ↦ rw (e, append-nil ch, le→leb (length ch) events_cap b) refl
    ]

and_then-within :
    (es : List Event) (more : List Event) (k : List Event → Emitted)
    → (length es ≤ events_cap → k es ≡ within (es ++ more))
    → and_then (within es) k ≡ within (es ++ more)
unfolding and_then
and_then-within es more k h = elim (Bool-cases (leb (length es) events_cap)) [
  | inl e ↦ rw e (h (leb→le (length es) events_cap e))
  | inr e ↦ rw (e, length-append es more, leb_more (length es) (length more) events_cap e) refl
]

emit_each-expected :
    (f : Filters) (cs : List ApiContainer) (ch : List Event)
    → All IsNamed cs
    → length ch ≤ events_cap
    → emit_each f cs ch ≡ within (ch ++ expected f cs)
unfolding emit_each
emit_each-expected f [] ch h b = rw (append-nil ch, le→leb (length ch) events_cap b) refl
emit_each-expected f (c ∷ cs) ch (h, hs) b =
    rw
      (
        emit_one-within f c c.names ch h b,
        ← append_assoc ch (expected_of f c c.names) (expected f cs),
      )
      (and_then-within (ch ++ expected_of f c c.names) (expected f cs) _
        (λ b'. emit_each-expected f cs (ch ++ expected_of f c c.names) hs b'))

-- Of running containers that all have a name: if at most 100 are allowed, a started event of each of
-- them is in the channel, in the order of the list; if more are allowed, the call never returns, for
-- nothing reads the channel yet.
pub emit_running_containers-cap :
    (f : Filters) (cs : List ApiContainer)
    → All IsNamed cs
    → emit_running_containers f (inl cs)
      ≡ (if leb (length (expected f cs)) events_cap then emitted (expected f cs) else blocked)
unfolding emit_running_containers
emit_running_containers-cap f cs h = emit_each-expected f cs [] h (omega arith)
