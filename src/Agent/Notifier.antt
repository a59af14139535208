-- ===== src/Agent/Notifier.antt =====
-- app/agent/docker_notif.go: which containers' events are passed on.
pub mod Passed
use dkll.Base.{
  ℕ, zero, suc, ◌+◌, ◌*◌, ◌/◌, ◌^◌, ◌≡◌, ◌⊎◌, inl, inr, refl, Bool, true, false, not, ◌&&◌, ◌||◌,
  Option, none, some, List, [], ◌∷◌, ◌++◌, ◌==◌, leb, if◌then◌else◌, Bytes, codes, bytes_eq, length,
  trim_prefix,
}
use dkll.Core.{Time, zero_time}
use dkll.Errors.{Error}
use dkll.Agent.{Event}

-- `contains`, which is `slices.Contains`.
pub contains : Bytes → List Bytes → Bool
contains e [] = false
contains e (s ∷ ss) = bytes_eq s e || contains e ss

-- The filters of an `EventNotifier`.
pub record Filters : Type 0 where
  pub excludes : List Bytes
  pub includes : List Bytes

-- `isAllowed`
unfoldable pub is_allowed : Filters → Bytes → Bool
unfolding contains
is_allowed f container_name =
    if not (length f.includes == 0)
    then contains container_name f.includes
    else not (contains container_name f.excludes)

-- What `(.*?)/` takes of a text: the bytes before the next slash, if no new line is among them.
pub before_slash : Bytes → Option Bytes
before_slash [] = none
before_slash (c ∷ cs) =
    let rest = before_slash cs in
    if c == 47
    then some []
    else (if c == 10 then none else elim rest [ none ↦ none | some g ↦ some (c ∷ g) ])

-- `group`: the first match of the expression `/(.*?)/` in an image.
pub group : Bytes → Bytes
unfolding before_slash
group [] = []
group (c ∷ cs) =
    let rest = group cs in
    if c == 47 then elim (before_slash cs) [ none ↦ rest | some g ↦ g ] else rest

-- time.Unix; the year 1970 began 719528 days after the year 0 did, which has the day 2 here.
unfoldable pub unix : ℕ → ℕ → Time
unix seconds nanoseconds = (2 + 719528) * 86400 * 10 ^ 9 + seconds * 10 ^ 9 + nanoseconds

-- `docker.APIEvents`, as far as it is read; a missing name reads as an empty one.
pub record ApiEvent : Type 0 where
  pub kind : Bytes
  pub status : Bytes
  pub actor_id : Bytes
  pub name : Bytes
  pub image : Bytes
  pub time : ℕ
  pub time_nano : ℕ

abbrev pub up_statuses : List Bytes
up_statuses = codes "start" ∷ codes "restart" ∷ []

abbrev pub down_statuses : List Bytes
down_statuses = codes "die" ∷ codes "destroy" ∷ codes "stop" ∷ codes "pause" ∷ []

-- The body of the loop of `activate`: the event that is passed on, if any.
unfoldable pub on_api_event : Filters → ApiEvent → Option Event
unfolding contains is_allowed group unix
on_api_event f e =
    let container_name = trim_prefix e.name (codes "/") in
    if not (bytes_eq e.kind (codes "container"))
    then none
    else (if not (contains e.status up_statuses) && not (contains e.status down_statuses)
        then none
        else (if not (is_allowed f container_name)
            then none
            else some (record {
              container_id = e.actor_id;
              container_name = container_name;
              status = contains e.status up_statuses;
              ts = unix (e.time / 1000) e.time_nano;
              group = group e.image;
            })))

-- `docker.APIContainers`, as far as it is read.
pub record ApiContainer : Type 0 where
  pub id : Bytes
  pub names : List Bytes
  pub image : Bytes
  pub created : ℕ

-- How the list of the running containers is dealt with: `c.Names[0]` of no names panics, and a send to
-- a full channel that nothing reads yet never ends. `emitted` has the channel's contents.
pub data Emitted : Type 0 where
  emitted : List Event → Emitted
  cannot_list : Error → Emitted
  panicked : Emitted
  blocked : Emitted

-- The capacity of the channel.
abbrev pub events_cap : ℕ
events_cap = 100

-- The started event of a running container with that first name.
unfoldable pub running_event : ApiContainer → Bytes → Event
unfolding group unix
running_event c name = record {
  status = true;
  container_name = trim_prefix name (codes "/");
  container_id = c.id;
  ts = unix (c.created / 1000) 0;
  group = group c.image;
}

pub and_then : Emitted → (List Event → Emitted) → Emitted
and_then (emitted ch) k = k ch
and_then (cannot_list e) k = cannot_list e
and_then panicked k = panicked
and_then blocked k = blocked

-- One container of those names, with what the channel holds.
pub emit_one : Filters → ApiContainer → List Bytes → List Event → Emitted
unfolding is_allowed running_event
emit_one f c [] ch = panicked
emit_one f c (name ∷ names) ch =
    if not (is_allowed f (trim_prefix name (codes "/")))
    then emitted ch
    else (if leb events_cap (length ch) then blocked else emitted (ch ++ running_event c name ∷ []))

-- The loop of `emitRunningContainers`.
pub emit_each : Filters → List ApiContainer → List Event → Emitted
unfolding emit_one and_then
emit_each f [] ch = emitted ch
emit_each f (c ∷ cs) ch = and_then (emit_one f c c.names ch) (λ ch'. emit_each f cs ch')

-- `emitRunningContainers`, from the result of `ListContainers`.
unfoldable pub emit_running_containers : Filters → List ApiContainer ⊎ Error → Emitted
unfolding emit_each
emit_running_containers f (inr e) = cannot_list e
emit_running_containers f (inl cs) = emit_each f cs []
