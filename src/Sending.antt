-- ===== src/Sending.antt =====
-- The way of a container's line from the agent to the server: the writer of syslog that the agent dials,
-- the parser of the syslog server and `NewEntry`.
pub mod Examples
use dkll.Base.{
  Bool, true, false, if◌then◌else◌, has_suffix, ltb, length, Bool-cases, ℕ, ◌+◌, ◌^◌, ◌≤◌, ◌<◌, ◌≡◌,
  ◌⊎◌, inl, inr, ap, ◌∙◌, refl, none, some, List, [], ◌∷◌, ◌++◌, arith, Bytes, codes, Lacks,
  decimal, decimal-IsDigit, pos, trim_space,
}
use dkll.Core.{LogEntry}
use dkll.Core.Clock.{Civil, Location}
use dkll.Core.Clock.RoundTrip.{IsStamp}
use dkll.Core.Clock.Rfc3339.{instant_in}
use dkll.Core.Clock.Rfc3339.Printed.{Offset, zone_of, IsOffset, rfc3339}
use dkll.Core.Entry.{Now, new_entry, parse_rest, fresh}
use dkll.Core.Entry.Dated.{new_entry-rfc3339}
use dkll.Core.Entry.RoundTrip.{
  fields, docker_service, digits-Lacks, parse_rest-fields, with_service-docker,
  docker_service-Lacks,
}
use dkll.Server.Syslog.{dump, tagged, dump-tagged}
use dkll.Cmd.Agent.{AgentOpts, syslog_tag}

-- A text that ends with the end of a line, which is added if it is not there.
abbrev pub with_newline : Bytes → Bytes
with_newline text = if has_suffix text (codes "\n") then text else text ++ b'\n' ∷ []

-- A text without the control characters and NULs at its end.
pub trim_control : Bytes → Bytes
trim_control [] = []
trim_control (c ∷ s) =
    let rest = trim_control s in
    elim rest [ [] ↦ if ltb c 32 then [] else c ∷ [] | d ∷ u ↦ c ∷ d ∷ u ]

-- What a writer of the package `gsyslog` sends over UDP, which is the agent's default: of a priority, the
-- time and its zone, the name of the host, the tag, the number of the process and the text. And what the
-- server of the package `go-syslog` hands to the parser of a datagram.
pub record Wire : Type 0 where
  pub message : ℕ → Civil → Offset → Bytes → Bytes → ℕ → Bytes → Bytes
  pub received : Bytes → Bytes

-- The documented format, `<PRI>TIMESTAMP HOSTNAME TAG[PID]: MSG` with a time in the layout RFC3339 and
-- the end of a line; and the control characters at the end of a datagram, which are ignored. A datagram
-- has 65507 bytes at most.
pub record IsWire (wire : Wire) : Type 0 where
  pub format :
      (priority : ℕ) (c : Civil) (z : Offset) (host tag : Bytes) (pid : ℕ) (text : Bytes)
      → wire.message priority c z host tag pid text
        ≡ tagged (decimal priority) (
            rfc3339 c z
            ++ b' ' ∷ fields host (tag ++ b'[' ∷ (decimal pid ++ codes "]:")) (with_newline text))
  pub receives : (s : Bytes) → length s ≤ 65507 → wire.received s ≡ trim_control s

is_nil : Bytes → Bool
is_nil [] = true
is_nil (c ∷ s) = false

-- A text that loses what is trimmed, and keeps something.
abbrev Keeps : Bytes → Bytes → Type 0
Keeps s t = (trim_control s ≡ t) × (is_nil t ≡ false)

cons-Keeps : (c : ℕ) (s t : Bytes) → Keeps s t → Keeps (c ∷ s) (c ∷ t)
unfolding trim_control is_nil
cons-Keeps c s [] (h, k) = absurd cc
cons-Keeps c s (d ∷ t) (h, k) = (rw h refl, refl)

append-Keeps : (r s t : Bytes) → Keeps s t → Keeps (r ++ s) (r ++ t)
append-Keeps [] s t h = h
append-Keeps (c ∷ r) s t h = cons-Keeps c (r ++ s) (r ++ t) (append-Keeps r s t h)

space-Keeps : (s : Bytes) → Keeps (b' ' ∷ s) (b' ' ∷ trim_control s)
unfolding trim_control is_nil
space-Keeps s = (spaced (trim_control s), refl)
  where
    spaced :
        (t : Bytes)
        → (elim t as (λ x. Bytes) [
          | [] ↦ if ltb b' ' 32 then [] else b' ' ∷ []
          | d ∷ u ↦ b' ' ∷ d ∷ u
        ])
          ≡ b' ' ∷ t
    spaced [] = refl
    spaced (d ∷ u) = refl

trim_control-newline : (text : Bytes) → trim_control (text ++ b'\n' ∷ []) ≡ trim_control text
unfolding trim_control
trim_control-newline [] = refl
trim_control-newline (c ∷ text) = rw (trim_control-newline text) refl

trim_control-with_newline : (text : Bytes) → trim_control (with_newline text) ≡ trim_control text
trim_control-with_newline text = elim (Bool-cases (has_suffix text (codes "\n"))) [
  | inl e ↦ rw (e, with_newline) refl
  | inr e ↦ rw (e, with_newline) (trim_control-newline text)
]

-- A message loses the end of its text only.
trim_control-tagged :
    (id head host service text : Bytes)
    → trim_control (tagged id (head ++ b' ' ∷ fields host service (with_newline text)))
      ≡ tagged id (head ++ b' ' ∷ fields host service (trim_control text))
trim_control-tagged id head host service text =
    let ends = space-Keeps (with_newline text) in
    let fields_kept = append-Keeps host _ _ (cons-Keeps b' ' _ _ (append-Keeps service _ _ ends)) in
    let line = append-Keeps head _ _ (cons-Keeps b' ' _ _ fields_kept) in
    (cons-Keeps b'<' _ _ (append-Keeps id _ _ (cons-Keeps b'>' _ _ line))).0
    ∙ ap (λ t. tagged id (head ++ b' ' ∷ fields host service t)) (trim_control-with_newline text)

module _ (wire : Wire) (is_wire : IsWire wire) where
  dump-received :
      (priority : ℕ) (c : Civil) (z : Offset) (host tag : Bytes) (pid : ℕ) (text : Bytes)
      → length (wire.message priority c z host tag pid text) ≤ 65507
      → dump (wire.received (wire.message priority c z host tag pid text))
        ≡ rfc3339 c z
          ++ b' ' ∷ fields host (tag ++ b'[' ∷ (decimal pid ++ codes "]:")) (trim_control text)
  dump-received priority c z host tag pid text fits =
      let lacks =
        digits-Lacks b'>' (decimal priority) (inr (omega arith)) (decimal-IsDigit priority) in
      ap dump (
        is_wire.receives _ fits
        ∙ ap trim_control (is_wire.format priority c z host tag pid text)
        ∙ trim_control-tagged (decimal priority) (rfc3339 c z) host _ text)
      ∙ dump-tagged (decimal priority) _ lacks

  tag-docker :
      (o : AgentOpts) (name : Bytes) (pid : ℕ)
      → o.syslog_prefix ≡ codes "docker/"
      → syslog_tag o name ++ b'[' ∷ (decimal pid ++ codes "]:") ≡ docker_service name pid
  unfolding syslog_tag
  tag-docker o name pid h = rw h refl

  -- For writers of syslog that send the documented format in a datagram of at most 65507 bytes, the prefix
  -- `docker/`, any priority and any zone of the server: a text that the agent writes for a container at a
  -- time of whole seconds, between the years 1000 and 9999, in a zone of hours up to 24 and minutes, is
  -- received as a line of which the server, in a year of four digits, makes an entry without an error,
  -- where the name of the host lacks a space, that of the container a space, `/` and `[`, and the number
  -- of the process is below 2 ^ 63. The entry has no id, this host, container and number, the instant of
  -- the agent's time in the agent's zone, the text without control characters at its end and then white
  -- space around it, and the present time as its creation.
  pub new_entry-message :
      (o : AgentOpts) (clock : Now) (tz : Location) (c : Civil) (z : Offset) (priority pid : ℕ)
      (host name text : Bytes)
      → o.syslog_prefix ≡ codes "docker/"
      → IsStamp c
      → IsOffset z
      → 1000 ≤ clock.year
      → clock.year < 10000
      → Lacks b' ' host
      → Lacks b' ' name
      → Lacks b'/' name
      → Lacks b'[' name
      → pid < 2 ^ 63
      → length (wire.message priority c z host (syslog_tag o name) pid text) ≤ 65507
      → new_entry clock tz
          (dump (wire.received (wire.message priority c z host (syslog_tag o name) pid text)))
        ≡ (
          record {
            id = [];
            host = host;
            container = name;
            pid = pos pid;
            msg = trim_space (trim_control text);
            ts = instant_in (zone_of z) c;
            created_ts = clock.now;
          },
          none,
        )
  new_entry-message o clock tz c z priority pid host name text prefix v q low high h1 h2 h3 h4 h5
        fits =
      ap (new_entry clock tz) (
        dump-received priority c z host (syslog_tag o name) pid text fits
        ∙ ap (λ s. rfc3339 c z ++ b' ' ∷ fields host s (trim_control text))
            (tag-docker o name pid prefix))
      ∙ new_entry-rfc3339 clock tz c z v q low high _
      ∙ parse_rest-fields _ host (docker_service name pid) (trim_control text) h1
          (docker_service-Lacks name pid h2)
      ∙ ap (λ (e : LogEntry). (record e { msg = trim_space (trim_control text) }, none))
          (with_service-docker _ name pid h3 h4 h5)
