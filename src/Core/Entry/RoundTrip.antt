-- ===== src/Core/Entry/RoundTrip.antt =====
-- Lines in the format of syslog, printed from their parts, and the entries that `NewEntry` makes of them.
use dkll.Base.{
  ◌⊎◌, ℕ, ◌^◌, ◌<◌, ◌≡◌, ◌≢◌, ap, ◌∙◌, refl, sym, false, none, some, List, [], ◌∷◌, ◌++◌, arith,
  ltb, Bytes, codes, Lacks, All, length, length-append, take-append, drop-append, cut_at_sep,
  split_at_sep, split-Lacks, trim_suffix, trim_suffix-append, has_prefix-append, inl, inr, decimal,
  decimal-IsDigit, IsDigit, atoi-decimal, pos, split, trim_space, append_assoc, has_prefix,
  All-append,
}
use dkll.Core.{LogEntry}
use dkll.Core.Clock.{Civil, Location, parse_stamp}
use dkll.Core.Clock.RoundTrip.{stamp, IsStamp, parse_stamp-stamp, length-stamp}
use dkll.Core.Entry.{
  Now, new_entry, parse_time, parse_rest, with_service, entry_pid, timed, first_part, fresh,
}

module _ (clock : Now) (tz : Location) (c : Civil) (v : IsStamp c)
    (this_year : clock.year ≡ c.year) where
  long_enough : (b : ℕ) (rest : Bytes) → ltb (length (stamp c ++ b ∷ rest)) 16 ≡ false
  long_enough b rest = ground (arith, length-append {0} (stamp c) (b ∷ rest), length-stamp c v)

  stamp_of_year : parse_stamp (decimal clock.year ++ b' ' ∷ stamp c) ≡ some c
  stamp_of_year =
      ap (λ y. parse_stamp (decimal y ++ b' ' ∷ stamp c)) this_year ∙ parse_stamp-stamp c v

  parse_time-stamp :
      (b : ℕ) (rest : Bytes) → parse_time clock tz (stamp c ++ b ∷ rest) ≡ timed (tz.instant c) rest
  unfolding parse_time
  parse_time-stamp b rest = rw (
    long_enough b rest,
    take-append 15 (stamp c) (b ∷ rest) (length-stamp c v),
    stamp_of_year,
    drop-append 15 (stamp c) rest b (length-stamp c v),
  )

  -- A line that begins with a stamp of this year is read behind it, whatever byte stands between.
  new_entry-stamp :
      (b : ℕ) (rest : Bytes)
      → new_entry clock tz (stamp c ++ b ∷ rest) ≡ parse_rest (fresh clock (tz.instant c)) rest
  unfolding new_entry
  new_entry-stamp b rest = rw (long_enough b rest, parse_time-stamp b rest)

-- The text `host service msg`.
abbrev pub fields : Bytes → Bytes → Bytes → Bytes
fields host service msg = host ++ b' ' ∷ (service ++ b' ' ∷ msg)

pub parse_rest-fields :
    (e : LogEntry) (host service msg : Bytes)
    → Lacks b' ' host
    → Lacks b' ' service
    → parse_rest e (fields host service msg) ≡ (
      record (with_service (record e { host = host }) (split service b'/')) {
        msg = trim_space msg;
      },
      none,
    )
unfolding parse_rest
parse_rest-fields e host service msg h k =
    rw (cut_at_sep host (service ++ b' ' ∷ msg) b' ' h, cut_at_sep service msg b' ' k)

-- `docker/name[pid]:`
abbrev pub docker_service : Bytes → ℕ → Bytes
docker_service name pid = codes "docker" ++ b'/' ∷ (name ++ b'[' ∷ (decimal pid ++ codes "]:"))

pub digits-Lacks : (b : ℕ) (s : Bytes) → (b < b'0') ⊎ (b'9' < b) → All IsDigit s → Lacks b s
digits-Lacks b [] h _ = tt
digits-Lacks b (c ∷ s) h (hc, hs) = (ground arith, digits-Lacks b s h hs)

-- A name and a pid with the marks around them lack a byte that none of them has.
pid_text-Lacks :
    (b : ℕ) (pid : ℕ)
    → (b < b'0') ⊎ (b'9' < b)
    → b ≢ b']'
    → b ≢ b':'
    → Lacks b (decimal pid ++ codes "]:")
pid_text-Lacks b pid h hb hc =
    All-append _ (decimal pid) (codes "]:") (digits-Lacks b (decimal pid) h (decimal-IsDigit pid))
      (ground arith)

abbrev pid_text : ℕ → Bytes
pid_text pid = decimal pid ++ codes "]:"

trimmed_pid :
    (pid : ℕ) → trim_suffix (trim_suffix (pid_text pid) (codes ":")) (codes "]") ≡ decimal pid
trimmed_pid pid =
    ap (λ s. trim_suffix (trim_suffix s (codes ":")) (codes "]"))
      (sym (append_assoc (decimal pid) (codes "]") (codes ":")))
    ∙ ap (λ s. trim_suffix s (codes "]"))
        (trim_suffix-append (decimal pid ++ codes "]") (codes ":"))
    ∙ trim_suffix-append (decimal pid) (codes "]")

entry_pid-decimal :
    (name : Bytes) (pid : ℕ) → pid < 2 ^ 63 → entry_pid (name ∷ pid_text pid ∷ []) ≡ pos pid
unfolding entry_pid
entry_pid-decimal name pid h = rw (trimmed_pid pid, atoi-decimal pid h, entry_pid)

split-docker_service :
    (name : Bytes) (pid : ℕ)
    → Lacks b'/' name
    → split (docker_service name pid) b'/' ≡ codes "docker" ∷ (name ++ b'[' ∷ pid_text pid) ∷ []
split-docker_service name pid h =
    split_at_sep (codes "docker") (name ++ b'[' ∷ pid_text pid) b'/' (omega arith)
    ∙ ap (λ t. codes "docker" ∷ t)
        (split-Lacks (name ++ b'[' ∷ pid_text pid) b'/' (
          All-append _ name (b'[' ∷ pid_text pid) h
            (omega arith, pid_text-Lacks b'/' pid (inl (omega arith)) (omega arith) (omega arith))))

split-pid_text :
    (name : Bytes) (pid : ℕ)
    → Lacks b'[' name
    → split (name ++ b'[' ∷ pid_text pid) b'[' ≡ name ∷ pid_text pid ∷ []
split-pid_text name pid h =
    split_at_sep name (pid_text pid) b'[' h
    ∙ ap (λ t. name ∷ t)
        (split-Lacks (pid_text pid) b'['
          (pid_text-Lacks b'[' pid (inr (omega arith)) (omega arith) (omega arith)))

pub with_service-docker :
    (e : LogEntry) (name : Bytes) (pid : ℕ)
    → Lacks b'/' name
    → Lacks b'[' name
    → pid < 2 ^ 63
    → with_service e (split (docker_service name pid) b'/')
      ≡ record e { container = name; pid = pos pid }
unfolding with_service
with_service-docker e name pid slash bracket h = rw (
  split-docker_service name pid slash,
  split-pid_text name pid bracket,
  has_prefix-append (codes "docker") [],
  entry_pid-decimal name pid h,
)

with_service-other :
    (e : LogEntry) (parts : List Bytes)
    → has_prefix (first_part parts) (codes "docker") ≡ false
    → with_service e parts ≡ e
unfolding with_service
with_service-other e [] h = refl
with_service-other e (s ∷ []) h = refl
with_service-other e (s ∷ n ∷ r) h = rw h

with_service-plain :
    (e : LogEntry) (service : Bytes)
    → (has_prefix (first_part (split service b'/')) (codes "docker") ≡ false) ⊎ Lacks b'/' service
    → with_service e (split service b'/') ≡ e
with_service-plain e service (inl h) = with_service-other e (split service b'/') h
with_service-plain e service (inr h) = rw (split-Lacks service b'/' h) (unfold with_service in refl)

pub docker_service-Lacks :
    (name : Bytes) (pid : ℕ) → Lacks b' ' name → Lacks b' ' (docker_service name pid)
docker_service-Lacks name pid h =
    All-append _ (codes "docker/") (name ++ b'[' ∷ pid_text pid) (omega arith) (
      All-append _ name (b'[' ∷ pid_text pid) h
        (omega arith, pid_text-Lacks b' ' pid (inl (omega arith)) (omega arith) (omega arith)))

module _ (clock : Now) (tz : Location) (c : Civil) (v : IsStamp c)
    (this_year : clock.year ≡ c.year) where
  -- A line of this year of the form `stamp`, one byte, `host docker/name[pid]: msg`, where the host
  -- lacks a space, the name lacks a space, `/` and `[`, and the pid is below 2 ^ 63, gives, without
  -- an error, the entry of the host, the name, the pid, the instant of the stamp in the location and
  -- the message without white space around it, with no id and the present time as its creation.
  pub new_entry-docker_line :
      (b : ℕ) (host name msg : Bytes) (pid : ℕ)
      → Lacks b' ' host
      → Lacks b' ' name
      → Lacks b'/' name
      → Lacks b'[' name
      → pid < 2 ^ 63
      → new_entry clock tz (stamp c ++ b ∷ fields host (docker_service name pid) msg) ≡ (
        record {
          id = [];
          host = host;
          container = name;
          pid = pos pid;
          msg = trim_space msg;
          ts = tz.instant c;
          created_ts = clock.now;
        },
        none,
      )
  new_entry-docker_line b host name msg pid h1 h2 h3 h4 h5 =
      new_entry-stamp clock tz c v this_year b _
      ∙ parse_rest-fields _ host (docker_service name pid) msg h1 (docker_service-Lacks name pid h2)
      ∙ ap (λ (e : LogEntry). (record e { msg = trim_space msg }, none))
          (with_service-docker _ name pid h3 h4 h5)

  -- A line of this year whose host and service lack a space, and whose service has no `/` or does
  -- not begin with `docker` before its first `/`, gives, without an error, the entry of its host and
  -- trimmed message, of container `syslog` and pid 0.
  pub new_entry-syslog_line :
      (b : ℕ) (host service msg : Bytes)
      → Lacks b' ' host
      → Lacks b' ' service
      → (has_prefix (first_part (split service b'/')) (codes "docker") ≡ false) ⊎ Lacks b'/' service
      → new_entry clock tz (stamp c ++ b ∷ fields host service msg) ≡ (
        record {
          id = [];
          host = host;
          container = codes "syslog";
          pid = pos 0;
          msg = trim_space msg;
          ts = tz.instant c;
          created_ts = clock.now;
        },
        none,
      )
  new_entry-syslog_line b host service msg h1 h2 h3 =
      new_entry-stamp clock tz c v this_year b _
      ∙ parse_rest-fields _ host service msg h1 h2
      ∙ ap (λ (e : LogEntry). (record e { msg = trim_space msg }, none))
          (with_service-plain _ service h3)
