-- ===== src/Core/Entry.antt =====
-- app/core/logentry.go: `NewEntry` and `parseTime`.
pub mod Branches
pub mod Dated
pub mod Examples
pub mod RoundTrip
use dkll.Base.{
  ℕ, ◌+◌, ◌≡◌, refl, Bool, true, false, ◌&&◌, Option, none, some, List, [], ◌∷◌, ◌++◌, ltb, leb,
  if◌then◌else◌, Bytes, codes, length, take, drop, has_prefix, cut, split, trim_suffix, trim_space,
  ℤ, pos, decimal, atoi,
}
use dkll.Core.{Time, zero_time, LogEntry, empty_entry}
use dkll.Core.Clock.{Civil, Location, parse_stamp}
use dkll.Core.Clock.Rfc3339.{parse_rfc3339, utc}

-- The errors of `NewEntry` and `parseTime`, without the line that their texts quote.
pub data EntryError : Type 0 where
  line_too_short cant_extract_time nothing_after_time no_service no_message : EntryError

-- What `time.Now()` returns when the entry is made, and the year when the time is parsed.
pub record Now : Type 0 where
  pub now : Time
  pub year : ℕ

pub data Timed : Type 0 where
  timed : Time → Bytes → Timed
  untimed : Bytes → EntryError → Timed

module _ (clock : Now) (tz : Location) where
  -- The second try of `parseTime`.
  pub parse_rfc_time : Bytes → Timed
  parse_rfc_time line =
      let parts = cut line b' ' in
      elim (parse_rfc3339 parts.0) [
        | none ↦ untimed line cant_extract_time
        | some ts ↦ if parts.2 then timed ts parts.1 else untimed line nothing_after_time
      ]

  -- `parseTime`; on an error the time is the zero value.
  pub parse_time : Bytes → Timed
  parse_time line =
      if ltb (length line) 16
      then untimed [] line_too_short
      else elim (parse_stamp (decimal clock.year ++ b' ' ∷ take 15 line)) [
        | some civil ↦ timed (tz.instant civil) (drop 16 line)
        | none ↦ parse_rfc_time line
      ]

-- The pid behind `name[`, if it is a number.
pub entry_pid : List Bytes → ℤ
entry_pid (_ ∷ p ∷ _) = elim (atoi (trim_suffix (trim_suffix p (codes ":")) (codes "]"))) [
  | some pid ↦ pid
  | none ↦ pos 0
]
entry_pid _ = pos 0

-- `pidElems[0]`
abbrev pub first_part : List Bytes → Bytes
first_part [] = []
first_part (p ∷ _) = p

-- The container and the pid of `service/container[pid]`.
pub with_service : LogEntry → List Bytes → LogEntry
with_service entry (service ∷ name ∷ _) =
    let parts = split name b'[' in
    if has_prefix service (codes "docker")
    then record entry { container = first_part parts; pid = entry_pid parts }
    else entry
with_service entry _ = entry

-- What `NewEntry` does after the time.
pub parse_rest : LogEntry → Bytes → LogEntry × Option EntryError
parse_rest entry line =
    let parts = cut line b' ' in
    let entry' = record entry { host = parts.0 } in
    let rest = cut parts.1 b' ' in
    if parts.2
    then (if rest.2
        then (record (with_service entry' (split rest.0 b'/')) { msg = trim_space rest.1 }, none)
        else (entry', some no_message))
    else (entry, some no_service)

-- The entry before its host is read.
abbrev pub fresh : Now → Time → LogEntry
fresh clock ts = record empty_entry { container = codes "syslog"; created_ts = clock.now; ts = ts }

module _ (clock : Now) (tz : Location) where
  -- `NewEntry`
  unfoldable pub new_entry : Bytes → LogEntry × Option EntryError
  new_entry line =
      if ltb (length line) 16
      then (empty_entry, some line_too_short)
      else elim (parse_time clock tz line) [
        | timed ts rest ↦ parse_rest (fresh clock ts) rest
        | untimed _ e ↦ (fresh clock zero_time, some e)
      ]

abbrev clock_2019 : Now
clock_2019 = record { now = 7; year = 2019 }

sample :
    new_entry clock_2019 utc (codes "Oct 19 15:29:43 host-1 docker/mongo[888]:  blah blah ") ≡ (
      record {
        id = [];
        host = codes "host-1";
        container = codes "mongo";
        pid = pos 888;
        msg = codes "blah blah";
        ts = utc.instant (record {
          year = 2019;
          month = 10;
          day = 19;
          hour = 15;
          minute = 29;
          second = 43;
          nanos = 0;
        });
        created_ts = 7;
      },
      none,
    )
unfolding new_entry parse_time parse_rfc_time parse_rest with_service entry_pid parse_stamp
    parse_rfc3339 cut split trim_space trim_suffix has_prefix decimal atoi
sample = refl

truncated : (new_entry clock_2019 utc (codes "Oct 19 15:29:43 ")).1 ≡ some no_service
unfolding new_entry parse_time parse_rfc_time parse_rest with_service entry_pid parse_stamp
    parse_rfc3339 cut split trim_space trim_suffix has_prefix decimal atoi
truncated = refl

truncated_host :
    (new_entry clock_2019 utc (codes "2017-05-30T16:13:35-04:00 host-1")).1 ≡ some no_service
unfolding new_entry parse_time parse_rfc_time parse_rest with_service entry_pid parse_stamp
    parse_rfc3339 cut split trim_space trim_suffix has_prefix decimal atoi
truncated_host = refl

bad_time :
    (new_entry clock_2019 utc (codes "Oct 19 95:29:43 sniper docker/mongo[888]: x")).1
    ≡ some cant_extract_time
unfolding new_entry parse_time parse_rfc_time parse_rest with_service entry_pid parse_stamp
    parse_rfc3339 cut split trim_space trim_suffix has_prefix decimal atoi
bad_time = refl
