-- ===== src/Core.antt =====
-- app/core: a log entry, and a request for entries.
pub mod Clock
pub mod Entry
pub mod Show
use dkll.Base.{ℕ, ◌*◌, ◌+◌, ◌^◌, Bool, List, [], ◌==◌, Bytes, ℤ, pos}

-- A Go `time.Time`, as the nanoseconds since two days before the year 0 began, in UTC.
abbrev pub Time : Type 0
Time = ℕ

-- The zero value of `time.Time`, the beginning of the year 1; the year 0 has 366 days.
abbrev pub zero_time : Time
zero_time = 368 * 86400 * 10 ^ 9

-- t.IsZero()
abbrev pub is_zero : Time → Bool
is_zero t = t == zero_time

pub record LogEntry : Type 0 where
  pub id : Bytes
  pub host : Bytes
  pub container : Bytes
  pub pid : ℤ
  pub msg : Bytes
  pub ts : Time
  pub created_ts : Time

-- LogEntry{}
abbrev pub empty_entry : LogEntry
empty_entry = record {
  id = [];
  host = [];
  container = [];
  pid = pos 0;
  msg = [];
  ts = zero_time;
  created_ts = zero_time;
}

pub record Request : Type 0 where
  pub last_id : Bytes
  pub limit : ℤ
  pub hosts : List Bytes
  pub containers : List Bytes
  pub excludes : List Bytes
  pub from_ts : Time
  pub to_ts : Time
