-- ===== src/Server/FileLogger/Examples.antt =====
-- The theorems on the file logger, where a writer keeps what it is given.
use dkll.Base.{
  ℕ, suc, ◌<◌, ◌≡◌, ◌≢◌, refl, none, [], ◌∷◌, ◌++◌, ◌==◌, arith, ==_refl, if◌then◌else◌, Bytes,
  codes, false,
}
use dkll.Core.{Time}
use dkll.Server.FileLogger.{World, FileLogger, new_file_logger}
use dkll.Server.FileLogger.Routing.{IsLog, IsRouted, merged_lines, write_entries}
use dkll.Server.FileLogger.Delivery.{write_entries-IsRouted}
use dkll.Samples.{mongo_entry, nginx_entry, last_error}

abbrev show_t : Time → Bytes
show_t _ = codes "T"

-- The number of writers, and what each has been given.
abbrev Logs : Type 0
Logs = ℕ × (ℕ → Bytes)

abbrev memory : World
memory = record {
  State = Logs;
  Writer = ℕ;
  write = λ w b s. ((s.0, λ v. if v == w then s.1 v ++ b else s.1 v), none);
  factory = λ h c s. ((suc s.0, λ v. if v == s.0 then [] else s.1 v), s.0);
}

eq_false : (v w : ℕ) → w ≢ v → (v == w) ≡ false
eq_false v w h = ground arith

less_ne : (v n : ℕ) → v < n → (v == n) ≡ false
less_ne v n h = ground arith

abbrev memory-IsLog : IsLog memory
memory-IsLog = record {
  Live = λ s v. v < s.0;
  log = λ s v. s.1 v;
  log-write = λ w b s. rw (==_refl w) refl;
  log-write_ne = λ w v b s h. rw (eq_false v w h) refl;
  write-Live = λ w v b s h. h;
  log-factory = λ h c v s l. rw (less_ne v s.0 l) refl;
  factory-Live = λ h c v s l. omega (arith, l);
  made-Live = λ h c s. omega arith;
  made_fresh = λ h c v s l e. omega (arith, l, e);
  log-made = λ h c s. rw (==_refl s.0) refl;
}

-- One writer, the merged one, with nothing given to it.
abbrev empty_logs : Logs
empty_logs = (1, λ v. [])

abbrev logger : FileLogger memory last_error show_t
logger = new_file_logger memory last_error show_t 0

write_entries-IsRouted_example :
    let q =
      write_entries memory last_error show_t memory-IsLog
        (mongo_entry ∷ nginx_entry ∷ mongo_entry ∷ [])
        logger
        empty_logs in
    IsRouted memory last_error show_t memory-IsLog
      (merged_lines memory last_error show_t memory-IsLog
        (mongo_entry ∷ nginx_entry ∷ mongo_entry ∷ []))
      (mongo_entry ∷ nginx_entry ∷ mongo_entry ∷ [])
      q.1
      q.0
write_entries-IsRouted_example =
    write_entries-IsRouted memory last_error show_t memory-IsLog 0 empty_logs
      (mongo_entry ∷ nginx_entry ∷ mongo_entry ∷ []) (omega arith) refl
