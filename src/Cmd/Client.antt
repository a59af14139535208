-- ===== src/Cmd/Client.antt =====
-- app/cmd/client.go: the client, from its options.
use dkll.Base.{
  ℕ, ◌≡◌, ◌<◌, ◌⊎◌, inl, inr, ap, Bool, true, false, not, none, some, List, [], ◌∷◌, ◌++◌,
  if◌then◌else◌, Bytes, codes, bytes_eq, ℤ, length,
}
use dkll.Errors.{Error}
use dkll.Core.{LogEntry, Request, zero_time}
use dkll.Client.{DisplayParams, Cli, new_cli, Terminal, returned, Run, activate, out_all}
use dkll.Client.Pages.{IsPaged, activate-tail}

-- `ClientOpts`, without the address of the server.
pub record ClientOpts : Type 0 where
  pub containers : List Bytes
  pub hosts : List Bytes
  pub excludes : List Bytes
  pub show_ts : Bool
  pub show_pid : Bool
  pub show_syslog : Bool
  pub follow_mode : Bool
  pub tail_mode : Bool
  pub max_recs : ℤ
  pub grep : List Bytes
  pub un_grep : List Bytes
  pub time_zone : Bytes

-- The request and the display parameters of `Run`.
unfoldable pub request_of : ClientOpts → Request
request_of c = record {
  limit = c.max_recs;
  containers = c.containers;
  hosts = c.hosts;
  excludes = c.excludes;
  last_id = [];
  from_ts = zero_time;
  to_ts = zero_time;
}

unfoldable pub display_of : ClientOpts → DisplayParams
display_of c = record {
  show_pid = c.show_pid;
  show_ts = c.show_ts;
  follow_mode = c.follow_mode;
  tail_mode = c.tail_mode;
  show_syslog = c.show_syslog;
  grep = c.grep;
  un_grep = c.un_grep;
}

-- The zones of time: `time.LoadLocation` and `time.Local`, `os.Stdout`, and the terminal that prints with a
-- zone to a stream.
pub record Zones : Type 1 where
  pub Zone : Type 0
  pub load_location : Bytes → Zone ⊎ Error
  pub local : Zone
  pub Out : Type 0
  pub stdout : Out
  pub terminal : Zone → Out → Terminal

module _ (zones : Zones) where
  open zones use {Zone, load_location, local, Out, stdout, terminal}

  -- `tz`
  unfoldable pub tz : ClientOpts → Zone
  tz c =
      if not (bytes_eq c.time_zone (codes "Local"))
      then elim (load_location c.time_zone) [ inl z ↦ z | inr e ↦ local ]
      else local

  -- The client that `Run` makes, and its terminal.
  unfoldable pub cli_of : ClientOpts → Cli Zone Out
  unfolding tz display_of new_cli
  cli_of c =
      new_cli local stdout (record { display = display_of c; time_zone = some (tz c); out = none })

  abbrev pub terminal_of : ClientOpts → Terminal
  terminal_of c = terminal (cli_of c).time_zone (cli_of c).out

  -- `ClientCmd.Run`, for a number of turns of the loop.
  unfoldable pub run_client :
      (c : ClientOpts) (turns : ℕ) → (terminal_of c).World → Run (terminal_of c) (cli_of c).display
  unfolding cli_of request_of
  run_client c turns w = activate (terminal_of c) (cli_of c).display turns (request_of c) w

  -- With the tail mode and not the follow mode, at a server that has these entries and gives them in
  -- pages, and where the client is not interrupted: `Run` prints what it shows of the entries that came
  -- after the one that was last when it asked, once and in order, and returns no error.
  pub run_client-tail :
      (c : ClientOpts) (turns : ℕ) (w : (terminal_of c).World) (all pre : List LogEntry)
      (e : LogEntry) (post : List LogEntry) (n : ℕ)
      → IsPaged (terminal_of c) (cli_of c).display (request_of c) all n
      → c.follow_mode ≡ false
      → c.tail_mode ≡ true
      → (terminal_of c).get_last w ≡ (w, inl e)
      → all ≡ pre ++ e ∷ post
      → length post < turns
      → ((run_client c turns w).printed ≡ out_all (terminal_of c) (cli_of c).display post)
        × ((run_client c turns w).ending ≡ returned)
  unfolding run_client
  run_client-tail c turns w all pre e post n paged follow tail g h b =
      let run =
        activate-tail (terminal_of c) (cli_of c).display (request_of c) all n paged follow turns w
          pre e post tail g h b in
      (
        ap (λ (r : Run (terminal_of c) (cli_of c).display). r.printed) run,
        ap (λ (r : Run (terminal_of c) (cli_of c).display). r.ending) run,
      )
