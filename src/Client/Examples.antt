-- ===== src/Client/Examples.antt =====
-- The theorems on the pages at a server of two entries, which gives one at a time.
use dkll.Base.{
  ◌≡◌, ◌≢◌, inl, inr, refl, sym, ap, ◌∙◌, true, false, List, [], ◌∷◌, ◌++◌, take, arith, Bytes,
  codes, pos, bytes_eq, if◌then◌else◌,
}
use dkll.Core.{LogEntry, Request, zero_time}
use dkll.Client.{DisplayParams, Terminal, activate_loop, out_all, returned, running}
use dkll.Client.Pages.{IsPaged, shown, activate_loop-shown}
use dkll.Cmd.Client.{ClientOpts, Zones, cli_of, terminal_of, run_client, run_client-tail}
use dkll.Samples.{mongo_entry, nginx_entry}

abbrev plain : DisplayParams
plain = record {
  show_pid = true;
  show_ts = false;
  follow_mode = false;
  tail_mode = false;
  show_syslog = false;
  grep = [];
  un_grep = [];
}

abbrev page_after : Bytes → List LogEntry
page_after id = if bytes_eq id (codes "a1") then nginx_entry ∷ [] else []

abbrev small_server : Terminal
small_server = record {
  World = Unit {0};
  red = λ s. s;
  green = λ s. s;
  yellow = λ s. s;
  white = λ s. s;
  show_time = λ t. codes "T";
  get_last = λ w. (w, inl nginx_entry);
  post_find = λ r w. (w, inl (page_after r.last_id));
  is_cancelled = λ w. (w, false);
  is_canceled_error = λ e. false;
}

not_nil : (pre : List LogEntry) (e : LogEntry) (post : List LogEntry) → [] ≢ pre ++ e ∷ post
not_nil [] e post = λ h. absurd cc
not_nil (x ∷ pre) e post = λ h. absurd cc

page_after-take :
    (pre : List LogEntry) (e : LogEntry) (post : List LogEntry)
    → mongo_entry ∷ nginx_entry ∷ [] ≡ pre ++ e ∷ post
    → page_after e.id ≡ take 1 post
page_after-take [] e post h =
    let p : mongo_entry ≡ e = cc in
    let q : nginx_entry ∷ [] ≡ post = cc in
    ap (λ (x : LogEntry). page_after x.id) (sym p) ∙ ap (take 1) q
page_after-take (x ∷ []) e post h =
    let p : nginx_entry ≡ e = cc in
    let q : [] ≡ post = cc in ap (λ (x : LogEntry). page_after x.id) (sym p) ∙ ap (take 1) q
page_after-take (x ∷ y ∷ pre) e post h = absurd (not_nil pre e post cc)

abbrev from_first : Request
from_first = record {
  last_id = codes "a1";
  limit = pos 1;
  hosts = [];
  containers = [];
  excludes = [];
  from_ts = zero_time;
  to_ts = zero_time;
}

small_server-IsPaged :
    (c : DisplayParams) (base : Request)
    → IsPaged small_server c base (mongo_entry ∷ nginx_entry ∷ []) 0
small_server-IsPaged c base = record {
  pages = λ w pre e post h. ap (λ l. (w, inl l)) (page_after-take pre e post h);
  not_cancelled = λ w. refl;
}

activate_loop-shown_example :
    activate_loop small_server (record plain { follow_mode = true }) 4 from_first tt
    ≡ shown small_server
        (record plain { follow_mode = true })
        running
        from_first
        (codes "a1")
        tt
        (nginx_entry ∷ [])
activate_loop-shown_example =
    activate_loop-shown small_server (record plain { follow_mode = true }) from_first
      (mongo_entry ∷ nginx_entry ∷ []) 0
      (small_server-IsPaged (record plain { follow_mode = true }) from_first) 4 tt [] mongo_entry
      (nginx_entry ∷ []) refl (omega arith)

-- A client in tail mode, at a server whose last entry was the first one when it was asked.
abbrev tailing : ClientOpts
tailing = record {
  containers = [];
  hosts = [];
  excludes = [];
  show_ts = false;
  show_pid = true;
  show_syslog = false;
  follow_mode = false;
  tail_mode = true;
  max_recs = pos 1;
  grep = [];
  un_grep = [];
  time_zone = codes "Local";
}

abbrev one_zone : Zones
one_zone = record {
  Zone = Unit {0};
  load_location = λ s. inr (codes "zone");
  local = tt;
  Out = Unit {0};
  stdout = tt;
  terminal = λ z o. record small_server { get_last = λ w. (w, inl mongo_entry) };
}

run_client-tail_example :
    ((run_client one_zone tailing 2 tt).printed
      ≡ out_all (terminal_of one_zone tailing) (cli_of one_zone tailing).display (nginx_entry ∷ []))
    × ((run_client one_zone tailing 2 tt).ending ≡ returned)
run_client-tail_example =
    run_client-tail one_zone tailing 2 tt (mongo_entry ∷ nginx_entry ∷ []) [] mongo_entry
      (nginx_entry ∷ []) 0
      (record {
        pages = λ w pre e post h. ap (λ l. (w, inl l)) (page_after-take pre e post h);
        not_cancelled = λ w. refl;
      })
      refl refl refl refl (omega arith)
