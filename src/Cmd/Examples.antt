-- ===== src/Cmd/Examples.antt =====
-- The theorems on the server's command and on `main` at small inputs.
use dkll.Base.{
  ℕ, suc, ◌≡◌, ◌↔◌, inl, refl, true, false, Option, none, some, List, [], ◌∷◌, ◌++◌, arith, Bytes,
  codes, bytes_eq, pos,
}
use dkll.Base.FilePath.{spell}
use dkll.Base.FilePath.Joined.{IsPlain, place}
use dkll.Errors.{Error}
use dkll.Cmd.Server.{ServerOpts, LogLimit, Services, file_name, make_writers, run_server}
use dkll.Cmd.Server.Names.{file_name-place, file_name_unique}
use dkll.Cmd.Server.Started.{usable, merged_made, run_server-usable}
use dkll.Server.Mongo.Init.{Collections}
use dkll.Main.{Parsed}

-- A server that keeps its files in /var/log.
abbrev limits : LogLimit
limits = record { max_size = pos 100; max_backups = pos 10; max_age = pos 30 }

abbrev server_opts : ServerOpts
server_opts = record {
  port = pos 8080;
  syslog_port = pos 5514;
  mongo_url = codes "mongodb://m";
  mongo_max_size = 0;
  mongo_max_docs = 5;
  file_backup_location = codes "/var/log";
  enable_merged = true;
  container_limits = limits;
  merged_limits = limits;
}

abbrev no_collections : Collections
no_collections = record {
  World = ℕ;
  Client = Unit {0};
  create_collection = λ c p w. (suc w, some (codes "dkll already exists"));
  create_indexes = λ c p w. (suc w, none);
}

-- Services whose forwarder ends with an error.
abbrev services : Services
services = record {
  collections = no_collections;
  mkdir_all = λ d w. (suc w, none);
  connect = λ u w. (suc w, inl (tt, some (codes "db"), some (codes "logs")));
  serve_rest = λ p l s w. suc w;
  forward = λ p s f m w. (suc w, some (codes "can't listen"));
}

run_server-usable_example : ((run_server server_opts services 0).1 ≡ none) ↔ (
    (merged_made server_opts services 0 ≡ true)
    × (bytes_eq server_opts.mongo_url [] ≡ false)
    × (usable server_opts services
          (services.connect server_opts.mongo_url (make_writers server_opts services 0).0)
        ≡ true))
run_server-usable_example = run_server-usable server_opts services 0

IsPlain-name : IsPlain (codes "log")
IsPlain-name = (
  λ h. absurd cc,
  λ h. absurd cc,
  λ h. absurd cc,
  (omega arith, (omega arith, (omega arith, tt))),
)

file_name-place_example :
    file_name (spell true (codes "log" ∷ [])) (codes "..") (codes "m")
    ≡ spell true (place (codes "log" ∷ []) (codes "..") ++ (codes "m" ++ codes ".log") ∷ [])
file_name-place_example =
    file_name-place true (codes "log") [] (codes "..") (codes "m") (IsPlain-name, tt)
      (omega arith, (omega arith, tt)) (omega arith, tt)

file_name_unique_example : (codes "log" ≡ codes "log") × (codes "m" ≡ codes "m")
file_name_unique_example =
    file_name_unique true (codes "log") [] (codes "log") (codes "log") (codes "m") (codes "m")
      (IsPlain-name, tt) IsPlain-name IsPlain-name (omega arith, tt) (omega arith, tt) refl

abbrev parsed : Parsed
parsed = record { help = false; version = false; active = some (codes "agent") }

abbrev commands : List (Bytes × (ℕ → ℕ × Option Error))
commands = (codes "server", λ w. (w, none)) ∷ []

abbrev agent : ℕ → ℕ × Option Error
agent w = (suc w, some (codes "no docker"))
