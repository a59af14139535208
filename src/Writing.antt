-- ===== src/Writing.antt =====
-- The forwarder over the store: what the collection holds of the lines that the server accepted.
pub mod Stored
pub mod Examples
use dkll.Base.{Option, none, some, List, codes}
use dkll.Core.{LogEntry}
use dkll.Errors.{Error}
use dkll.Server.Mongo.{Driver}
use dkll.Server.Mongo.Store.{Database, Outcome, done, failed, panicked, Mongo, publish}
use dkll.Server.Forwarder.{Sinks}

-- The error of `Publish`, as the forwarder sees it.
abbrev pub outcome_error {ℓ} : {A : Type ℓ} → Outcome A → Option Error
outcome_error (done a) = none
outcome_error (failed e) = some e
outcome_error panicked = some (codes "panic")

module _ (d : Driver) (db : Database d) (Files : Type 0)
    (write : LogEntry → Files → Files × Option Error) where
  -- The sinks of the server's command: the publisher is the store.
  abbrev pub store_sinks : Sinks
  store_sinks = record {
    Store = Mongo d db;
    Files = Files;
    publish = λ rs m. let r = publish d db rs m in (r.0, outcome_error r.1);
    write = write;
  }
