-- ===== src/Server/Forwarder.antt =====
-- app/server/forwarder.go: lines from syslog become entries, which a background writer publishes in
-- batches and writes to the log files.
pub mod Order
pub mod Shutdown
pub mod Examples
use dkll.Base.{
  ℕ, ◌+◌, ◌<◌, ◌≡◌, ◌≢◌, refl, Bool, true, false, Option, none, some, List, [], ◌∷◌, ◌++◌, leb,
  if◌then◌else◌, Bytes, length,
}
use dkll.Core.{LogEntry}
use dkll.Core.Clock.{Location}
use dkll.Core.Entry.{Now, EntryError, new_entry}
use dkll.Errors.{Error}

-- The interfaces `Publisher` and `FileWriter`, over the states that they keep.
pub record Sinks : Type 1 where
  pub Store : Type 0
  pub Files : Type 0
  pub publish : List LogEntry → Store → Store × Option Error
  pub write : LogEntry → Files → Files × Option Error

-- The capacity of the channel `messages`.
abbrev pub queue_cap : ℕ
queue_cap = 10000

-- The length of the buffer that forces a flush.
abbrev pub batch_cap : ℕ
batch_cap = 1000

-- Where `Run` is: in its `select`, before the send of an entry to `messages`, or at its return.
pub data RunState : Type 0 where
  idle ended : RunState
  sending : LogEntry → RunState

module _ (sinks : Sinks) where
  open sinks use {Store, Files, publish, write}

  -- The state of `Run` and `backgroundWriter`: the channel `messages`, the buffer, what the sinks
  -- hold, whether the context is done, where `Run` is, and whether the writer still runs.
  pub record Forwarder : Type 0 where
    pub messages : List LogEntry
    pub buffer : List LogEntry
    pub store : Store
    pub files : Files
    pub done : Bool
    pub run : RunState
    pub writing : Bool

  -- `for _, r := range buffer { f.FileWriter.Write(r) }`; an error is only logged.
  pub write_all : List LogEntry → Files → Files
  write_all [] files = files
  write_all (r ∷ rs) files = write_all rs (write r files).0

  -- The buffer goes to the publisher and then to the files; an error of `Publish` is only logged.
  pub flush : List LogEntry → Forwarder → Forwarder
  flush [] f = f
  flush (r ∷ rs) f = record f {
    store = (publish (r ∷ rs) f.store).0;
    files = write_all (r ∷ rs) f.files;
    buffer = [];
  }

  -- The closure `writeBuff`.
  pub write_buff : Forwarder → Forwarder
  write_buff f = flush f.buffer f

  -- The case `msg := <-messages` of the writer.
  pub receive : LogEntry → Forwarder → Forwarder
  receive msg f =
      let g = record f { buffer = f.buffer ++ msg ∷ [] } in
      if leb batch_cap (length g.buffer) then write_buff g else g

  -- What `Run` does with the result of `NewEntry`.
  pub handle : LogEntry × Option EntryError → Forwarder → Forwarder
  handle (entry, none) f = record f { run = sending entry }
  handle (entry, some e) f = f

  -- The case `line := <-syslogCh` of `Run`, up to the send.
  pub accept : Now → Location → Bytes → Forwarder → Forwarder
  unfolding handle
  accept clock tz line f = handle (new_entry clock tz line) f

  -- What the two loops may do next; the scheduler and `select` choose. A send waits until `messages`
  -- has room, and `Run` returns once the writer has ended.
  pub data Step : Forwarder → Forwarder → Type 0 where
    line :
        {f : Forwarder} (clock : Now) (tz : Location) (text : Bytes)
        → f.run ≡ idle
        → Step f (accept clock tz text f)
    send :
        {f : Forwarder} {entry : LogEntry}
        → f.run ≡ sending entry
        → length f.messages < queue_cap
        → Step f (record f { messages = f.messages ++ entry ∷ []; run = idle })
    message :
        {f : Forwarder} {msg : LogEntry} {rest : List LogEntry}
        → f.writing ≡ true
        → f.messages ≡ msg ∷ rest
        → Step f (receive msg (record f { messages = rest }))
    tick : {f : Forwarder} → f.writing ≡ true → Step f (write_buff f)
    cancel : {f : Forwarder} → Step f (record f { done = true })
    end_writer :
        {f : Forwarder}
        → f.writing ≡ true
        → f.done ≡ true
        → Step f (record (write_buff f) { writing = false })
    end_run :
        {f : Forwarder}
        → f.run ≡ idle
        → f.done ≡ true
        → f.writing ≡ false
        → Step f (record f { run = ended })

  pub data Reach (s : Forwarder) : Forwarder → Type 0 where
    here : Reach s s
    next : {t u : Forwarder} → Reach s t → Step t u → Reach s u

  -- The state in which `Run` starts.
  abbrev pub start : Store → Files → Forwarder
  start store files = record {
    messages = [];
    buffer = [];
    store = store;
    files = files;
    done = false;
    run = idle;
    writing = true;
  }
