-- ===== src/Cmd/Agent/Examples.antt =====
-- The theorems on the agent's writers at small inputs.
use dkll.Base.{
  ℕ, ◌≡◌, ◌≢◌, inl, refl, true, false, Option, none, List, [], ◌∷◌, ◌++◌, arith, Bytes, codes,
  length, ◌+◌,
}
use dkll.Errors.{Error}
use dkll.Agent.MultiWriter.{Writers, new_multi_writer, close_all}
use dkll.Agent.MultiWriter.Results.{each_close}
use dkll.Agent.Streamer.{Stream, close_stream}
use dkll.Cmd.Agent.{
  AgentOpts, Outside, Heap, Pointer, multi, log_name, err_name, make_log_writers, agent_streaming,
}
use dkll.Cmd.Agent.Opened.{
  Opens, count, files_open, syslog_open, after_files, make_log_writers-Opens,
}
use dkll.Cmd.Agent.Names.{log_name_unique}
use dkll.Cmd.Agent.Closed.{close_stream-twice}
use dkll.Samples.{last_error, last_error-IsMultiError}

-- Writers that are numbers, in the order in which they are opened; closing one is kept in the list.
abbrev opened_files : Writers
opened_files = record {
  State = List ℕ;
  Writer = ℕ;
  write = λ w b s. (s, none);
  close = λ w s. (w ∷ s, none);
}

abbrev open_all : Outside
open_all = record {
  writers = opened_files;
  mkdir_all = λ d s. (s, none);
  new_logger = λ f s. (0 ∷ s, length s);
  dial = λ l t s. (0 ∷ s, inl (length s));
  hostname = inl (codes "host-1");
}

abbrev mixed_files : AgentOpts
mixed_files = record {
  enable_syslog = true;
  syslog_prefix = codes "docker/";
  enable_files = true;
  mix_err = true;
  files_location = codes "logs";
  excludes = none;
  includes = none;
  ext_json = false;
  demo_mode = false;
}

abbrev new_heap : Heap mixed_files open_all last_error
new_heap = record { state = []; next = 0 }

make_log_writers-Opens_example :
    Opens mixed_files open_all last_error
      (codes "mongo")
      (codes "db")
      (count (files_open mixed_files open_all last_error (codes "mongo") (codes "db") [])
        + count (
            syslog_open mixed_files open_all last_error
              (codes "mongo")
              (codes "db")
              (after_files mixed_files open_all last_error (codes "mongo") (codes "db") [])))
      (make_log_writers mixed_files open_all last_error (codes "mongo") (codes "db") new_heap).1
make_log_writers-Opens_example =
    make_log_writers-Opens mixed_files open_all last_error (codes "mongo") (codes "db")
      last_error-IsMultiError new_heap

log_name_unique_example :
    (log_name (codes "logs") [] (codes "mongo")
        ≡ log_name (codes "logs") (codes "db") (codes "mongo")
      → ([] ≡ codes "db") × (codes "mongo" ≡ codes "mongo"))
    × (err_name (codes "logs") [] (codes "mongo")
          ≡ err_name (codes "logs") (codes "db") (codes "mongo")
        → ([] ≡ codes "db") × (codes "mongo" ≡ codes "mongo"))
    × (log_name (codes "logs") [] (codes "mongo")
        ≢ err_name (codes "logs") (codes "db") (codes "mongo"))
log_name_unique_example =
    log_name_unique (codes "logs") [] (codes "db") (codes "mongo") (codes "mongo") tt
      (omega arith, (omega arith, tt))
      (omega arith, (omega arith, (omega arith, (omega arith, (omega arith, tt)))))
      (omega arith, (omega arith, (omega arith, (omega arith, (omega arith, tt)))))

-- The pointers to the multi-writers of a container.
abbrev pointer : ℕ → List ℕ → Pointer mixed_files open_all last_error
pointer n ws = record {
  address = n;
  target = multi mixed_files open_all last_error (codes "mongo") (codes "db") ws;
}

abbrev at_once :
    Bytes
    → Heap mixed_files open_all last_error
    → Heap mixed_files open_all last_error × Option Error
at_once id h = (h, none)

abbrev no_logs :
    Bytes
    → Bytes
    → Pointer mixed_files open_all last_error
    → Pointer mixed_files open_all last_error
    → Heap mixed_files open_all last_error
    → Heap mixed_files open_all last_error × Option Error
no_logs id since log err h = (h, none)

abbrev mongo_stream : Stream (agent_streaming mixed_files open_all last_error at_once no_logs)
mongo_stream = record {
  id = codes "c1";
  name = codes "mongo";
  log_writer = pointer 0 (0 ∷ 1 ∷ []);
  err_writer = pointer 1 (0 ∷ 2 ∷ []);
}

made_writers :
    (make_log_writers mixed_files open_all last_error (codes "mongo") (codes "db") new_heap).1
    ≡ inl (mongo_stream.log_writer, mongo_stream.err_writer)
unfolding make_log_writers
made_writers = refl

closed : (close_all opened_files last_error mongo_stream.log_writer.target []).1 ≡ none
unfolding close_all multi new_multi_writer
closed = refl

close_stream-twice_example :
    (f : ℕ) × (rest : List ℕ) × (rest' : List ℕ) × (mongo_stream.log_writer.target.writers
      ≡ f ∷ rest)
    × (mongo_stream.err_writer.target.writers ≡ f ∷ rest')
    × ((close_stream
          (agent_streaming mixed_files open_all last_error at_once no_logs)
          mongo_stream
          new_heap).0.state
        ≡ (each_close opened_files (f ∷ (rest ++ f ∷ rest')) []).0)
close_stream-twice_example =
    close_stream-twice mixed_files open_all last_error at_once no_logs (codes "mongo") (codes "db")
      new_heap new_heap mongo_stream refl refl made_writers refl closed
