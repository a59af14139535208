-- ===== src/Cmd/Agent.antt =====
-- app/cmd/agent.go: the writers of a container's logs, and what `Run` starts.
pub mod Opened
pub mod Names
pub mod Closed
pub mod Examples
use dkll.Base.{
  ℕ, suc, ◌+◌, ◌≡◌, ◌⊎◌, inl, inr, refl, Bool, true, false, not, ◌&&◌, Option, none, some, List, [],
  ◌∷◌, ◌++◌, ◌==◌, if◌then◌else◌, Bytes, codes, bytes_eq,
}
use dkll.Errors.{Error, MultiError}
use dkll.Agent.MultiWriter.{Writers, MultiWriter, new_multi_writer, with_ext_json, close_all}
use dkll.Agent.Streamer.{Streaming}

-- `AgentOpts`, as far as the writers and the choice of the loop depend on it; a list that is not given
-- is nil.
pub record AgentOpts : Type 0 where
  pub enable_syslog : Bool
  pub syslog_prefix : Bytes
  pub enable_files : Bool
  pub mix_err : Bool
  pub files_location : Bytes
  pub excludes : Option (List Bytes)
  pub includes : Option (List Bytes)
  pub ext_json : Bool
  pub demo_mode : Bool

-- The priority of a syslog writer.
pub data Level : Type 0 where
  log_info log_err : Level

-- What the agent calls: `os.MkdirAll`, a new `lumberjack.Logger` for a file, with the limits of the
-- options, `gsyslog.DialLogger` at the host of the options with a tag, `os.Hostname`, and the closing and
-- the writing of writers.
pub record Outside : Type 1 where
  pub writers : Writers
  pub mkdir_all : Bytes → writers.State → writers.State × Option Error
  pub new_logger : Bytes → writers.State → writers.State × writers.Writer
  pub dial : Level → Bytes → writers.State → writers.State × (writers.Writer ⊎ Error)
  pub hostname : Bytes ⊎ Error

abbrev pub slash : Bytes
slash = codes "/"

-- The directory of a container's files, and its two files.
unfoldable pub log_dir : Bytes → Bytes → Bytes
log_dir location group = if bytes_eq group [] then location else location ++ slash ++ group

unfoldable pub log_name : Bytes → Bytes → Bytes → Bytes
unfolding log_dir
log_name location group container = log_dir location group ++ slash ++ container ++ codes ".log"

unfoldable pub err_name : Bytes → Bytes → Bytes → Bytes
unfolding log_dir
err_name location group container = log_dir location group ++ slash ++ container ++ codes ".err"

-- The tag of a container's syslog writers.
unfoldable pub syslog_tag : AgentOpts → Bytes → Bytes
syslog_tag o container = o.syslog_prefix ++ container

-- The error of a call.
abbrev pub error_of {ℓ} : {A : Type ℓ} → A ⊎ Error → Option Error
error_of (inl a) = none
error_of (inr e) = some e

-- `append` of what a call has opened; a call without an error has opened a writer.
abbrev pub opened {ℓ} : {A : Type ℓ} → A ⊎ Error → List A
opened (inl a) = a ∷ []
opened (inr e) = []

module _ (o : AgentOpts) (out : Outside) (m : MultiError) where
  abbrev pub State : Type 0
  State = out.writers.State

  abbrev pub Writer : Type 0
  Writer = out.writers.Writer

  -- The second logger of `makeFileWriters`, or the first one in mixed mode.
  pub err_logger : Bytes → Bytes → State × Writer → State × (Writer × Writer)
  unfolding err_name
  err_logger container group (s, log) =
      if not o.mix_err
      then (let r = out.new_logger (err_name o.files_location group container) s in
          (r.0, (log, r.1)))
      else (s, (log, log))

  pub with_dir : Bytes → Bytes → State × Option Error → State × ((Writer × Writer) ⊎ Error)
  unfolding err_logger log_name
  with_dir container group (s, some e) = (s, inr (codes "failed to make logs directory"))
  with_dir container group (s, none) =
      let r =
        err_logger container group (out.new_logger (log_name o.files_location group container) s) in
      (r.0, inl r.1)

  -- `makeFileWriters`
  unfoldable pub make_file_writers : Bytes → Bytes → State → State × ((Writer × Writer) ⊎ Error)
  unfolding with_dir log_dir
  make_file_writers container group s =
      with_dir container group (out.mkdir_all (log_dir o.files_location group) s)

  -- `makeSyslogWriters`: both are dialled, whether or not the first one fails.
  unfoldable pub make_syslog_writers :
      Bytes → State → State × ((Writer ⊎ Error) × (Writer ⊎ Error) × Option Error)
  unfolding syslog_tag
  make_syslog_writers container s =
      let log = out.dial log_info (syslog_tag o container) s in
      let err = out.dial log_err (syslog_tag o container) log.0 in
      (
        err.0,
        (
          log.1,
          err.1,
          m.error_or_nil (m.append (m.append m.empty (error_of log.1)) (error_of err.1)),
        ),
      )

  -- The writers that are collected for the logs and for the errors.
  pub record Collected : Type 0 where
    pub logs : List Writer
    pub errs : List Writer

  abbrev pub nothing : Collected
  nothing = record { logs = []; errs = [] }

  pub add_files : State × ((Writer × Writer) ⊎ Error) → State × Collected
  add_files (s, inr e) = (s, nothing)
  add_files (s, inl (log, err)) = (s, record { logs = log ∷ []; errs = err ∷ [] })

  pub add_syslog :
      Collected → State × ((Writer ⊎ Error) × (Writer ⊎ Error) × Option Error) → State × Collected
  add_syslog c (s, (log, err, some e)) = (s, c)
  add_syslog c (s, (log, err, none)) =
      (s, record { logs = c.logs ++ opened log; errs = c.errs ++ opened err })

  -- The two ifs of `makeLogWriters`.
  pub collect_files : Bytes → Bytes → State → State × Collected
  unfolding make_file_writers add_files
  collect_files container group s =
      if o.enable_files then add_files (make_file_writers container group s) else (s, nothing)

  pub collect_syslog : Bytes → State × Collected → State × Collected
  unfolding make_syslog_writers add_syslog
  collect_syslog container (s, c) =
      if o.enable_syslog then add_syslog c (make_syslog_writers container s) else (s, c)

  unfoldable pub collect : Bytes → Bytes → State → State × Collected
  unfolding collect_files collect_syslog
  collect container group s = collect_syslog container (collect_files container group s)

  -- A multi-writer, as `makeLogWriters` hands it on: behind a pointer.
  pub record Pointer : Type 0 where
    pub address : ℕ
    pub target : MultiWriter out.writers

  -- The state of the writers, and the next address that is free.
  pub record Heap : Type 0 where
    pub state : State
    pub next : ℕ

  unfoldable pub multi : Bytes → Bytes → List Writer → MultiWriter out.writers
  multi container group ws =
      let w = new_multi_writer out.writers ws in
      if o.ext_json then with_ext_json out.writers out.hostname container group w else w

  -- The end of `makeLogWriters`: there has to be a writer.
  pub pointers : Bytes → Bytes → ℕ → List Writer → List Writer → (Pointer × Pointer) ⊎ Error
  unfolding multi
  pointers container group n [] errs = inr (codes "all log writers failed")
  pointers container group n (w ∷ ws) errs = inl (
    record { address = n; target = multi container group (w ∷ ws) },
    record { address = suc n; target = multi container group errs },
  )

  pub allocate : Bytes → Bytes → ℕ → State × Collected → Heap × ((Pointer × Pointer) ⊎ Error)
  unfolding pointers
  allocate container group n (s, c) =
      (record { state = s; next = suc (suc n) }, pointers container group n c.logs c.errs)

  -- `makeLogWriters`
  unfoldable pub make_log_writers : Bytes → Bytes → Heap → Heap × ((Pointer × Pointer) ⊎ Error)
  unfolding allocate collect
  make_log_writers container group h =
      if not o.enable_files && not o.enable_syslog
      then (h, inr (codes "either files or syslog has to be enabled"))
      else allocate container group h.next (collect container group h.state)

  -- The world of the event loop under these writers: multi-writers are compared by their pointers; the
  -- waiting for a stream and the logs of docker are given.
  abbrev pub agent_streaming :
      (Bytes → Heap → Heap × Option Error)
      → (Bytes → Bytes → Pointer → Pointer → Heap → Heap × Option Error)
      → Streaming
  agent_streaming wait logs = record {
    World = Heap;
    Writer = Pointer;
    same_writer = λ p q. p.address == q.address;
    close_writer =
        λ p h. let r = close_all out.writers m p.target h.state in (record h { state = r.0 }, r.1);
    wait = wait;
    logs = logs;
  }

-- What `Run` of the agent starts.
pub data Started : Type 0 where
  refused : Error → Started
  demo_loop : Started
  docker_loop : List Bytes → List Bytes → Started

-- A list of the options; nil has no elements.
abbrev elements : Option (List Bytes) → List Bytes
elements none = []
elements (some l) = l

-- Whether a list of the options is not nil.
abbrev is_given : Option (List Bytes) → Bool
is_given none = false
is_given (some l) = true

-- `Run` and `makeEventLoop`, up to the loop: `docker.NewClient` and `NewEventNotifier` may fail.
unfoldable pub run_agent : AgentOpts → Option Error → Option Error → Started
run_agent o client notifier =
    let failed : Started = refused (codes "failed to make event loop") in
    let started : Started = docker_loop (elements o.excludes) (elements o.includes) in
    let noticed : Started = elim notifier [ none ↦ started | some e ↦ failed ] in
    let connected : Started = elim client [ none ↦ noticed | some e ↦ failed ] in
    let looped : Started = if o.demo_mode then demo_loop else connected in
    if is_given o.includes && is_given o.excludes
    then refused (codes "only single option Excludes/Includes are allowed")
    else looped
