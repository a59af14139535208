-- ===== src/Agent/Streamer.antt =====
-- app/agent/docker_logger.go: the log stream of one container.
pub mod Closing
pub mod Goroutines
use dkll.Base.{
  ℕ, zero, suc, Bool, false, Option, none, some, [], if◌then◌else◌, Bytes, codes, has_prefix,
}
use dkll.Errors.{Error}
use dkll.Agent.MultiWriter.{wrap}

-- What a stream calls: closing a writer, the comparison of two writers, waiting for the end of the
-- stream after it has been cancelled, which fails when the time is over, and `Logs`, which blocks until
-- the container is down.
pub record Streaming : Type 1 where
  pub World : Type 0
  pub Writer : Type 0
  pub same_writer : Writer → Writer → Bool
  pub close_writer : Writer → World → World × Option Error
  pub wait : Bytes → World → World × Option Error
  pub logs : Bytes → Bytes → Writer → Writer → World → World × Option Error

module _ (env : Streaming) where
  open env use {World, Writer, same_writer, close_writer, wait, logs}

  -- `ContainerStreamerParams`, without the emitter.
  pub record Stream : Type 0 where
    pub id : Bytes
    pub name : Bytes
    pub log_writer : Writer
    pub err_writer : Writer

  -- The end of `Close`, with the writer of the errors.
  unfoldable pub close_err : Stream → World → World × Option Error
  unfolding wrap
  close_err l w =
      if same_writer l.log_writer l.err_writer
      then (w, none)
      else (let r = close_writer l.err_writer w in
          (r.0, wrap (codes "failed to close log file (err) writer") r.1))

  unfoldable pub close_log : Stream → World → World × Option Error
  unfolding close_err
  close_log l w =
      let r = close_writer l.log_writer w in
      elim r.1 [
        | some e ↦ (r.0, some (codes "failed to close log file (out) writer"))
        | none ↦ close_err l r.0
      ]

  -- `ContainerLogStreamer.Close`
  unfoldable pub close_stream : Stream → World → World × Option Error
  unfolding close_log
  close_stream l w =
      let r = wait l.id w in
      elim r.1 [
        | some e ↦ (r.0, some (codes "failed in wait on stream close"))
        | none ↦ close_log l r.0
      ]

  -- An error of `Logs` for which the call is repeated.
  abbrev is_empty_log : Option Error → Bool
  is_empty_log none = false
  is_empty_log (some e) =
      has_prefix e (codes "error from daemon in stream: Error grabbing logs: EOF")

  -- `ContainerLogStreamer.Run`, with `fuel` repetitions at most; none is a stream that still runs.
  pub stream_from : ℕ → Bytes → Stream → World → Option (World × Option Error)
  stream_from zero tail l w =
      let r = logs l.id tail l.log_writer l.err_writer w in
      if is_empty_log r.1 then none else some r
  stream_from (suc n) tail l w =
      let r = logs l.id tail l.log_writer l.err_writer w in
      let rest = stream_from n [] l r.0 in if is_empty_log r.1 then rest else some r

  unfoldable pub run_stream : ℕ → Stream → World → Option (World × Option Error)
  unfolding stream_from
  run_stream fuel l w = stream_from fuel (codes "10") l w
