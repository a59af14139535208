-- ===== src/Agent/MultiWriter.antt =====
-- app/agent/multiwriter.go: one writer for many destinations.
pub mod Results
use dkll.Base.{
  ℕ, zero, suc, ◌+◌, ◌≡◌, ◌⊎◌, inl, inr, refl, Bool, true, false, Option, none, some, List, [], ◌∷◌,
  ◌==◌, if◌then◌else◌, Bytes, codes, bytes_eq, length,
}
use dkll.Core.{Time}
use dkll.Errors.{Error, MultiError}

-- `io.WriteCloser` values, named by handles, over a state of the world.
pub record Writers : Type 1 where
  pub State : Type 0
  pub Writer : Type 0
  pub write : Writer → Bytes → State → State × Option Error
  pub close : Writer → State → State × Option Error

-- `jMsg`
pub record JMsg : Type 0 where
  pub msg : Bytes
  pub container : Bytes
  pub group : Bytes
  pub ts : Time
  pub host : Bytes

-- `Wrap` of `github.com/pkg/errors`, which keeps nil.
unfoldable pub wrap : Bytes → Option Error → Option Error
wrap msg none = none
wrap msg (some e) = some msg

module _ (world : Writers) where
  open world use {State, Writer, write, close}

  pub record MultiWriter : Type 0 where
    pub writers : List Writer
    pub hostname : Bytes
    pub container : Bytes
    pub group : Bytes
    pub is_json : Bool

  -- `NewMultiWriterIgnoreErrors`
  unfoldable pub new_multi_writer : List Writer → MultiWriter
  new_multi_writer ws = record {
    writers = ws;
    hostname = [];
    container = [];
    group = [];
    is_json = false;
  }

  -- `WithExtJSON`; the first argument is the result of `os.Hostname`.
  unfoldable pub with_ext_json : Bytes ⊎ Error → Bytes → Bytes → MultiWriter → MultiWriter
  with_ext_json os_hostname container group w = record w {
    container = container;
    group = group;
    is_json = true;
    hostname =
        if bytes_eq w.hostname []
        then elim os_hostname [ inl h ↦ h | inr e ↦ codes "unknown" ]
        else w.hostname;
  }

  -- The loop of `Write`: the number of errors so far, and the error of the last write.
  pub write_each : List Writer → Bytes → ℕ → Option Error → State → State × (ℕ × Option Error)
  write_each [] pp num_errors err s = (s, (num_errors, err))
  write_each (w ∷ ws) pp num_errors err s =
      let r = write w pp s in
      write_each ws pp (elim r.1 [ none ↦ num_errors | some e ↦ suc num_errors ]) r.1 r.0

  -- The loop of `Close`, where each `multierror.Append(w.Close())` starts a new collection.
  pub close_each : (m : MultiError) → List Writer → m.Errors → State → State × m.Errors
  close_each m [] errs s = (s, errs)
  close_each m (w ∷ ws) errs s = let r = close w s in close_each m ws (m.append m.empty r.1) r.0

  -- `MultiWriter.Close`
  unfoldable pub close_all : (m : MultiError) → MultiWriter → State → State × Option Error
  unfolding close_each
  close_all m w s = let r = close_each m w.writers m.empty s in (r.0, m.error_or_nil r.1)

  -- The end of `Write`: `len(p)`, and an error if every write failed.
  unfoldable pub write_result : MultiWriter → Bytes → ℕ × Option Error → ℕ × Option Error
  unfolding wrap
  write_result w p (num_errors, err) =
      if num_errors == length w.writers
      then (length p, wrap (codes "all writers failed") err)
      else (length p, none)

  module _ (marshal : JMsg → Bytes ⊎ Error) where
    -- `extJSON`, at the time `now`.
    unfoldable pub ext_json : MultiWriter → Time → Bytes → Bytes ⊎ Error
    ext_json w now p =
        marshal (record {
          msg = p;
          ts = now;
          host = w.hostname;
          group = w.group;
          container = w.container;
        })

    -- What is written to each destination.
    unfoldable pub payload : MultiWriter → Time → Bytes → Bytes ⊎ Error
    unfolding ext_json
    payload w now p = if w.is_json then ext_json w now p else inl p

    -- `MultiWriter.Write`
    unfoldable pub write_all : MultiWriter → Time → Bytes → State → State × (ℕ × Option Error)
    unfolding payload write_each write_result
    write_all w now p s = elim (payload w now p) [
      | inr e ↦ (s, (0, some (codes "can't convert message to json")))
      | inl pp ↦ let r = write_each w.writers pp 0 none s in (r.0, write_result w p r.1)
    ]
