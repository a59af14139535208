-- ===== src/Server/FileLogger.antt =====
-- app/server/file_logger.go: each entry goes to a merged log, and to the log of its host and container.
pub mod Routing
pub mod Delivery
pub mod Examples
use dkll.Base.{
  ℕ, ◌≡◌, refl, Bool, true, false, ◌&&◌, Option, none, some, List, [], ◌∷◌, ◌++◌, if◌then◌else◌,
  Bytes, codes, bytes_eq,
}
use dkll.Core.{Time, LogEntry}
use dkll.Core.Show.{show_entry}
use dkll.Errors.{Error, MultiError}

-- `dkKey`
pub record DkKey : Type 0 where
  pub host : Bytes
  pub container : Bytes

pub key_eq : DkKey → DkKey → Bool
key_eq j k = bytes_eq j.host k.host && bytes_eq j.container k.container

-- An `io.Writer` over a state of the world, named by a handle: writes go to the world.
pub record World : Type 1 where
  pub State : Type 0
  pub Writer : Type 0
  pub write : Writer → Bytes → State → State × Option Error
  -- `WritersFactory`, which may open files
  pub factory : Bytes → Bytes → State → State × Writer

pub lookup {ℓ} : {V : Type ℓ} → DkKey → List (DkKey × V) → Option V
unfolding key_eq
lookup k [] = none
lookup k ((j, v) ∷ m) = if key_eq j k then some v else lookup k m

module _ (world : World) (errors : MultiError) (show_time : Time → Bytes) where
  open world use {State, Writer, write, factory}
  open errors use {Errors, empty, append, error_or_nil}

  pub record FileLogger : Type 0 where
    pub merged : Writer
    pub writers : List (DkKey × Writer)

  -- `NewFileLogger`
  unfoldable pub new_file_logger : Writer → FileLogger
  new_file_logger m = record { merged = m; writers = [] }

  -- The writer that was found, or a new one, which is kept.
  pub found_or_made : LogEntry → FileLogger → State → Option Writer → State × FileLogger × Writer
  found_or_made rec l s (some wr) = (s, l, wr)
  found_or_made rec l s none =
      let key : DkKey = record { host = rec.host; container = rec.container } in
      let made = factory rec.host rec.container s in
      (made.0, record l { writers = (key, made.1) ∷ l.writers }, made.1)

  -- The writer of the key of an entry.
  pub writer_of : LogEntry → FileLogger → State → State × FileLogger × Writer
  writer_of rec l s =
      found_or_made rec l s
        (lookup (record { host = rec.host; container = rec.container }) l.writers)

  -- `FileLogger.Write`, which runs under the lock.
  unfoldable pub write_entry : LogEntry → FileLogger → State → State × FileLogger × Option Error
  write_entry rec l s =
      let all = write l.merged (show_entry show_time rec ++ codes "\n") s in
      let errs = append empty all.1 in
      let found = writer_of rec l all.0 in
      let one = write found.2 (rec.msg ++ codes "\n") found.0 in
      (one.0, found.1, error_or_nil (append errs one.1))
