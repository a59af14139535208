-- ===== src/Cmd/Server.antt =====
-- app/cmd/server.go: the writers of the server's backup files, and what `Run` of the server starts.
pub mod Names
pub mod Started
use dkll.Base.{
  ℕ, ◌≡◌, ◌⊎◌, inl, inr, Bool, true, false, Option, none, some, List, [], ◌∷◌, ◌++◌, if◌then◌else◌,
  Bytes, codes, bytes_eq, ℤ, pos,
}
use dkll.Base.FilePath.{join, dir}
use dkll.Errors.{Error}
use dkll.Server.Mongo.{MongoParams}
use dkll.Server.Mongo.Init.{Collections, NewMongo, new_mongo}

-- `LogLimit`
pub record LogLimit : Type 0 where
  pub max_size : ℤ
  pub max_backups : ℤ
  pub max_age : ℤ

-- `ServerOpts`, without the timeout of mongo.
pub record ServerOpts : Type 0 where
  pub port : ℤ
  pub syslog_port : ℤ
  pub mongo_url : Bytes
  pub mongo_max_size : ℕ
  pub mongo_max_docs : ℕ
  pub file_backup_location : Bytes
  pub enable_merged : Bool
  pub container_limits : LogLimit
  pub merged_limits : LogLimit

-- The writers that are made: `io.Discard`, and a rotated file, which `lumberjack` opens at the first
-- write.
pub data FileWriter : Type 0 where
  discard : FileWriter
  rotated : Bytes → LogLimit → FileWriter

-- The name of the file of a host and a container.
unfoldable pub file_name : Bytes → Bytes → Bytes → Bytes
file_name location instance container =
    join (location ∷ instance ∷ (container ++ codes ".log") ∷ [])

-- What the server calls: `os.MkdirAll`, `mongo.Connect` with the two extra parameters of the URL, each a
-- string or none, and the running of the REST server, in the background, and of the forwarder, until it
-- ends.
pub record Services : Type 1 where
  pub collections : Collections
  open collections use {World, Client}
  pub mkdir_all : Bytes → World → World × Option Error
  pub connect : Bytes → World → World × ((Client × Option Bytes × Option Bytes) ⊎ Error)
  pub serve_rest : ℤ → ℤ → NewMongo collections → World → World
  pub forward :
      ℤ
      → NewMongo collections
      → (Bytes → Bytes → World → World × FileWriter)
      → FileWriter
      → World
      → World × Option Error

module _ (s : ServerOpts) (services : Services) where
  open services use {collections, mkdir_all, connect, serve_rest, forward}
  open collections use {World, Client}

  pub container_writer : Bytes → World × Option Error → World × FileWriter
  container_writer fname (w, some e) = (w, discard)
  container_writer fname (w, none) = (w, rotated fname s.container_limits)

  -- The factory of `makeWriters`: a file for a host and a container, whose directory is made.
  unfoldable pub writers_factory : Bytes → Bytes → World → World × FileWriter
  unfolding container_writer file_name
  writers_factory instance container w =
      if bytes_eq s.file_backup_location []
      then (w, discard)
      else (let fname = file_name s.file_backup_location instance container in
          container_writer fname (mkdir_all (dir fname) w))

  pub merged_writer : World × Option Error → World × (FileWriter ⊎ Error)
  merged_writer (w, some e) = (w, inr e)
  merged_writer (w, none) =
      (w, inl (rotated (join (s.file_backup_location ∷ codes "/dkll.log" ∷ [])) s.merged_limits))

  -- `makeWriters`, without the factory, which is `writers_factory`: the merged writer.
  unfoldable pub make_writers : World → World × (FileWriter ⊎ Error)
  unfolding merged_writer
  make_writers w =
      if bytes_eq s.file_backup_location []
      then (w, inl discard)
      else (if s.enable_merged
          then merged_writer (mkdir_all s.file_backup_location w)
          else (w, inl discard))

  -- `makeMongoClient`
  unfoldable pub make_mongo_client :
      World → World × ((Client × Option Bytes × Option Bytes) ⊎ Error)
  make_mongo_client w =
      if bytes_eq s.mongo_url []
      then (w, inr (codes "no mongo URL provided"))
      else connect s.mongo_url w

  -- `Run` once there is a store; the error of the forwarder is logged only.
  pub run_stored : FileWriter → World × (NewMongo collections ⊎ Error) → World × Option Error
  unfolding writers_factory
  run_stored merged (w, inr e) = (w, some e)
  run_stored merged (w, inl mg) =
      ((forward s.syslog_port mg writers_factory merged (serve_rest s.port (pos 100) mg w)).0, none)

  pub run_connected :
      FileWriter → World × ((Client × Option Bytes × Option Bytes) ⊎ Error) → World × Option Error
  unfolding run_stored new_mongo
  run_connected merged (w, inr e) = (w, some (codes "can't make mongo client"))
  run_connected merged (w, inl (client, none, collection)) =
      (w, some (codes "can't find db in mongo url"))
  run_connected merged (w, inl (client, some db, none)) =
      (w, some (codes "can't find collection in mongo url"))
  run_connected merged (w, inl (client, some db, some collection)) = run_stored merged (
      new_mongo collections client
        (record {
          max_docs = s.mongo_max_docs;
          max_collection_size = s.mongo_max_size;
          db_name = db;
          collection = collection;
        })
        w)

  pub run_written : World × (FileWriter ⊎ Error) → World × Option Error
  unfolding run_connected make_mongo_client
  run_written (w, inr e) = (w, some e)
  run_written (w, inl merged) = run_connected merged (make_mongo_client w)

  -- `ServerCmd.Run`
  unfoldable pub run_server : World → World × Option Error
  unfolding run_written make_writers
  run_server w = run_written (make_writers w)
