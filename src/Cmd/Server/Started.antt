-- ===== src/Cmd/Server/Started.antt =====
-- When `Run` of the server returns an error.
use dkll.Base.{
  ◌≡◌, ◌↔◌, ◌⊎◌, inl, inr, refl, sym, ◌∙◌, Bool, true, false, not, ◌||◌, Option, none, some, [],
  Bytes, bytes_eq, if◌then◌else◌,
}
use dkll.Errors.{Error, is_nil, is_open}
use dkll.Server.Mongo.{MongoParams}
use dkll.Server.Mongo.Init.{NewMongo, new_mongo}
use dkll.Cmd.Server.{
  ServerOpts, Services, FileWriter, merged_writer, make_writers, make_mongo_client, run_stored,
  run_connected, run_written, run_server,
}

module _ (s : ServerOpts) (services : Services) where
  open services use {collections, mkdir_all, connect, serve_rest, forward}
  open collections use {World, Client}

  -- The parameters of the store, for the two names of the URL.
  abbrev pub params_of : Bytes → Bytes → MongoParams
  params_of db collection = record {
    max_docs = s.mongo_max_docs;
    max_collection_size = s.mongo_max_size;
    db_name = db;
    collection = collection;
  }

  -- A connection with both names, to a collection that can be prepared.
  abbrev pub usable : World × ((Client × Option Bytes × Option Bytes) ⊎ Error) → Bool
  usable (w, inr e) = false
  usable (w, inl (client, none, collection)) = false
  usable (w, inl (client, some db, none)) = false
  usable (w, inl (client, some db, some collection)) =
      is_open (new_mongo collections client (params_of db collection) w).1

  run_stored-is_open :
      (merged : FileWriter) (r : World × (NewMongo collections ⊎ Error))
      → ((run_stored s services merged r).1 ≡ none) ↔ (is_open r.1 ≡ true)
  unfolding run_stored
  run_stored-is_open merged (w, inl mg) = (λ h. refl, λ h. refl)
  run_stored-is_open merged (w, inr e) = (λ h. absurd cc, λ h. absurd cc)

  run_connected-usable :
      (merged : FileWriter) (r : World × ((Client × Option Bytes × Option Bytes) ⊎ Error))
      → ((run_connected s services merged r).1 ≡ none) ↔ (usable r ≡ true)
  unfolding run_connected
  run_connected-usable merged (w, inr e) = (λ h. absurd cc, λ h. absurd cc)
  run_connected-usable merged (w, inl (client, none, collection)) = (λ h. absurd cc, λ h. absurd cc)
  run_connected-usable merged (w, inl (client, some db, none)) = (λ h. absurd cc, λ h. absurd cc)
  run_connected-usable merged (w, inl (client, some db, some collection)) =
      run_stored-is_open merged (new_mongo collections client (params_of db collection) w)

  run_written-usable :
      (r : World × (FileWriter ⊎ Error))
      → ((run_written s services r).1 ≡ none)
        ↔ ((is_open r.1 ≡ true) × (usable (make_mongo_client s services r.0) ≡ true))
  unfolding run_written
  run_written-usable (w, inr e) = (λ h. absurd cc, λ h. absurd (cc (h.0)))
  run_written-usable (w, inl merged) =
      let (to, from) = run_connected-usable merged (make_mongo_client s services w) in
      (λ h. (refl, to h), λ h. from h.1)

  if_usable :
      (b : Bool) (x y : World × ((Client × Option Bytes × Option Bytes) ⊎ Error))
      → usable x ≡ false
      → (usable (if b then x else y) ≡ true) ↔ ((b ≡ false) × (usable y ≡ true))
  if_usable true x y h = (λ k. absurd cc, λ k. absurd (cc (k.0)))
  if_usable false x y h = (λ k. (refl, k), λ k. k.1)

  make_mongo_client-usable :
      (w : World)
      → (usable (make_mongo_client s services w) ≡ true)
        ↔ ((bytes_eq s.mongo_url [] ≡ false) × (usable (connect s.mongo_url w) ≡ true))
  unfolding make_mongo_client
  make_mongo_client-usable w = if_usable (bytes_eq s.mongo_url []) _ _ refl

  -- The merged log can be made: it is not kept, or its directory is there.
  abbrev pub merged_made : World → Bool
  merged_made w =
      bytes_eq s.file_backup_location []
      || (not s.enable_merged || is_nil (mkdir_all s.file_backup_location w).1)

  merged_writer-is_nil :
      (r : World × Option Error) → is_open (merged_writer s services r).1 ≡ is_nil r.1
  unfolding merged_writer
  merged_writer-is_nil (w, none) = refl
  merged_writer-is_nil (w, some e) = refl

  if_made :
      (a b c : Bool) (x y z : World × (FileWriter ⊎ Error))
      → is_open x.1 ≡ true
      → is_open y.1 ≡ c
      → is_open z.1 ≡ true
      → is_open (if a then x else (if b then y else z)).1 ≡ (a || (not b || c))
  if_made true b c x y z hx hy hz = hx
  if_made false true c x y z hx hy hz = hy
  if_made false false c x y z hx hy hz = hz

  make_writers-made : (w : World) → is_open (make_writers s services w).1 ≡ merged_made w
  unfolding make_writers
  make_writers-made w =
      if_made (bytes_eq s.file_backup_location []) s.enable_merged _ _ _ _ refl
        (merged_writer-is_nil (mkdir_all s.file_backup_location w)) refl

  -- The server's `Run` returns no error exactly if the merged log can be made, there is a URL of mongo,
  -- and the connection to it gives both names and a collection that can be prepared: whether the
  -- forwarder ended with an error makes no difference.
  pub run_server-usable :
      (w : World)
      → ((run_server s services w).1 ≡ none) ↔ (
          (merged_made w ≡ true)
          × (bytes_eq s.mongo_url [] ≡ false)
          × (usable (connect s.mongo_url (make_writers s services w).0) ≡ true))
  unfolding run_server
  run_server-usable w =
      let (to, from) = run_written-usable (make_writers s services w) in
      let (to', from') = make_mongo_client-usable (make_writers s services w).0 in
      let e = make_writers-made w in
      (
        λ h. (sym e ∙ (to h).0, (to' (to h).1).0, (to' (to h).1).1),
        λ h. from (e ∙ h.0, from' (h.1, h.2)),
      )
