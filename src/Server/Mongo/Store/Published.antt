-- ===== src/Server/Mongo/Store/Published.antt =====
-- What `Publish` hands to the collection, and what `LastPublished` and `Find` make of it.
use dkll.Base.{
  ℕ, zero, suc, ◌≡◌, ◌≢◌, inl, inr, refl, sym, ap, ◌∙◌, Bool, false, not, ◌&&◌, Option, none, some,
  List, [], ◌∷◌, map, arith, if◌then◌else◌, Bytes, codes, bytes_eq, bytes_eq_sound, bytes_lt,
  last_or, All, Bool-cases,
}
use dkll.Errors.{Error}
use dkll.Core.{LogEntry, Request, zero_time, empty_entry}
use dkll.Server.Mongo.{
  Driver, IsDriver, get_bid, make_mongo_entry, make_log_entry, millis, kept_row,
}
use dkll.Server.Mongo.Store.{
  Database, Mongo, make_records, cache_last, after_insert, publish, last_published, is_seen,
}

-- An entry without its identifier and the time of its creation.
abbrev pub content : LogEntry → LogEntry
content e = record e { id = []; created_ts = zero_time }

-- What the store keeps of an entry: its time is cut to whole milliseconds.
abbrev pub kept : LogEntry → LogEntry
kept e = record (content e) { ts = millis e.ts }

and_false : (a : Bool) → (a && false) ≡ false
and_false a = ground arith

pub not_same : (s t : Bytes) → s ≢ t → bytes_eq s t ≡ false
not_same s t h = elim (Bool-cases (bytes_eq s t)) [
  | inl e ↦ absurd (h (bytes_eq_sound s t e))
  | inr e ↦ e
]

module _ (d : Driver) where
  pub get_bid-hex : (laws : IsDriver d) (i : d.ObjectId) → get_bid d (d.hex i) ≡ i
  unfolding get_bid
  get_bid-hex laws i =
      rw
        (
          not_same (d.hex i) [] (laws.hex-ne-nil i),
          not_same (d.hex i) (codes "0") (laws.hex-ne-zero i),
          laws.from_hex-hex i,
        )
        (ap (λ t. t.0) (laws.from_hex-hex i))

  bid_of-hex :
      (laws : IsDriver d) (fresh i : d.ObjectId)
      → (if bytes_eq (d.hex i) [] then fresh else get_bid d (d.hex i)) ≡ i
  bid_of-hex laws fresh i = rw (not_same (d.hex i) [] (laws.hex-ne-nil i)) (get_bid-hex laws i)

  -- An entry with an identifier of the store comes back from its record as it was, but for the time of
  -- its creation, which is the identifier's.
  pub make_log_entry-make_mongo_entry :
      (laws : IsDriver d) (fresh i : d.ObjectId) (e : LogEntry)
      → e.id ≡ d.hex i
      → make_log_entry d (make_mongo_entry d fresh e) ≡ record e { created_ts = d.timestamp i }
  unfolding make_log_entry make_mongo_entry
  make_log_entry-make_mongo_entry laws fresh i e h =
      ap
        (λ s. make_log_entry d (record {
          id = if bytes_eq s [] then fresh else get_bid d s;
          host = e.host;
          container = e.container;
          pid = e.pid;
          msg = e.msg;
          ts = e.ts;
        }))
        h
      ∙ ap (λ j. record e { id = d.hex j; created_ts = d.timestamp j }) (bid_of-hex laws fresh i)
      ∙ ap (λ s. record e { id = s; created_ts = d.timestamp i }) (sym h)

  module _ (db : Database d) where
    -- The records that `Publish` hands to the driver have the contents of the entries, in order.
    pub make_records-content :
        (es : List LogEntry) (s : db.State)
        → map (λ r. content (make_log_entry d r)) (make_records d db es s).1 ≡ map content es
    unfolding make_records make_log_entry make_mongo_entry
    make_records-content [] s = refl
    make_records-content (e ∷ es) s = ap (λ t. content e ∷ t) (make_records-content es _)

    -- So has what the database keeps of them, but for the cut of the times.
    pub make_records-kept :
        (es : List LogEntry) (s : db.State)
        → map (λ r. content (make_log_entry d (kept_row d r))) (make_records d db es s).1
          ≡ map kept es
    unfolding make_records make_log_entry make_mongo_entry
    make_records-kept [] s = refl
    make_records-kept (e ∷ es) s = ap (λ t. kept e ∷ t) (make_records-kept es _)

    cache_last-state :
        (rs : List LogEntry) (n : ℕ) (m : Mongo d db) → (cache_last d db rs n m).0.state ≡ m.state
    unfolding cache_last
    cache_last-state rs zero m = refl
    cache_last-state [] (suc n) m = refl
    cache_last-state (r ∷ rs) (suc n) m = refl

    pub after_insert-state :
        (rs : List LogEntry) (o : Option Error) (n : ℕ) (m : Mongo d db)
        → (after_insert d db rs o n m).0.state ≡ m.state
    unfolding after_insert
    after_insert-state rs none n m = cache_last-state rs n m
    after_insert-state rs (some e) n m = refl

    abbrev pub NoId : LogEntry → Type 0
    NoId e = e.id ≡ []

    last_or-NoId : (r : LogEntry) (rs : List LogEntry) → NoId r → All NoId rs → NoId (last_or r rs)
    last_or-NoId r [] h hs = h
    last_or-NoId r (x ∷ rs) h (k, ks) = last_or-NoId x rs k ks

    cache_last-NoId :
        (rs : List LogEntry) (n : ℕ) (m : Mongo d db)
        → All NoId rs
        → NoId m.last_published
        → NoId (cache_last d db rs n m).0.last_published
    unfolding cache_last
    cache_last-NoId rs zero m h k = k
    cache_last-NoId [] (suc n) m h k = k
    cache_last-NoId (r ∷ rs) (suc n) m (h, hs) k = last_or-NoId r rs h hs

    pub after_insert-NoId :
        (rs : List LogEntry) (o : Option Error) (n : ℕ) (m : Mongo d db)
        → All NoId rs
        → NoId m.last_published
        → NoId (after_insert d db rs o n m).0.last_published
    unfolding after_insert
    after_insert-NoId rs none n m h k = cache_last-NoId rs n m h k
    after_insert-NoId rs (some e) n m h k = k

    pub is_seen-NoId : (req : Request) (e : LogEntry) → NoId e → is_seen d db req e ≡ false
    unfolding is_seen
    is_seen-NoId req e h =
        ap
          (λ s.
            not (bytes_eq req.last_id []) && (not (bytes_eq s []) && not (bytes_lt req.last_id s)))
          h
        ∙ and_false (not (bytes_eq req.last_id []))

    last_published-NoId :
        (m : Mongo d db)
        → NoId m.last_published
        → last_published d db m
          ≡ elim (db.find_last m.state) [ none ↦ empty_entry | some e ↦ make_log_entry d e ]
    unfolding last_published
    last_published-NoId m h =
        ap
          (λ s.
            if not (bytes_eq s [])
            then m.last_published
            else elim (db.find_last m.state) [ none ↦ empty_entry | some e ↦ make_log_entry d e ])
          h

    -- Publishing entries without identifiers, whatever the driver reports, leaves a cached entry without
    -- an identifier as one without: afterwards no request is answered from the cache by `Find`, and
    -- `LastPublished` asks the collection.
    pub publish-uncached :
        (records : List LogEntry) (m : Mongo d db)
        → All NoId records
        → NoId m.last_published
        → let m' = (publish d db records m).0 in
          ((req : Request) → is_seen d db req m'.last_published ≡ false)
          × (last_published d db m'
              ≡ elim (db.find_last m'.state) [ none ↦ empty_entry | some e ↦ make_log_entry d e ])
    unfolding publish
    publish-uncached records m h k =
        let made = make_records d db records m.state in
        let inserted = db.insert_many made.1 made.0 in
        let empty =
          after_insert-NoId records inserted.1.0 inserted.1.1 (record m { state = inserted.0 }) h
            k in
        (λ req. is_seen-NoId req _ empty, last_published-NoId _ empty)
