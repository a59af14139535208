-- ===== src/Writing/Stored.antt =====
-- The contents of the collection under every run of the forwarder.
use dkll.Base.{
  ◌≡◌, refl, ap, ap₂, sym, ◌∙◌, Option, List, [], ◌∷◌, ◌++◌, map, append_assoc, append-nil, concat,
  Bool, true, false, bytes_eq, if◌then◌else◌,
}
use dkll.Errors.{Error}
use dkll.Core.{LogEntry}
use dkll.Server.Mongo.{Driver, get_bid, MongoLogEntry, make_log_entry, kept_row}
use dkll.Server.Mongo.Store.{Database, Mongo, make_records, publish}
use dkll.Server.Mongo.Store.Published.{content, kept, make_records-kept, after_insert-state}
use dkll.Server.Forwarder.{Sinks, Forwarder, Reach, start}
use dkll.Server.Forwarder.Order.{pending, accepted, publish_all, accepted-Flows}
use dkll.Reading.After.{map-append, map-map}
use dkll.Writing.{store_sinks}

module _ (d : Driver) (db : Database d) where
  -- A collection that does not fail, and has not reached its cap: it keeps what is inserted, with times cut
  -- to milliseconds, behind what it has, and making an identifier does not change it.
  pub record IsCollection : Type 0 where
    pub contents : db.State → List (MongoLogEntry d)
    pub appends :
        (rs : List (MongoLogEntry d)) (s : db.State)
        → contents (db.insert_many rs s).0 ≡ contents s ++ map (kept_row d) rs
    pub same_after_id : (s : db.State) → contents (db.new_id s).0 ≡ contents s

  module _ (laws : IsCollection) where
    if_same :
        (b : Bool) (x y : db.State × d.ObjectId) (s : db.State)
        → laws.contents x.0 ≡ laws.contents s
        → laws.contents y.0 ≡ laws.contents s
        → laws.contents (if b then x else y).0 ≡ laws.contents s
    if_same true x y s h k = h
    if_same false x y s h k = k

    make_records-contents :
        (es : List LogEntry) (s : db.State)
        → laws.contents (make_records d db es s).0 ≡ laws.contents s
    unfolding make_records
    make_records-contents [] s = refl
    make_records-contents (e ∷ es) s =
        make_records-contents es _
        ∙ if_same (bytes_eq e.id []) (db.new_id s) (s, get_bid d e.id) s (laws.same_after_id s) refl

    -- What the collection holds, but for the identifiers.
    abbrev pub stored : Mongo d db → List LogEntry
    stored m = map (λ r. content (make_log_entry d r)) (laws.contents m.state)

    publish-stored :
        (rs : List LogEntry) (m : Mongo d db)
        → stored (publish d db rs m).0 ≡ stored m ++ map kept rs
    unfolding publish
    publish-stored rs m =
        let f = λ (r : MongoLogEntry d). content (make_log_entry d r) in
        let made = make_records d db rs m.state in
        ap (λ s. map f (laws.contents s)) (after_insert-state d db rs _ _ _)
        ∙ ap (map f) (laws.appends made.1 made.0)
        ∙ map-append f (laws.contents made.0) (map (kept_row d) made.1)
        ∙ ap₂ (λ a b. map f a ++ b) (make_records-contents rs m.state)
            (map-map f (kept_row d) made.1 ∙ make_records-kept d db rs m.state)

  module _ (laws : IsCollection) (Files : Type 0)
      (write : LogEntry → Files → Files × Option Error) where
    abbrev pub sinks : Sinks
    sinks = store_sinks d db Files write

    publish_all-stored :
        (bs : List (List LogEntry)) (m : Mongo d db)
        → stored laws (publish_all sinks bs m) ≡ stored laws m ++ map kept (concat bs)
    unfolding publish_all
    publish_all-stored [] m = sym (append-nil (stored laws m))
    publish_all-stored (b ∷ bs) m =
        publish_all-stored bs (publish d db b m).0
        ∙ ap (λ t. t ++ map kept (concat bs)) (publish-stored laws b m)
        ∙ append_assoc (stored laws m) (map kept b) (map kept (concat bs))
        ∙ ap (λ t. stored laws m ++ t) (sym (map-append kept b (concat bs)))

    -- Over a collection that does not fail and is below its cap, whatever the scheduler does: what the
    -- collection holds, then the buffer, the channel and the entry that `Run` holds, are what it held
    -- at the start and the entries of the accepted lines, in the order of the lines, each once, with
    -- times cut to whole milliseconds; the identifiers and the times of creation are left out, which the
    -- store gives.
    pub accepted-stored :
        (m : Mongo d db) (files : Files) (f : Forwarder sinks)
        (r : Reach sinks (start sinks m files) f)
        → stored laws f.store ++ map kept (f.buffer ++ (f.messages ++ pending f.run))
          ≡ stored laws m ++ map kept (accepted sinks r)
    accepted-stored m files f r =
        let (flows, small) = accepted-Flows sinks m files r in
        let rest = f.buffer ++ (f.messages ++ pending f.run) in
        ap (λ s. stored laws s ++ map kept rest) flows.published
        ∙ ap (λ t. t ++ map kept rest) (publish_all-stored flows.batches m)
        ∙ append_assoc (stored laws m) (map kept (concat flows.batches)) (map kept rest)
        ∙ ap (λ t. stored laws m ++ t)
            (sym (map-append kept (concat flows.batches) rest) ∙ ap (map kept) (sym flows.ordered))
