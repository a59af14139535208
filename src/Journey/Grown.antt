-- ===== src/Journey/Grown.antt =====
-- What the collection holds after batches have been published.
use dkll.Base.{
  ◌≡◌, ◌⊎◌, inl, inr, refl, sym, ap, subst, ◌∙◌, Bool, true, List, [], ◌∷◌, ◌++◌, map, All,
  All-append, bytes_eq, if◌then◌else◌, Bytes,
}
use dkll.Core.{LogEntry}
use dkll.Server.Mongo.{
  Driver, IsDriver, MongoLogEntry, get_bid, make_mongo_entry, make_log_entry, kept_row,
}
use dkll.Server.Mongo.Store.{Database, Mongo, make_records, publish}
use dkll.Server.Mongo.Store.Published.{
  content, kept, NoId, after_insert-NoId, after_insert-state, make_records-kept,
}
use dkll.Server.Mongo.Store.Selection.{IsAscending, IsDatabase}
use dkll.Reading.After.{map-append, map-map}
use dkll.Journey.{IsGrowing}

module _ (d : Driver) (laws : IsDriver d) where
  abbrev Row : Type 0
  Row = MongoLogEntry d

  -- An identifier is another one, or before it.
  abbrev pub AtMost : d.ObjectId → d.ObjectId → Type 0
  AtMost i j = (i ≡ j) ⊎ (d.lt i j ≡ true)

  AtMost-lt : (i j k : d.ObjectId) → AtMost i j → d.lt j k ≡ true → d.lt i k ≡ true
  AtMost-lt i j k (inl e) h = rw e h
  AtMost-lt i j k (inr l) h = laws.lt-trans i j k l h

  AtMost-trans : (i j k : d.ObjectId) → AtMost i j → AtMost j k → AtMost i k
  AtMost-trans i j k h (inl e) = subst (AtMost i) e h
  AtMost-trans i j k h (inr l) = inr (AtMost-lt i j k h l)

  -- All of some rows come after an identifier, or none of them does.
  abbrev After : d.ObjectId → List Row → Type 0
  After i rs = All (λ (r : Row). d.lt i r.id ≡ true) rs

  abbrev pub UpTo : d.ObjectId → List Row → Type 0
  UpTo i rs = All (λ (r : Row). AtMost r.id i) rs

  After-trans : (i j : d.ObjectId) (rs : List Row) → AtMost i j → After j rs → After i rs
  After-trans i j [] h a = tt
  After-trans i j (r ∷ rs) h (a, bs) = (AtMost-lt i j r.id h a, After-trans i j rs h bs)

  UpTo-trans : (i j : d.ObjectId) (rs : List Row) → AtMost i j → UpTo i rs → UpTo j rs
  UpTo-trans i j [] h a = tt
  UpTo-trans i j (r ∷ rs) h (a, bs) = (AtMost-trans r.id i j a h, UpTo-trans i j rs h bs)

  UpTo-kept : (i : d.ObjectId) (rs : List Row) → UpTo i rs → UpTo i (map (kept_row d) rs)
  UpTo-kept i [] h = tt
  UpTo-kept i (r ∷ rs) (h, hs) = (h, UpTo-kept i rs hs)

  IsAscending-append :
      (i : d.ObjectId) (xs ys : List Row)
      → IsAscending d xs
      → IsAscending d ys
      → UpTo i xs
      → After i ys
      → IsAscending d (xs ++ ys)
  IsAscending-append i [] ys hx hy u a = hy
  IsAscending-append i (x ∷ xs) ys (h, hx) hy (u, us) a = (
    All-append (λ (y : Row). d.lt x.id y.id ≡ true) xs ys h (After-trans x.id i ys u a),
    IsAscending-append i xs ys hx hy us a,
  )

  module _ (match_regex : Bytes → Bytes → Bool) (db : Database d)
      (isdb : IsDatabase d match_regex db) (grow : IsGrowing d match_regex db isdb) where
    open grow use {last_id}

    -- The records of entries without identifiers, in order.
    drawn : List LogEntry → db.State → db.State × List Row
    drawn [] s = (s, [])
    drawn (e ∷ es) s =
        let rest = drawn es (db.new_id s).0 in
        (
          rest.0,
          record {
            id = (db.new_id s).1;
            host = e.host;
            container = e.container;
            pid = e.pid;
            msg = e.msg;
            ts = e.ts;
          }
              ∷ rest.1,
        )

    make_records-drawn :
        (es : List LogEntry) (s : db.State)
        → All (NoId d db) es
        → make_records d db es s ≡ drawn es s
    unfolding make_records make_mongo_entry drawn
    make_records-drawn [] s h = refl
    make_records-drawn (e ∷ es) s (h, hs) =
        ap
          (λ k.
            let new = if bytes_eq k [] then db.new_id s else (s, get_bid d k) in
            let rest = make_records d db es new.0 in
            let row : Row = record {
              id = if bytes_eq k [] then new.1 else get_bid d k;
              host = e.host;
              container = e.container;
              pid = e.pid;
              msg = e.msg;
              ts = e.ts;
            } in
            (rest.0, row ∷ rest.1))
          h
        ∙ ap
            (λ rest.
              let row : Row = record {
                id = (db.new_id s).1;
                host = e.host;
                container = e.container;
                pid = e.pid;
                msg = e.msg;
                ts = e.ts;
              } in
              (rest.0, row ∷ rest.1))
            (make_records-drawn es (db.new_id s).0 hs)

    -- What is drawn comes after the last identifier, in ascending order, and up to the new last one.
    record IsDrawn (s : db.State) (made : db.State × List Row) : Type 0 where
      before : grow.HasGrown s
      same : isdb.rows made.0 ≡ isdb.rows s
      grown : AtMost (last_id s) (last_id made.0)
      after : After (last_id s) made.1
      ascending : IsAscending d made.1
      up_to : UpTo (last_id made.0) made.1

    drawn-IsDrawn :
        (es : List LogEntry) (s : db.State) → grow.HasGrown (drawn es s).0 → IsDrawn s (drawn es s)
    unfolding drawn
    drawn-IsDrawn [] s h = record {
      before = h;
      same = refl;
      grown = inl refl;
      after = tt;
      ascending = tt;
      up_to = tt;
    }
    drawn-IsDrawn (e ∷ es) s h =
        let t = (db.new_id s).0 in
        let ih = drawn-IsDrawn es t h in
        let (before, later) = grow.grown-new_id s ih.before in
        let last = grow.last_id-new_id s in
        record {
          before = before;
          same = ih.same ∙ grow.rows-new_id s;
          grown =
              AtMost-trans (last_id s) (last_id t) _
                (inr (subst (λ i. d.lt (last_id s) i ≡ true) (sym last) later)) ih.grown;
          after = (
            later,
            After-trans (last_id s) (last_id t) (drawn es t).1
                (inr (subst (λ i. d.lt (last_id s) i ≡ true) (sym last) later)) ih.after,
          );
          ascending = (subst (λ i. After i (drawn es t).1) last ih.after, ih.ascending);
          up_to = (subst (λ i. AtMost i (last_id (drawn es t).0)) last ih.grown, ih.up_to);
        }

    -- No row of the collection is later than the last identifier, and the cached entry has none.
    pub record IsReady (m : Mongo d db) : Type 0 where
      pub ordered : UpTo (last_id m.state) (isdb.rows m.state)
      pub uncached : NoId d db m.last_published

    -- What the collection holds, but for the identifiers.
    abbrev pub logged : Mongo d db → List LogEntry
    logged m = map (λ r. content (make_log_entry d r)) (isdb.rows m.state)

    -- The state of the collection after a batch of entries without identifiers.
    publish-state :
        (es : List LogEntry) (m : Mongo d db)
        → All (NoId d db) es
        → let made = drawn es m.state in
          (publish d db es m).0.state ≡ (db.insert_many made.1 made.0).0
    unfolding publish
    publish-state es m h =
        after_insert-state d db es _ _ _
        ∙ ap (λ x. (db.insert_many x.1 x.0).0) (make_records-drawn es m.state h)

    publish-IsDrawn :
        (es : List LogEntry) (m : Mongo d db)
        → All (NoId d db) es
        → grow.HasGrown (publish d db es m).0.state
        → IsDrawn m.state (drawn es m.state)
    publish-IsDrawn es m h grown =
        let made = drawn es m.state in
        drawn-IsDrawn es m.state
          (grow.grown-insert_many made.1 made.0 (subst grow.HasGrown (publish-state es m h) grown))

    -- If identifiers have grown until after a batch, they had before it.
    pub publish-HasGrown :
        (es : List LogEntry) (m : Mongo d db)
        → All (NoId d db) es
        → grow.HasGrown (publish d db es m).0.state
        → grow.HasGrown m.state
    publish-HasGrown es m h grown = (publish-IsDrawn es m h grown).before

    publish-rows :
        (es : List LogEntry) (m : Mongo d db)
        → IsReady m
        → All (NoId d db) es
        → grow.HasGrown (publish d db es m).0.state
        → isdb.rows (publish d db es m).0.state
          ≡ isdb.rows m.state ++ map (kept_row d) (drawn es m.state).1
    publish-rows es m ready h grown =
        let made = drawn es m.state in
        let w = publish-IsDrawn es m h grown in
        let asc =
          IsAscending-append (last_id m.state) (isdb.rows m.state) made.1 (isdb.rows_ascend m.state)
            w.ascending ready.ordered w.after in
        ap isdb.rows (publish-state es m h)
        ∙ grow.rows-insert_many made.1 made.0
            (subst (λ rs. IsAscending d (rs ++ made.1)) (sym w.same) asc)
        ∙ ap (λ rs. rs ++ map (kept_row d) made.1) w.same

    pub publish-IsReady :
        (es : List LogEntry) (m : Mongo d db)
        → IsReady m
        → All (NoId d db) es
        → grow.HasGrown (publish d db es m).0.state
        → IsReady (publish d db es m).0
    unfolding publish
    publish-IsReady es m ready h grown =
        let made = drawn es m.state in
        let w = publish-IsDrawn es m h grown in
        let last = ap last_id (publish-state es m h) ∙ grow.last_id-insert_many made.1 made.0 in
        let both =
          All-append (λ (r : Row). AtMost r.id (last_id made.0)) (isdb.rows m.state)
            (map (kept_row d) made.1)
            (UpTo-trans (last_id m.state) (last_id made.0) (isdb.rows m.state) w.grown
              ready.ordered)
            (UpTo-kept (last_id made.0) made.1 w.up_to) in
        record {
          ordered =
              subst (λ i. UpTo i (isdb.rows (publish d db es m).0.state)) (sym last)
                (subst (UpTo (last_id made.0)) (sym (publish-rows es m ready h grown)) both);
          uncached = after_insert-NoId d db es _ _ _ h ready.uncached;
        }

    pub publish-logged :
        (es : List LogEntry) (m : Mongo d db)
        → IsReady m
        → All (NoId d db) es
        → grow.HasGrown (publish d db es m).0.state
        → logged (publish d db es m).0 ≡ logged m ++ map kept es
    publish-logged es m ready h grown =
        let f = λ (r : Row). content (make_log_entry d r) in
        ap (map f) (publish-rows es m ready h grown)
        ∙ map-append f (isdb.rows m.state) (map (kept_row d) (drawn es m.state).1)
        ∙ ap (λ t. logged m ++ t)
            (map-map f (kept_row d) (drawn es m.state).1
              ∙ ap (λ x. map (λ r. f (kept_row d r)) x.1) (sym (make_records-drawn es m.state h))
              ∙ make_records-kept d db es m.state)
