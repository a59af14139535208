-- ===== src/Reading/Printed.antt =====
-- What a client prints that asks the handlers for the entries of a collection.
use dkll.Base.{
  ℕ, suc, ◌≡◌, ◌≢◌, ◌⊎◌, inl, inr, refl, ap, ap₂, sym, subst, ◌∙◌, Bool, false, ◌||◌, some, List,
  [], ◌∷◌, ◌++◌, map, take, keep, All, Bool-cases, if◌then◌else◌, Bytes, codes, ℤ, pos, eq_ℤ, ltb_ℤ,
}
use dkll.Errors.{Error}
use dkll.Core.{LogEntry, Request}
use dkll.Server.Mongo.{Driver, IsDriver, MongoLogEntry, get_bid, make_log_entry, is_first}
use dkll.Server.Mongo.Query.{Bounds, Query, make_query}
use dkll.Server.Mongo.Query.Meaning.{make_query-parts, admits}
use dkll.Server.Mongo.Store.{
  Database, done, failed, Mongo, sanitize_limit, Direction, ascending, descending, is_seen, finish,
  search, find_entries,
}
use dkll.Server.Mongo.Store.Published.{not_same, is_seen-NoId}
use dkll.Server.Mongo.Store.Selection.{
  make_query-limit, find_entries-page, page, limited, sent_query, All-keep, All-take, IsDatabase,
}
use dkll.Server.Rest.{clamp, find_ctrl}
use dkll.Client.{DisplayParams}
use dkll.Client.Pages.{IsPaged, asking}
use dkll.Reading.{Surroundings, coerced, IsWritable, IsJson, result, entries_of, post, at_handlers}
use dkll.Reading.After.{take-map, map-map, All-map, All-behind, map-split, wanted, selected-after}

-- The limit of the requests, once the handler and the store have seen it.
abbrev pub effective_limit : ℤ → Request → ℤ
effective_limit limit base = sanitize_limit (clamp limit base).limit

clamp-asking :
    (l : ℤ) (base : Request) (i : Bytes)
    → clamp l (asking base i) ≡ record (asking base i) { limit = (clamp l base).limit }
unfolding clamp
clamp-asking l base i = elim (Bool-cases (eq_ℤ base.limit (pos 0) || ltb_ℤ l base.limit)) [
  | inl e ↦ rw (e, clamp) refl
  | inr e ↦ rw (e, clamp) refl
]

module _ (d : Driver) (laws : IsDriver d) (match_regex : Bytes → Bytes → Bool) (db : Database d)
    (isdb : IsDatabase d match_regex db) (bounds : Bounds) (m : Mongo d db) (env : Surroundings)
    (json : IsJson d env) (limit : ℤ) where
  make_query-asking :
      (base : Request) (q : Query d) (i : Bytes)
      → make_query d bounds base ≡ some q
      → make_query d bounds (asking base i) ≡ some (record q { id_gt = get_bid d i })
  unfolding make_query
  make_query-asking base q i h =
      let (cs, hs, xs, p1, p2, p3, p4) = make_query-parts d match_regex bounds base q h in
      rw (p1, p2, p3) (ap (λ (t : Query d). some (record t { id_gt = get_bid d i })) p4)

  -- A collection that does not fail.
  abbrev pub Answers : Type 0
  Answers =
      (q : Query d) (l : ℤ) (dir : Direction) (s : db.State)
      → (xs : List (MongoLogEntry d)) × (db.find q l dir s ≡ inl xs)

  finish-Answers :
      (first : Bool) (r : List (MongoLogEntry d) ⊎ Error) (xs : List (MongoLogEntry d)) (e : Error)
      → r ≡ inl xs
      → finish d db first r ≢ failed e
  unfolding finish
  finish-Answers first (inl ys) xs e h = λ k. absurd cc
  finish-Answers first (inr x) xs e h = absurd cc

  find_entries-Answers :
      (r : Request) (q : Query d) (e : Error)
      → Answers
      → is_seen d db (record r { limit = sanitize_limit r.limit }) m.last_published ≡ false
      → make_query d bounds (record r { limit = sanitize_limit r.limit }) ≡ some q
      → find_entries d db bounds r m ≢ failed e
  unfolding find_entries search
  find_entries-Answers r q e answers seen h =
      let dir = if is_first r.last_id then descending else ascending in
      let (xs, k) = answers q (sanitize_limit r.limit) dir m.state in
      rw (seen, search, h) (finish-Answers (is_first r.last_id) _ xs e k)

  not_first : (i : d.ObjectId) → is_first (d.hex i) ≡ false
  not_first i =
      rw
        (
          not_same (d.hex i) [] (laws.hex-ne-nil i),
          not_same (d.hex i) (codes "0") (laws.hex-ne-zero i),
        )
        refl

  -- What the store gives for a request after an entry of the collection.
  find_entries-after :
      (base : Request) (q : Query d) (l : ℤ) (n : ℕ) (before : List (MongoLogEntry d))
      (x : MongoLogEntry d) (after : List (MongoLogEntry d))
      → Answers
      → m.last_published.id ≡ []
      → make_query d bounds base ≡ some q
      → sent_query d q ≡ q
      → sanitize_limit l ≡ pos (suc n)
      → keep (wanted d match_regex bounds base) (isdb.rows m.state) ≡ before ++ x ∷ after
      → find_entries d db bounds (record (asking base (d.hex x.id)) { limit = l }) m
        ≡ done (map (make_log_entry d) (take (suc n) after))
  unfolding admits
  find_entries-after base q l n before x after answers uncached h whole hl split =
      let req = record (asking base (d.hex x.id)) { limit = l } in
      let hq = make_query-asking base q (d.hex x.id) h in
      let whole' = ap (λ (t : Query d). record t { id_gt = get_bid d (d.hex x.id) }) whole in
      let q' : Query d = record q { id_gt = get_bid d (d.hex x.id) } in
      let seen =
        is_seen-NoId d db (record req { limit = sanitize_limit l }) m.last_published uncached in
      let mq = make_query-limit d laws db bounds (asking base (d.hex x.id)) l ∙ hq in
      let mq' =
        make_query-limit d laws db bounds (asking base (d.hex x.id)) (sanitize_limit l) ∙ hq in
      elim (find_entries-page d laws db match_regex isdb m bounds req q' seen mq whole') [
        | inr (e, broken, k) ↦ absurd (find_entries-Answers req q' e answers seen mq' k)
        | inl k ↦
            k
            ∙ ap (λ t. done (map (make_log_entry d) t))
                (ap
                    (λ b. page d laws db b (sanitize_limit l) (
                      keep (admits d match_regex bounds (asking base (d.hex x.id)))
                        (isdb.rows m.state)))
                    (not_first x.id)
                  ∙ ap₂ limited hl (
                      selected-after d laws match_regex db isdb bounds base m.state before x after
                        split))
      ]

  post-asking :
      (base : Request) (i : Bytes) (rs : List LogEntry)
      → env.decode (env.encode (asking base i)) ≡ inl (asking base i)
      → find_entries d db bounds (record (asking base i) { limit = (clamp limit base).limit }) m
        ≡ done rs
      → All IsWritable rs
      → post d db bounds m env limit (asking base i) ≡ inl (map (coerced env) rs)
  unfolding post find_ctrl result entries_of
  post-asking base i rs h k writable =
      let (b, written, read) = json.reads rs writable in
      rw (h, clamp-asking limit base i, k, entries_of, written) read

  -- An entry of the collection, as the client gets it.
  abbrev pub given : MongoLogEntry d → LogEntry
  given r = coerced env (make_log_entry d r)

  -- The wanted entries, as the client gets them.
  abbrev pub wanted_entries : Request → List LogEntry
  wanted_entries base = map given (keep (wanted d match_regex bounds base) (isdb.rows m.state))

  module _ (base : Request) (q : Query d) (n : ℕ)
      (round : (i : Bytes) → env.decode (env.encode (asking base i)) ≡ inl (asking base i))
      (answers : Answers) (uncached : m.last_published.id ≡ [])
      (query : make_query d bounds base ≡ some q) (whole : sent_query d q ≡ q)
      (positive : effective_limit limit base ≡ pos (suc n))
      (writable : All (λ r. IsWritable (make_log_entry d r)) (isdb.rows m.state)) where
    -- The handlers over the store are a server with pages: its entries are the wanted ones.
    pub at_handlers-IsPaged :
        (c : DisplayParams)
        → IsPaged (at_handlers d db bounds m env limit) c base (wanted_entries base) n
    unfolding make_log_entry
    at_handlers-IsPaged c = record {
      pages = λ w pre e after h.
          let kept = keep (wanted d match_regex bounds base) (isdb.rows m.state) in
          let (before, x, rest, split, same, tail) = map-split given kept pre e after h in
          let found =
            find_entries-after base q (clamp limit base).limit n before x rest answers uncached
              query whole positive split in
          let fine : List (MongoLogEntry d) → Type 0 = All (λ r. IsWritable (make_log_entry d r)) in
          let readable = All-take d laws db _ (suc n) rest (
            All-behind _ before x rest
              (subst fine split (All-keep d laws db _ _ (isdb.rows m.state) writable))) in
          let answer =
            post-asking base (d.hex x.id) _ (round (d.hex x.id)) found
              (All-map IsWritable (make_log_entry d) (take (suc n) rest) readable) in
          let page =
            map-map (coerced env) (make_log_entry d) (take (suc n) rest)
            ∙ take-map given (suc n) rest
            ∙ ap (take (suc n)) tail in
          let id_of = sym (ap (λ (k : LogEntry). k.id) same) ∙ json.hex_kept x.id in
          ap (λ i. (w, post d db bounds m env limit (asking base i))) id_of
          ∙ ap (λ r. (w, r)) (answer ∙ ap inl page);
      not_cancelled = λ w. refl;
    }
