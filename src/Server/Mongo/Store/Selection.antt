-- ===== src/Server/Mongo/Store/Selection.antt =====
-- What `Find` returns: the entries that the request admits, in ascending order.
use dkll.Base.{
  ℕ, zero, suc, ◌≡◌, ◌⊎◌, inl, inr, refl, ap, ◌∙◌, Bool, true, false, some, List, [], ◌∷◌, ◌++◌,
  map, reverse, take, keep, All, All-append, Bool-cases, if◌then◌else◌, Bytes, ℤ, pos, negsuc,
}
use mathlib.Core.Path.{fun_ext}
use mathlib.Core.List.{reverse-cons}
use dkll.Errors.{Error}
use dkll.Core.{Request}
use dkll.Server.Mongo.{Driver, IsDriver, MongoLogEntry, make_log_entry, is_first, millis}
use dkll.Server.Mongo.Query.{Bounds, Query, make_query}
use dkll.Server.Mongo.Query.Meaning.{matches, admits, matches-make_query}
use dkll.Server.Mongo.Store.{
  Direction, ascending, descending, Database, done, failed, sanitize_limit, Mongo, insert_sorted,
  sort_slice, is_seen, finish, search, find_entries,
}

-- How the database limits a result: 0 is no limit, and a negative limit counts as its size.
abbrev pub limited {ℓ} : {A : Type ℓ} → ℤ → List A → List A
limited (pos zero) l = l
limited (pos (suc n)) l = take (suc n) l
limited (negsuc n) l = take (suc n) l

module _ (d : Driver) where
  -- Each identifier is less than all that follow it.
  abbrev pub IsAscending : List (MongoLogEntry d) → Type 0
  IsAscending [] = Unit
  IsAscending (x ∷ xs) = All (λ (y : MongoLogEntry d). d.lt x.id y.id ≡ true) xs × IsAscending xs

  abbrev IsDescending : List (MongoLogEntry d) → Type 0
  IsDescending [] = Unit
  IsDescending (x ∷ xs) = All (λ (y : MongoLogEntry d). d.lt y.id x.id ≡ true) xs × IsDescending xs

  abbrev pub directed : Direction → List (MongoLogEntry d) → List (MongoLogEntry d)
  directed ascending l = l
  directed descending l = reverse l

  -- A query as the driver sends it, with times of whole milliseconds.
  abbrev pub sent_query : Query d → Query d
  sent_query q = record q { ts_gte = millis q.ts_gte; ts_lt = millis q.ts_lt }

  -- What the database documents of a collection: its entries in the order of their identifiers, and
  -- a search that gives those that match, in the direction asked for, up to the limit, or an error.
  pub record IsDatabase (match_regex : Bytes → Bytes → Bool) (db : Database d) : Type 0 where
    pub rows : db.State → List (MongoLogEntry d)
    pub rows_ascend : (s : db.State) → IsAscending (rows s)
    pub found :
        (q : Query d) (limit : ℤ) (dir : Direction) (s : db.State)
        → (db.find q limit dir s
            ≡ inl (
                limited limit
                  (directed dir (keep (matches d match_regex (sent_query q)) (rows s)))))
          ⊎ ((e : Error) × (db.find q limit dir s ≡ inr e))

module _ (d : Driver) (laws : IsDriver d) (db : Database d) where
  abbrev Entry : Type 0
  Entry = MongoLogEntry d

  abbrev Below : Entry → Entry → Type 0
  Below e y = d.lt y.id e.id ≡ true

  insert_sorted-last :
      (e : Entry) (xs : List Entry) → All (Below e) xs → insert_sorted d db e xs ≡ xs ++ e ∷ []
  unfolding insert_sorted
  insert_sorted-last e [] h = refl
  insert_sorted-last e (x ∷ xs) (h, hs) =
      rw (laws.show_order x.id e.id, h, insert_sorted-last e xs hs)

  All-reverse {κ} : (P : Entry → Type κ) (xs : List Entry) → All P xs → All P (reverse xs)
  All-reverse P [] h = tt
  All-reverse P (x ∷ xs) (h, hs) =
      rw reverse-cons (All-append P (reverse xs) (x ∷ []) (All-reverse P xs hs) (h, tt))

  -- The order that the search gave is turned round.
  sort_slice-reverse : (xs : List Entry) → IsDescending d xs → sort_slice d db xs ≡ reverse xs
  unfolding sort_slice
  sort_slice-reverse [] h = refl
  sort_slice-reverse (x ∷ xs) (h, hs) =
      rw (sort_slice-reverse xs hs, reverse-cons)
        (insert_sorted-last x (reverse xs) (All-reverse (Below x) xs h))

  pub All-keep {κ} :
      (P : Entry → Type κ) (p : Entry → Bool) (xs : List Entry) → All P xs → All P (keep p xs)
  All-keep P p [] h = tt
  All-keep P p (x ∷ xs) (h, hs) = elim (Bool-cases (p x)) [
    | inl e ↦ rw (e, All) (h, All-keep P p xs hs)
    | inr e ↦ rw (e, All) (All-keep P p xs hs)
  ]

  pub keep-IsAscending :
      (p : Entry → Bool) (xs : List Entry) → IsAscending d xs → IsAscending d (keep p xs)
  keep-IsAscending p [] h = tt
  keep-IsAscending p (x ∷ xs) (h, hs) = elim (Bool-cases (p x)) [
    | inl e ↦ rw (e, IsAscending) (All-keep _ p xs h, keep-IsAscending p xs hs)
    | inr e ↦ rw (e, IsAscending) (keep-IsAscending p xs hs)
  ]

  pub All-take {κ} : (P : Entry → Type κ) (n : ℕ) (xs : List Entry) → All P xs → All P (take n xs)
  All-take P zero xs h = tt
  All-take P (suc n) [] h = tt
  All-take P (suc n) (x ∷ xs) (h, hs) = (h, All-take P n xs hs)

  take-IsDescending : (n : ℕ) (xs : List Entry) → IsDescending d xs → IsDescending d (take n xs)
  take-IsDescending zero xs h = tt
  take-IsDescending (suc n) [] h = tt
  take-IsDescending (suc n) (x ∷ xs) (h, hs) =
      (All-take (Below x) n xs h, take-IsDescending n xs hs)

  limited-IsDescending :
      (l : ℤ) (xs : List Entry) → IsDescending d xs → IsDescending d (limited l xs)
  limited-IsDescending (pos zero) xs h = h
  limited-IsDescending (pos (suc n)) xs h = take-IsDescending (suc n) xs h
  limited-IsDescending (negsuc n) xs h = take-IsDescending (suc n) xs h

  snoc-IsDescending :
      (e : Entry) (xs : List Entry)
      → IsDescending d xs
      → All (λ (y : Entry). d.lt e.id y.id ≡ true) xs
      → IsDescending d (xs ++ e ∷ [])
  snoc-IsDescending e [] h k = (tt, tt)
  snoc-IsDescending e (x ∷ xs) (h, hs) (k, ks) =
      (All-append (Below x) xs (e ∷ []) h (k, tt), snoc-IsDescending e xs hs ks)

  reverse-IsDescending : (xs : List Entry) → IsAscending d xs → IsDescending d (reverse xs)
  reverse-IsDescending [] h = tt
  reverse-IsDescending (x ∷ xs) (h, hs) =
      rw reverse-cons
        (snoc-IsDescending x (reverse xs) (reverse-IsDescending xs hs) (All-reverse _ xs h))

  keep_same :
      (p q : Entry → Bool) (xs : List Entry) → ((e : Entry) → p e ≡ q e) → keep p xs ≡ keep q xs
  keep_same p q xs h = ap (λ f. keep f xs) (fun_ext h)

  -- The newest `limit` of the selected entries for a first request, or else the oldest, ascending in
  -- both cases.
  abbrev pub page : Bool → ℤ → List Entry → List Entry
  page true limit xs = reverse (limited limit (reverse xs))
  page false limit xs = limited limit xs

  pub make_query-limit :
      (bounds : Bounds) (r : Request) (l : ℤ)
      → make_query d bounds (record r { limit = l }) ≡ make_query d bounds r
  unfolding make_query
  make_query-limit bounds r l = refl

  module _ (match_regex : Bytes → Bytes → Bool) (isdb : IsDatabase d match_regex db) where
    abbrev selected : Bounds → Request → db.State → List Entry
    selected bounds r s = keep (admits d match_regex bounds r) (isdb.rows s)

    keep-matches :
        (bounds : Bounds) (r : Request) (q : Query d) (s : db.State)
        → make_query d bounds r ≡ some q
        → keep (matches d match_regex q) (isdb.rows s) ≡ selected bounds r s
    keep-matches bounds r q s h =
        keep_same _ _ (isdb.rows s) (λ e. matches-make_query d match_regex bounds r q e h)

    selected-IsAscending :
        (bounds : Bounds) (r : Request) (s : db.State) → IsAscending d (selected bounds r s)
    selected-IsAscending bounds r s = keep-IsAscending _ (isdb.rows s) (isdb.rows_ascend s)

    finish-page :
        (first : Bool) (l : ℤ) (xs : List Entry)
        → IsAscending d xs
        → finish d db first
            (inl (limited l (directed d (if first then descending else ascending) xs)))
          ≡ done (map (make_log_entry d) (page first l xs))
    unfolding finish
    finish-page true l xs h =
        ap (λ t. done (map (make_log_entry d) t))
          (sort_slice-reverse _ (limited-IsDescending l (reverse xs) (reverse-IsDescending xs h)))
    finish-page false l xs h = refl

    search-page :
        (m : Mongo d db) (bounds : Bounds) (r : Request) (q : Query d)
        → make_query d bounds r ≡ some q
        → sent_query d q ≡ q
        → (search d db bounds r m
            ≡ done (
                map
                  (make_log_entry d)
                  (page (is_first r.last_id) r.limit (selected bounds r m.state))))
          ⊎ ((e : Error) × (db.find q r.limit
                  (if is_first r.last_id then descending else ascending)
                  m.state
                ≡ inr e)
              × (search d db bounds r m ≡ failed e))
    unfolding search
    search-page m bounds r q h whole =
        let dir = if is_first r.last_id then descending else ascending in
        elim (isdb.found q r.limit dir m.state) [
          | inl f ↦ inl (
              rw (h, search, f, whole, keep-matches bounds r q m.state h)
                (finish-page (is_first r.last_id) r.limit _
                  (selected-IsAscending bounds r m.state)))
          | inr (e, f) ↦ inr (e, f, rw (search, h, f, finish) refl)
        ]

    -- Unless the caller has seen the last published entry, wherever the filters make a query, with bounds
    -- of time in whole milliseconds: `Find` returns, in ascending order, the entries of the collection
    -- that the request admits, the newest ones up to the sanitised limit for a first request and the
    -- oldest ones after the last seen entry otherwise; or the search of this query, with this limit and
    -- from the newest entry on for a first request and from the oldest on otherwise, gives an error, and
    -- `Find` returns that error.
    pub find_entries-page :
        (m : Mongo d db) (bounds : Bounds) (r : Request) (q : Query d)
        → is_seen d db (record r { limit = sanitize_limit r.limit }) m.last_published ≡ false
        → make_query d bounds r ≡ some q
        → sent_query d q ≡ q
        → (find_entries d db bounds r m
            ≡ done (
                map
                  (make_log_entry d)
                  (page (is_first r.last_id) (sanitize_limit r.limit) (selected bounds r m.state))))
          ⊎ ((e : Error) × (db.find q
                  (sanitize_limit r.limit)
                  (if is_first r.last_id then descending else ascending)
                  m.state
                ≡ inr e)
              × (find_entries d db bounds r m ≡ failed e))
    unfolding find_entries admits
    find_entries-page m bounds r q seen h whole =
        let r' = record r { limit = sanitize_limit r.limit } in
        rw seen
          (search-page m bounds r' q (make_query-limit bounds r (sanitize_limit r.limit) ∙ h) whole)
