-- ===== src/Server/Mongo/Query/Meaning.antt =====
-- What a query selects: the document that `makeQuery` builds against the request, filter by filter.
use dkll.Base.{
  ◌-◌, ◌≡◌, refl, sym, ap, ap₂, ◌∙◌, Bool, true, false, not, ◌&&◌, ◌||◌, Option, none, some, List,
  [], ◌∷◌, leb, ltb, arith, if◌then◌else◌, Bytes, codes, length, take, drop, has_prefix, has_suffix,
  bytes_eq, Option-cases, inl, inr, some_inj,
}
use dkll.Core.{is_zero, Request}
use dkll.Server.Mongo.{Driver, MongoLogEntry, get_bid}
use dkll.Server.Mongo.Query.{
  Pattern, exact, regex, convert_one, convert_list, Choice, Bounds, Query, among_of, exclude,
  make_query,
}

convert_list-cons :
    (t : Bytes) (ts : List Bytes) (ps : List Pattern)
    → convert_list (t ∷ ts) ≡ some ps
    → (p : Pattern) × (qs : List Pattern) × (convert_one t ≡ some p)
      × (convert_list ts ≡ some qs)
      × (ps ≡ p ∷ qs)
unfolding convert_list
convert_list-cons t ts ps h = elim (Option-cases (convert_one t)) [
  | inl e ↦ absurd (cc (rw e at h))
  | inr (p, e) ↦ elim (Option-cases (convert_list ts)) [
    | inl f ↦ absurd (cc (rw (e, f) at h))
    | inr (qs, f) ↦ (p, qs, e, f, sym (some_inj (rw (e, f) at h)))
  ]
]

-- How the database reads a pattern; regular expressions are its own.
module _ (match_regex : Bytes → Bytes → Bool) where
  pub pattern_ok : Pattern → Bytes → Bool
  pattern_ok (exact s) v = bytes_eq s v
  pattern_ok (regex p) v = match_regex p v

  pub any_ok : List Pattern → Bytes → Bool
  unfolding pattern_ok
  any_ok [] v = false
  any_ok (p ∷ ps) v = pattern_ok p v || any_ok ps v

  abbrev among_ok : Option (List Pattern) → Bytes → Bool
  among_ok none v = true
  among_ok (some ps) v = any_ok ps v

  abbrev outside_ok : Option (List Pattern) → Bytes → Bool
  outside_ok none v = true
  outside_ok (some ps) v = not (any_ok ps v)

  abbrev choice_ok : Option Choice → Bytes → Bool
  choice_ok none v = true
  choice_ok (some c) v = among_ok c.among v && outside_ok c.outside v

  -- One text of a request: `/regex/`, or the value itself.
  pub says : Bytes → Bytes → Bool
  says t v =
      if has_prefix t (codes "/") && has_suffix t (codes "/")
      then match_regex (take (length t - 2) (drop 1 t)) v
      else bytes_eq t v

  unfoldable pub listed : List Bytes → Bytes → Bool
  unfolding says
  listed [] v = false
  listed (t ∷ ts) v = says t v || listed ts v

  -- A filter that is not given lets everything through.
  abbrev pub any_or_listed : List Bytes → Bytes → Bool
  any_or_listed [] v = true
  any_or_listed (t ∷ ts) v = listed (t ∷ ts) v

  convert_one-says :
      (t v : Bytes) (p : Pattern) → convert_one t ≡ some p → pattern_ok p v ≡ says t v
  unfolding convert_one pattern_ok says
  convert_one-says t v p h = ground arith

  convert_list-listed :
      (ts : List Bytes) (v : Bytes) (ps : List Pattern)
      → convert_list ts ≡ some ps
      → any_ok ps v ≡ listed ts v
  unfolding any_ok listed
  convert_list-listed [] v ps h = unfold convert_list any_ok in rw (← some_inj h)
  convert_list-listed (t ∷ ts) v ps h =
      let (p, qs, e, es, eq) = convert_list-cons t ts ps h in
      rw eq (ap₂ ◌||◌ (convert_one-says t v p e) (convert_list-listed ts v qs es))

  -- The excludes let through what none of them says.
  abbrev pub unlisted : List Bytes → Bytes → Bool
  unlisted ts v = not (listed ts v)

  and_true : (b : Bool) → (b && true) ≡ b
  and_true b = ground arith

  and_assoc : (a b c : Bool) → ((a && b) && c) ≡ (a && (b && c))
  and_assoc a b c = ground arith

-- A condition that excludes nothing yet.
abbrev IsOpen : Option Choice → Type 0
IsOpen none = Unit {0}
IsOpen (some c) = c.outside ≡ none

module _ (d : Driver) (match_regex : Bytes → Bytes → Bool) where
  among_of-listed :
      (ts : List Bytes) (v : Bytes) (c : Option Choice)
      → among_of d ts ≡ some c
      → (choice_ok match_regex c v ≡ any_or_listed match_regex ts v) × IsOpen c
  unfolding among_of
  among_of-listed [] v c h = rw (← some_inj h) (refl, tt)
  among_of-listed (t ∷ ts) v c h = elim (Option-cases (convert_list (t ∷ ts))) [
    | inl e ↦ absurd (cc (rw e at h))
    | inr (ps, e) ↦
        rw (← some_inj (rw e at h))
          (and_true match_regex _ ∙ convert_list-listed match_regex (t ∷ ts) v ps e, refl)
  ]

  exclude-unlisted :
      (ts : List Bytes) (v : Bytes) (c c' : Option Choice)
      → IsOpen c
      → exclude d ts c ≡ some c'
      → choice_ok match_regex c' v ≡ (choice_ok match_regex c v && unlisted match_regex ts v)
  unfolding exclude listed
  exclude-unlisted [] v c c' o h = rw (← some_inj h) (sym (and_true match_regex _))
  exclude-unlisted (t ∷ ts) v none c' o h = elim (Option-cases (convert_list (t ∷ ts))) [
    | inl e ↦ absurd (cc (rw e at h))
    | inr (ps, e) ↦
        rw (← some_inj (rw e at h)) (ap not (convert_list-listed match_regex (t ∷ ts) v ps e))
  ]
  exclude-unlisted (t ∷ ts) v (some c) c' o h = elim (Option-cases (convert_list (t ∷ ts))) [
    | inl e ↦ absurd (cc (rw e at h))
    | inr (ps, e) ↦
        rw (← some_inj (rw e at h), o)
          (ap₂ ◌&&◌ (sym (and_true match_regex _))
            (ap not (convert_list-listed match_regex (t ∷ ts) v ps e)))
  ]

  -- How the database reads a document of `makeQuery`.
  pub matches : Query d → MongoLogEntry d → Bool
  matches q e =
      d.lt q.id_gt e.id
      && (leb q.ts_gte e.ts
          && (ltb e.ts q.ts_lt
              && (choice_ok match_regex q.container e.container
                  && choice_ok match_regex q.host e.host)))

  -- What a request asks for: an entry after the last one that was seen, in the range of time, or from
  -- 2000 on and before 2100, of the containers and the hosts if any are given, and of no excluded
  -- container.
  unfoldable pub admits : Bounds → Request → MongoLogEntry d → Bool
  admits bounds r e =
      d.lt (get_bid d r.last_id) e.id
      && (leb (if is_zero r.from_ts then bounds.year_2000 else r.from_ts) e.ts
          && (ltb e.ts (if is_zero r.to_ts then bounds.year_2100 else r.to_ts)
              && ((any_or_listed match_regex r.containers e.container
                    && unlisted match_regex r.excludes e.container)
                  && any_or_listed match_regex r.hosts e.host)))

  pub make_query-parts :
      (bounds : Bounds) (r : Request) (q : Query d)
      → make_query d bounds r ≡ some q
      → (cs : Option Choice) × (hs : Option Choice) × (xs : Option Choice) × (among_of d
            r.containers
          ≡ some cs)
        × (among_of d r.hosts ≡ some hs)
        × (exclude d r.excludes cs ≡ some xs)
        × (record {
          id_gt = get_bid d r.last_id;
          ts_gte = if is_zero r.from_ts then bounds.year_2000 else r.from_ts;
          ts_lt = if is_zero r.to_ts then bounds.year_2100 else r.to_ts;
          container = xs;
          host = hs;
        }
            ≡ q)
  unfolding make_query
  make_query-parts bounds r q h = elim (Option-cases (among_of d r.containers)) [
    | inl e ↦ absurd (cc (rw e at h))
    | inr (cs, e) ↦ elim (Option-cases (among_of d r.hosts)) [
      | inl f ↦ absurd (cc (rw (e, f) at h))
      | inr (hs, f) ↦ elim (Option-cases (exclude d r.excludes cs)) [
        | inl g ↦ absurd (cc (rw (e, f, g) at h))
        | inr (xs, g) ↦ (cs, hs, xs, e, f, g, some_inj (rw (e, f, g) at h))
      ]
    ]
  ]

  -- Wherever `makeQuery` does not panic, its document selects the entries that the request admits.
  pub matches-make_query :
      (bounds : Bounds) (r : Request) (q : Query d) (e : MongoLogEntry d)
      → make_query d bounds r ≡ some q
      → matches q e ≡ admits bounds r e
  unfolding matches admits
  matches-make_query bounds r q e h =
      let (cs, hs, xs, p1, p2, p3, p4) = make_query-parts bounds r q h in
      let among = among_of-listed r.containers e.container cs p1 in
      rw (
        ← p4,
        exclude-unlisted r.excludes e.container cs xs among.1 p3,
        among.0,
        (among_of-listed r.hosts e.host hs p2).0,
      )
