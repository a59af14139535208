-- ===== src/Core/Entry/Branches.antt =====
-- Which lines `NewEntry` accepts, and what holds of every entry that it makes.
use dkll.Base.{
  ℕ, ◌≤◌, ◌≡◌, ap, ◌∙◌, refl, true, false, none, some, List, [], ◌∷◌, ◌++◌, arith, ltb, ◌==◌, Bytes,
  codes, Bool-cases, subst, ==_refl, inl, inr, ◌↔◌, Lacks, All, length, cut, cut-Lacks, cut_found,
  split, split-All-Lacks, split-All, has_prefix,
}
use dkll.Core.{LogEntry, Time, zero_time}
use dkll.Core.Clock.{Location}
use dkll.Core.Entry.{
  Now, Timed, new_entry, parse_time, parse_rest, with_service, timed, untimed, fresh, first_part,
  line_too_short,
}

-- Two separators are found one after the other, wherever the first cut falls.
cut_found_once : (sep : ℕ) (s t : Bytes) → (cut (s ++ sep ∷ t) sep).2 ≡ true
unfolding cut
cut_found_once sep [] t = ground arith
cut_found_once sep (c ∷ s) t = ground (arith, cut_found_once sep s t)

cut_here : (sep c : ℕ) (s : Bytes) → (c == sep) ≡ true → (cut (c ∷ s) sep).1 ≡ s
unfolding cut
cut_here sep c s h = ground arith

cut_later : (sep c : ℕ) (s : Bytes) → (c == sep) ≡ false → (cut (c ∷ s) sep).1 ≡ (cut s sep).1
unfolding cut
cut_later sep c s h = ground arith

cut_found_twice :
    (sep : ℕ) (s t u : Bytes) → (cut (cut (s ++ sep ∷ (t ++ sep ∷ u)) sep).1 sep).2 ≡ true
cut_found_twice sep [] t u =
    rw (cut_here sep sep (t ++ sep ∷ u) (==_refl sep)) (cut_found_once sep t u)
cut_found_twice sep (c ∷ s) t u = elim (Bool-cases (c == sep)) [
  | inl e ↦ rw (cut_here sep c (s ++ sep ∷ (t ++ sep ∷ u)) e) (cut_found_once sep s (t ++ sep ∷ u))
  | inr e ↦ rw (cut_later sep c (s ++ sep ∷ (t ++ sep ∷ u)) e) (cut_found_twice sep s t u)
]

-- `host service msg`.
abbrev pub Fields : Bytes → Type 0
Fields rest =
    (host : Bytes) × (service : Bytes) × (msg : Bytes) × (rest ≡ host ++ 32 ∷ (service ++ 32 ∷ msg))

parse_rest_cuts :
    (e : LogEntry) (rest : Bytes)
    → (parse_rest e rest).1 ≡ none
    → ((cut rest 32).2 ≡ true) × ((cut (cut rest 32).1 32).2 ≡ true)
unfolding parse_rest
parse_rest_cuts e rest h = ground arith

parse_rest-Fields : (e : LogEntry) (rest : Bytes) → (parse_rest e rest).1 ≡ none → Fields rest
parse_rest-Fields e rest h =
    let (first, second) = parse_rest_cuts e rest h in
    (
      (cut rest 32).0,
      (cut (cut rest 32).1 32).0,
      (cut (cut rest 32).1 32).1,
      cut_found 32 rest first
          ∙ ap (λ t. (cut rest 32).0 ++ 32 ∷ t) (cut_found 32 (cut rest 32).1 second),
    )

Fields-parse_rest : (e : LogEntry) (rest : Bytes) → Fields rest → (parse_rest e rest).1 ≡ none
unfolding parse_rest
Fields-parse_rest e rest (host, service, msg, p) =
    rw (p, cut_found_once 32 host (service ++ 32 ∷ msg), cut_found_twice 32 host service msg)

module _ (clock : Now) (tz : Location) where
  abbrev pub Accepted : Bytes → Type 0
  Accepted line =
      (16 ≤ length line)
      × (ts : Time) × (rest : Bytes) × (parse_time clock tz line ≡ timed ts rest)
      × Fields rest

  accepts_from :
      (line : Bytes) (t : Timed)
      → parse_time clock tz line ≡ t
      → ltb (length line) 16 ≡ false
      → ((new_entry clock tz line).1 ≡ none) ↔ Accepted line
  unfolding new_entry
  accepts_from line (timed ts rest) p long = (
    λ h. (ground arith, ts, rest, p, parse_rest-Fields _ rest (rw (long, p) at h)),
    λ q. rw (long, p) (Fields-parse_rest _ rest (subst Fields (cc (q.3)) q.4)),
  )
  accepts_from line (untimed rest e) p long =
      (λ h. absurd (cc (rw (long, p) at h)), λ q. absurd (cc (q.3)))

  short_refused :
      (line : Bytes)
      → ltb (length line) 16 ≡ true
      → (new_entry clock tz line).1 ≡ some line_too_short
  unfolding new_entry
  short_refused line h = rw h

  -- `NewEntry` returns no error exactly if the line has 16 bytes or more, `parseTime` reads a time
  -- from it, and what it leaves of the line is a text, a space, a text, a space and a text.
  pub new_entry-accepts : (line : Bytes) → ((new_entry clock tz line).1 ≡ none) ↔ Accepted line
  new_entry-accepts line = elim (Bool-cases (ltb (length line) 16)) [
    | inl short ↦ (λ h. absurd (cc (short_refused line short)), λ q. absurd (ground arith))
    | inr long ↦ accepts_from line (parse_time clock tz line) refl long
  ]

-- A name of a container holds none of the bytes that end it.
pub record IsName (s : Bytes) : Type 0 where
  pub no_slash : Lacks b'/' s
  pub no_bracket : Lacks b'[' s
  pub no_space : Lacks b' ' s

-- What holds of each entry that is made, with an error or without.
pub record IsMade (clock : Now) (e : LogEntry) : Type 0 where
  pub no_id : e.id ≡ []
  pub host_word : Lacks b' ' e.host
  pub name : IsName e.container
  pub created : e.created_ts ≡ clock.now

first_part-All : (P : Bytes → Type 0) (ps : List Bytes) → P [] → All P ps → P (first_part ps)
first_part-All P [] h _ = h
first_part-All P (p ∷ ps) h k = k.0

first_part-IsName : (n : Bytes) → Lacks b'/' n → Lacks b' ' n → IsName (first_part (split n b'['))
first_part-IsName n h k = record {
  no_slash = first_part-All (Lacks b'/') _ tt (split-All b'[' b'/' n h);
  no_bracket = first_part-All (Lacks b'[') _ tt (split-All-Lacks b'[' n);
  no_space = first_part-All (Lacks b' ') _ tt (split-All b'[' b' ' n k);
}

with_service-IsMade :
    (clock : Now) (e : LogEntry) (parts : List Bytes)
    → IsMade clock e
    → All (Lacks b'/') parts
    → All (Lacks b' ') parts
    → IsMade clock (with_service e parts)
unfolding with_service
with_service-IsMade clock e [] m h k = m
with_service-IsMade clock e (s ∷ []) m h k = m
with_service-IsMade clock e (s ∷ n ∷ r) m h k = elim (Bool-cases (has_prefix s (codes "docker"))) [
  | inl d ↦ rw d (record {
    no_id = m.no_id;
    host_word = m.host_word;
    name = first_part-IsName n h.1.0 k.1.0;
    created = m.created;
  })
  | inr d ↦ rw d m
]

with_host-IsMade :
    (clock : Now) (e : LogEntry) (line : Bytes)
    → IsMade clock e
    → IsMade clock (record e { host = (cut line b' ').0 })
with_host-IsMade clock e line m = record {
  no_id = m.no_id;
  host_word = cut-Lacks b' ' line;
  name = m.name;
  created = m.created;
}

with_msg-IsMade :
    (clock : Now) (e : LogEntry) (msg : Bytes)
    → IsMade clock e
    → IsMade clock (record e { msg = msg })
with_msg-IsMade clock e msg m = record {
  no_id = m.no_id;
  host_word = m.host_word;
  name = m.name;
  created = m.created;
}

parse_rest-IsMade :
    (clock : Now) (e : LogEntry) (line : Bytes)
    → IsMade clock e
    → IsMade clock (parse_rest e line).0
unfolding parse_rest
parse_rest-IsMade clock e line m = elim (Bool-cases (cut line b' ').2) [
  | inr f ↦ rw f m
  | inl f ↦ elim (Bool-cases (cut (cut line b' ').1 b' ').2) [
    | inr g ↦ rw (f, g) (with_host-IsMade clock e line m)
    | inl g ↦
        let service = (cut (cut line b' ').1 b' ').0 in
        rw (f, g)
          (with_msg-IsMade clock _ _ (
            with_service-IsMade clock _ (split service b'/') (with_host-IsMade clock e line m)
              (split-All-Lacks b'/' service)
              (split-All b'/' b' ' service (cut-Lacks b' ' (cut line b' ').1))))
  ]
]

fresh-IsMade : (clock : Now) (ts : Time) → IsMade clock (fresh clock ts)
fresh-IsMade clock ts = record {
  no_id = refl;
  host_word = tt;
  name = record { no_slash = omega arith; no_bracket = omega arith; no_space = omega arith };
  created = refl;
}

module _ (clock : Now) (tz : Location) where
  new_entry-IsMade_from :
      (line : Bytes) (t : Timed)
      → parse_time clock tz line ≡ t
      → ltb (length line) 16 ≡ false
      → IsMade clock (new_entry clock tz line).0
  unfolding new_entry
  new_entry-IsMade_from line (timed ts rest) p long =
      rw (long, p) (parse_rest-IsMade clock _ rest (fresh-IsMade clock ts))
  new_entry-IsMade_from line (untimed rest e) p long = rw (long, p) (fresh-IsMade clock zero_time)

  -- Of a line of 16 bytes or more, accepted or not, `NewEntry` makes an entry with no id and the
  -- present time as its creation, whose host lacks a space and whose container lacks `/`, `[` and a
  -- space.
  pub new_entry-IsMade :
      (line : Bytes) → 16 ≤ length line → IsMade clock (new_entry clock tz line).0
  new_entry-IsMade line h =
      new_entry-IsMade_from line (parse_time clock tz line) refl (ground arith)
