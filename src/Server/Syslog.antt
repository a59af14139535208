-- ===== src/Server/Syslog.antt =====
-- app/server/syslog.go: the text of a message, and how it passes from the syslog server to the
-- forwarder. The sockets and the parts around a message are those of the package `go-syslog`.
pub mod Pipe
pub mod Passed
use dkll.Base.{
  ℕ, suc, drop, ◌≡◌, ◌⊎◌, length, drop-append, has_prefix-append, refl, true, false, ◌&&◌, Option,
  none, some, [], ◌∷◌, ◌++◌, ◌==◌, arith, if◌then◌else◌, Bytes, codes, has_prefix, contains, Lacks,
  Bool-cases, inl, inr,
}

abbrev after : Option ℕ → Option ℕ
after none = none
after (some n) = some (suc n)

-- strings.Index(s, c) for one byte
unfoldable pub index : Bytes → ℕ → Option ℕ
index [] c = none
index (a ∷ s) c = let rest = index s c in elim (a == c) [ true ↦ some 0 | false ↦ after rest ]

-- `origParser.Dump`: the message without a `<id>` in front.
unfoldable pub dump : Bytes → Bytes
dump s =
    if has_prefix s (codes "<") && contains s (codes ">")
    then elim (index s b'>') [ some pos ↦ drop (suc pos) s | none ↦ s ]
    else s

-- `<` and `>` around a text with no `>`.
abbrev pub tagged : Bytes → Bytes → Bytes
tagged id msg = b'<' ∷ (id ++ b'>' ∷ msg)

index-Lacks : (s t : Bytes) (c : ℕ) → Lacks c s → index (s ++ c ∷ t) c ≡ some (length s)
unfolding index
index-Lacks [] t c _ = ground arith
index-Lacks (a ∷ s) t c (h, k) = ground (arith, index-Lacks s t c k)

contains_byte : (s t : Bytes) (c : ℕ) → contains (s ++ c ∷ t) (c ∷ []) ≡ true
unfolding contains has_prefix
contains_byte [] t c = ground arith
contains_byte (a ∷ s) t c = ground (arith, contains_byte s t c)

contains_no_byte : (s : Bytes) (c : ℕ) → Lacks c s → contains s (c ∷ []) ≡ false
unfolding contains has_prefix
contains_no_byte [] c h = refl
contains_no_byte (a ∷ s) c (h, k) = ground (arith, contains_no_byte s c k)

-- The priority in angle brackets in front of a message is taken off, whatever the message is.
pub dump-tagged : (id msg : Bytes) → Lacks b'>' id → dump (tagged id msg) ≡ msg
unfolding dump
dump-tagged id msg h =
    let open_id = b'<' ∷ id in
    let lacks : Lacks b'>' open_id = (omega arith, h) in
    rw
      (
        has_prefix-append (codes "<") (id ++ b'>' ∷ msg),
        contains_byte open_id msg b'>',
        index-Lacks open_id msg b'>' lacks,
      )
      (drop-append (length open_id) open_id msg b'>' refl)

-- A message that does not begin with `<`, or that has no `>`, is passed on as it is.
pub dump-plain : (s : Bytes) → (has_prefix s (codes "<") ≡ false) ⊎ Lacks b'>' s → dump s ≡ s
unfolding dump
dump-plain s (inl h) = rw h
dump-plain s (inr h) = elim (Bool-cases (has_prefix s (codes "<"))) [
  | inl p ↦ rw (p, contains_no_byte s b'>' h)
  | inr p ↦ rw p
]
