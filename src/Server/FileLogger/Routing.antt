-- ===== src/Server/FileLogger/Routing.antt =====
-- Where the entries go: all to the merged log, and each to the log of its host and container.
use dkll.Base.{
  ◌≡◌, ◌≢◌, sym, ap, ◌∙◌, Bool, true, ◌&&◌, none, some, List, [], ◌∷◌, ◌++◌, append-nil,
  append_assoc, if◌then◌else◌, Bytes, codes, bytes_eq_refl, bytes_eq_sound, arith, Bool-cases, inl,
  inr, some_inj,
}
use dkll.Core.{Time, LogEntry}
use dkll.Core.Show.{show_entry}
use dkll.Errors.{MultiError}
use dkll.Server.FileLogger.{DkKey, key_eq, World, lookup, FileLogger, write_entry}

-- The log of a writer is what has been handed to it since it was made. `Live` writers exist.
pub record IsLog (world : World) : Type 1 where
  pub Live : world.State → world.Writer → Type 0
  pub log : world.State → world.Writer → Bytes
  pub log-write :
      (w : world.Writer) (b : Bytes) (s : world.State) → log (world.write w b s).0 w ≡ log s w ++ b
  pub log-write_ne :
      (w v : world.Writer) (b : Bytes) (s : world.State)
      → w ≢ v
      → log (world.write w b s).0 v ≡ log s v
  pub write-Live :
      (w v : world.Writer) (b : Bytes) (s : world.State) → Live s v → Live (world.write w b s).0 v
  pub log-factory :
      (h c : Bytes) (v : world.Writer) (s : world.State)
      → Live s v
      → log (world.factory h c s).0 v ≡ log s v
  pub factory-Live :
      (h c : Bytes) (v : world.Writer) (s : world.State) → Live s v → Live (world.factory h c s).0 v
  pub made-Live :
      (h c : Bytes) (s : world.State) → Live (world.factory h c s).0 (world.factory h c s).1
  pub made_fresh :
      (h c : Bytes) (v : world.Writer) (s : world.State) → Live s v → (world.factory h c s).1 ≢ v
  pub log-made :
      (h c : Bytes) (s : world.State) → log (world.factory h c s).0 (world.factory h c s).1 ≡ []

pub key_eq_refl : (k : DkKey) → key_eq k k ≡ true
unfolding key_eq
key_eq_refl k = rw (bytes_eq_refl k.host, bytes_eq_refl k.container)

and_both : (a b : Bool) → (a && b) ≡ true → (a ≡ true) × (b ≡ true)
and_both a b h = ground arith

pub key_eq_sound : (j k : DkKey) → key_eq j k ≡ true → j ≡ k
unfolding key_eq
key_eq_sound j k h =
    let (p, q) = and_both _ _ h in
    let hp = bytes_eq_sound j.host k.host p in
    let cp = bytes_eq_sound j.container k.container q in
    λ i. record { host = hp i; container = cp i }

abbrev pub key_of : LogEntry → DkKey
key_of e = record { host = e.host; container = e.container }

abbrev pub line_of : LogEntry → Bytes
line_of e = e.msg ++ codes "\n"

-- The messages of the entries of a key, one to a line.
unfoldable pub messages_of : DkKey → List LogEntry → Bytes
messages_of k [] = []
messages_of k (e ∷ es) =
    let rest = messages_of k es in if key_eq (key_of e) k then line_of e ++ rest else rest

messages_of-snoc :
    (k : DkKey) (es : List LogEntry) (e : LogEntry)
    → messages_of k (es ++ e ∷ [])
      ≡ (if key_eq (key_of e) k then messages_of k es ++ line_of e else messages_of k es)
unfolding messages_of
messages_of-snoc k [] e = elim (Bool-cases (key_eq (key_of e) k)) [
  | inl p ↦ rw (p, append-nil)
  | inr p ↦ rw p
]
messages_of-snoc k (x ∷ es) e =
    ground (arith, messages_of-snoc k es e, append_assoc (line_of x) (messages_of k es) (line_of e))

module _ (world : World) (errors : MultiError) (show_time : Time → Bytes) (w : IsLog world) where
  open world use {State, Writer, write, factory}

  -- The lines of the merged log.
  unfoldable pub merged_lines : List LogEntry → Bytes
  merged_lines [] = []
  merged_lines (e ∷ es) = (show_entry show_time e ++ codes "\n") ++ merged_lines es

  -- `Write` of each entry in turn; the errors are for the caller.
  unfoldable pub write_entries :
      List LogEntry
      → FileLogger world errors show_time
      → State
      → State × FileLogger world errors show_time
  write_entries [] l s = (s, l)
  write_entries (e ∷ es) l s =
      let r = write_entry world errors show_time e l s in write_entries es r.1 r.0

  -- The merged log holds `all`, and the writer of each key the messages of that key among `es`.
  pub record IsRouted (all : Bytes) (es : List LogEntry) (l : FileLogger world errors show_time)
      (s : State) : Type 0 where
    pub merged_log : w.log s l.merged ≡ all
    pub merged_live : w.Live s l.merged
    pub own_log :
        (k : DkKey) (v : Writer) → lookup k l.writers ≡ some v → w.log s v ≡ messages_of k es
    pub own_live : (k : DkKey) (v : Writer) → lookup k l.writers ≡ some v → w.Live s v
    pub own_distinct : (k : DkKey) (v : Writer) → lookup k l.writers ≡ some v → l.merged ≢ v
    pub no_writer : (k : DkKey) → lookup k l.writers ≡ none → messages_of k es ≡ []
    pub one_key :
        (j k : DkKey) (v : Writer)
        → lookup j l.writers ≡ some v
        → lookup k l.writers ≡ some v
        → j ≡ k

  pub merged-IsRouted :
      (all line : Bytes) (es : List LogEntry) (l : FileLogger world errors show_time) (s : State)
      → IsRouted all es l s
      → IsRouted (all ++ line) es l (write l.merged line s).0
  merged-IsRouted all line es l s r = record {
    merged_log = w.log-write l.merged line s ∙ ap (λ t. t ++ line) r.merged_log;
    merged_live = w.write-Live l.merged l.merged line s r.merged_live;
    own_log = λ k v h. w.log-write_ne l.merged v line s (r.own_distinct k v h) ∙ r.own_log k v h;
    own_live = λ k v h. w.write-Live l.merged v line s (r.own_live k v h);
    own_distinct = r.own_distinct;
    no_writer = r.no_writer;
    one_key = r.one_key;
  }

  own_messages :
      (es : List LogEntry) (e : LogEntry) (k : DkKey) (v wr : Writer)
      (l : FileLogger world errors show_time) (s : State) (all : Bytes)
      → IsRouted all es l s
      → lookup (key_of e) l.writers ≡ some wr
      → lookup k l.writers ≡ some v
      → w.log (write wr (line_of e) s).0 v ≡ messages_of k (es ++ e ∷ [])
  own_messages es e k v wr l s all r found h = elim (Bool-cases (key_eq (key_of e) k)) [
    | inl p ↦
        let same : wr ≡ v =
          some_inj (sym found ∙ ap (λ j. lookup j l.writers) (key_eq_sound (key_of e) k p) ∙ h) in
        rw (messages_of-snoc k es e, p)
          (ap (λ u. w.log (write wr (line_of e) s).0 u) (sym same)
            ∙ w.log-write wr (line_of e) s
            ∙ ap (λ t. t ++ line_of e) (ap (w.log s) same ∙ r.own_log k v h))
    | inr p ↦
        rw (messages_of-snoc k es e, p)
          (w.log-write_ne wr v (line_of e) s
              (λ q. cc (p, key_eq_refl k, r.one_key (key_of e) k v (found ∙ ap some q) h))
            ∙ r.own_log k v h)
  ]

  pub own-IsRouted :
      (all : Bytes) (es : List LogEntry) (e : LogEntry) (wr : Writer)
      (l : FileLogger world errors show_time) (s : State)
      → lookup (key_of e) l.writers ≡ some wr
      → IsRouted all es l s
      → IsRouted all (es ++ e ∷ []) l (write wr (line_of e) s).0
  own-IsRouted all es e wr l s found r = record {
    merged_log =
        w.log-write_ne wr l.merged (line_of e) s (λ q. r.own_distinct (key_of e) wr found (sym q))
        ∙ r.merged_log;
    merged_live = w.write-Live wr l.merged (line_of e) s r.merged_live;
    own_log = λ k v h. own_messages es e k v wr l s all r found h;
    own_live = λ k v h. w.write-Live wr v (line_of e) s (r.own_live k v h);
    own_distinct = r.own_distinct;
    no_writer = λ k h. elim (Bool-cases (key_eq (key_of e) k)) [
      | inl p ↦ absurd (cc (found, h, key_eq_sound (key_of e) k p))
      | inr p ↦ rw (messages_of-snoc k es e, p) (r.no_writer k h)
    ];
    one_key = r.one_key;
  }
