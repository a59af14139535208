-- ===== src/Server/FileLogger/Delivery.antt =====
-- Every entry is delivered: `FileLogger.Write` over any list of entries, and its errors.
use dkll.Base.{
  ◌⊎◌, ◌≡◌, ◌≢◌, refl, sym, ap, subst, ◌∙◌, Option, none, some, List, [], ◌∷◌, ◌++◌, append-nil,
  append_assoc, if◌then◌else◌, Bytes, codes, Bool-cases, inl, inr, some_inj, ◌↔◌,
}
use dkll.Core.{Time, LogEntry}
use dkll.Core.Show.{show_entry}
use dkll.Errors.{MultiError, IsMultiError, collected_none}
use dkll.Server.FileLogger.{
  DkKey, key_eq, World, lookup, FileLogger, found_or_made, writer_of, write_entry, new_file_logger,
}
use dkll.Server.FileLogger.Routing.{
  IsLog, IsRouted, key_of, line_of, key_eq_refl, key_eq_sound, messages_of, merged_lines,
  write_entries, merged-IsRouted, own-IsRouted,
}

module _ (world : World) (errors : MultiError) (show_time : Time → Bytes) (w : IsLog world) where
  open world use {State, Writer, write, factory}

  abbrev Logger : Type 0
  Logger = FileLogger world errors show_time

  -- The logger with one more writer.
  abbrev with_writer : DkKey → Writer → Logger → Logger
  with_writer key v l = record l { writers = (key, v) ∷ l.writers }

  lookup-cons :
      {A : Type 0} (j k : DkKey) (v : A) (m : List (DkKey × A))
      → lookup k ((j, v) ∷ m) ≡ (if key_eq j k then some v else lookup k m)
  unfolding lookup
  lookup-cons j k v m = refl

  module _ (all : Bytes) (es : List LogEntry) (e : LogEntry) (l : Logger) (s : State)
      (r : IsRouted world errors show_time w all es l s)
      (new : lookup (key_of e) l.writers ≡ none) where
    abbrev made : State × Writer
    made = factory e.host e.container s

    abbrev grown : Logger
    grown = with_writer (key_of e) made.1 l

    -- A writer of the new logger is the new one, of the new key, or one of before.
    found_in_grown :
        (k : DkKey) (v : Writer)
        → lookup k grown.writers ≡ some v
        → ((key_of e ≡ k) × (made.1 ≡ v)) ⊎ (lookup k l.writers ≡ some v)
    found_in_grown k v h = elim (Bool-cases (key_eq (key_of e) k)) [
      | inl p ↦ inl (key_eq_sound (key_of e) k p, some_inj (rw (lookup-cons, p) at h))
      | inr p ↦ inr (rw (lookup-cons, p) at h)
    ]

    absent_in_grown : (k : DkKey) → lookup k grown.writers ≡ none → lookup k l.writers ≡ none
    absent_in_grown k h = elim (Bool-cases (key_eq (key_of e) k)) [
      | inl p ↦ absurd (cc (rw (lookup-cons, p) at h))
      | inr p ↦ rw (lookup-cons, p) at h
    ]

    old_ne_new : (k : DkKey) (v : Writer) → lookup k l.writers ≡ some v → made.1 ≢ v
    old_ne_new k v h = w.made_fresh e.host e.container v s (r.own_live k v h)

    grown_log :
        (k : DkKey) (v : Writer)
        → ((key_of e ≡ k) × (made.1 ≡ v)) ⊎ (lookup k l.writers ≡ some v)
        → w.log made.0 v ≡ messages_of k es
    grown_log k v (inl (p, q)) =
        ap (w.log made.0) (sym q)
        ∙ w.log-made e.host e.container s
        ∙ sym (r.no_writer (key_of e) new)
        ∙ ap (λ j. messages_of j es) p
    grown_log k v (inr h) =
        w.log-factory e.host e.container v s (r.own_live k v h) ∙ r.own_log k v h

    grown_live :
        (k : DkKey) (v : Writer)
        → ((key_of e ≡ k) × (made.1 ≡ v)) ⊎ (lookup k l.writers ≡ some v)
        → w.Live made.0 v
    grown_live k v (inl (p, q)) = subst (w.Live made.0) q (w.made-Live e.host e.container s)
    grown_live k v (inr h) = w.factory-Live e.host e.container v s (r.own_live k v h)

    grown_distinct :
        (k : DkKey) (v : Writer)
        → ((key_of e ≡ k) × (made.1 ≡ v)) ⊎ (lookup k l.writers ≡ some v)
        → l.merged ≢ v
    grown_distinct k v (inl (p, q)) =
        λ m. w.made_fresh e.host e.container l.merged s r.merged_live (q ∙ sym m)
    grown_distinct k v (inr h) = r.own_distinct k v h

    grown_one_key :
        (j k : DkKey) (v : Writer)
        → ((key_of e ≡ j) × (made.1 ≡ v)) ⊎ (lookup j l.writers ≡ some v)
        → ((key_of e ≡ k) × (made.1 ≡ v)) ⊎ (lookup k l.writers ≡ some v)
        → j ≡ k
    grown_one_key j k v (inl (p, _)) (inl (q, _)) = sym p ∙ q
    grown_one_key j k v (inl (_, p)) (inr h) = absurd (old_ne_new k v h p)
    grown_one_key j k v (inr h) (inl (_, p)) = absurd (old_ne_new j v h p)
    grown_one_key j k v (inr g) (inr h) = r.one_key j k v g h

    grown-IsRouted : IsRouted world errors show_time w all es grown made.0
    grown-IsRouted = record {
      merged_log = w.log-factory e.host e.container l.merged s r.merged_live ∙ r.merged_log;
      merged_live = w.factory-Live e.host e.container l.merged s r.merged_live;
      own_log = λ k v h. grown_log k v (found_in_grown k v h);
      own_live = λ k v h. grown_live k v (found_in_grown k v h);
      own_distinct = λ k v h. grown_distinct k v (found_in_grown k v h);
      no_writer = λ k h. r.no_writer k (absent_in_grown k h);
      one_key = λ j k v g h. grown_one_key j k v (found_in_grown j v g) (found_in_grown k v h);
    }

    grown_finds : lookup (key_of e) grown.writers ≡ some made.1
    grown_finds = rw (lookup-cons, key_eq_refl (key_of e))

  -- Getting the writer of an entry keeps the logs, and the writer is that of its key.
  module _ (all : Bytes) (es : List LogEntry) (e : LogEntry) (l : Logger) (s : State)
      (r : IsRouted world errors show_time w all es l s) where
    found_or_made-IsRouted :
        (o : Option Writer)
        → lookup (key_of e) l.writers ≡ o
        → let got = found_or_made world errors show_time e l s o in
          IsRouted world errors show_time w all es got.1 got.0
          × (lookup (key_of e) got.1.writers ≡ some got.2)
    unfolding found_or_made
    found_or_made-IsRouted none new =
        (grown-IsRouted all es e l s r new, grown_finds all es e l s r new)
    found_or_made-IsRouted (some wr) old = (r, old)

    writer_of-IsRouted :
        let got = writer_of world errors show_time e l s in
        IsRouted world errors show_time w all es got.1 got.0
        × (lookup (key_of e) got.1.writers ≡ some got.2)
    unfolding writer_of
    writer_of-IsRouted = found_or_made-IsRouted (lookup (key_of e) l.writers) refl

  write_entry-IsRouted :
      (all : Bytes) (es : List LogEntry) (e : LogEntry) (l : Logger) (s : State)
      → IsRouted world errors show_time w all es l s
      → IsRouted world errors show_time w
          (all ++ (show_entry show_time e ++ codes "\n"))
          (es ++ e ∷ [])
          (write_entry world errors show_time e l s).1
          (write_entry world errors show_time e l s).0
  unfolding write_entry
  write_entry-IsRouted all es e l s r =
      let line = show_entry show_time e ++ codes "\n" in
      let m = merged-IsRouted world errors show_time w all line es l s r in
      let g = writer_of-IsRouted (all ++ line) es e l (write l.merged line s).0 m in
      own-IsRouted world errors show_time w (all ++ line) es e
        (writer_of world errors show_time e l (write l.merged line s).0).2
        (writer_of world errors show_time e l (write l.merged line s).0).1
        (writer_of world errors show_time e l (write l.merged line s).0).0 g.1 g.0

  written-IsRouted :
      (all : Bytes) (done es : List LogEntry) (l : Logger) (s : State)
      → IsRouted world errors show_time w all done l s
      → let q = write_entries world errors show_time w es l s in
        IsRouted world errors show_time w
          (all ++ merged_lines world errors show_time w es)
          (done ++ es)
          q.1
          q.0
  unfolding write_entries merged_lines
  written-IsRouted all done [] l s r = rw (append-nil, append-nil) r
  written-IsRouted all done (e ∷ es) l s r =
      let line = show_entry show_time e ++ codes "\n" in
      rw
        (
          ← append_assoc all line (merged_lines world errors show_time w es),
          ← append_assoc done (e ∷ []) es,
        )
        (written-IsRouted (all ++ line) (done ++ e ∷ []) es
          (write_entry world errors show_time e l s).1 (write_entry world errors show_time e l s).0
          (write_entry-IsRouted all done e l s r))

  start-IsRouted :
      (m : Writer) (s : State)
      → w.Live s m
      → w.log s m ≡ []
      → IsRouted world errors show_time w [] [] (new_file_logger world errors show_time m) s
  unfolding new_file_logger lookup messages_of
  start-IsRouted m s live log = record {
    merged_log = log;
    merged_live = live;
    own_log = λ k v h. absurd (cc);
    own_live = λ k v h. absurd (cc);
    own_distinct = λ k v h. absurd (cc);
    no_writer = λ k h. refl;
    one_key = λ j k v g h. absurd (cc);
  }

  -- If the merged writer exists and nothing has been handed to it, then after any entries, whatever
  -- errors the writers report, it has been handed the line of each entry, in order; the writer of
  -- each host and container that has one has been handed the messages of the entries of that host and
  -- container, in order; one that has none had no entry; and no two keys share a writer, nor one of
  -- them the merged writer.
  pub write_entries-IsRouted :
      (m : Writer) (s : State) (es : List LogEntry)
      → w.Live s m
      → w.log s m ≡ []
      → let q =
          write_entries world errors show_time w es (new_file_logger world errors show_time m) s in
        IsRouted world errors show_time w (merged_lines world errors show_time w es) es q.1 q.0
  write_entries-IsRouted m s es live log =
      written-IsRouted [] [] es (new_file_logger world errors show_time m) s
        (start-IsRouted m s live log)

module _ (world : World) (errors : MultiError) (show_time : Time → Bytes)
    (laws : IsMultiError errors) where
  -- `Write` returns no error exactly if neither the merged writer nor the writer of the entry reports
  -- one, where the second writes whether or not the first failed.
  write_entry-error_iff :
      (e : LogEntry) (l : FileLogger world errors show_time) (s : world.State)
      → let all = world.write l.merged (show_entry show_time e ++ codes "\n") s in
        let got = writer_of world errors show_time e l all.0 in
        let own = world.write got.2 (line_of e) got.0 in
        ((write_entry world errors show_time e l s).2 ≡ none) ↔ ((all.1 ≡ none) × (own.1 ≡ none))
  unfolding write_entry
  write_entry-error_iff e l s = collected_none errors laws _ _
