-- ===== src/Server/Forwarder/Order.antt =====
-- What the forwarder delivers, and in which order.
use dkll.Base.{
  ◌≤◌, ◌<◌, ◌≡◌, refl, sym, ap, ◌∙◌, false, Option, none, some, List, [], ◌∷◌, ◌++◌, append_assoc,
  append-nil, leb, arith, length, length-append, concat, concat-append, All, All-append, Bool-cases,
  inl, inr,
}
use dkll.Core.{LogEntry}
use dkll.Core.Entry.{EntryError, new_entry}
use dkll.Server.Forwarder.{
  Sinks, batch_cap, RunState, idle, sending, Forwarder, write_all, flush, write_buff, receive,
  handle, accept, Step, line, send, message, tick, cancel, end_writer, end_run, Reach, here, next,
  start,
}

-- The entry that `Run` holds.
abbrev pub pending : RunState → List LogEntry
pending (sending e) = e ∷ []
pending _ = []

-- The entry that a result of `NewEntry` brings.
abbrev pub entries : LogEntry × Option EntryError → List LogEntry
entries (e, none) = e ∷ []
entries (e, some _) = []

-- A batch is not empty, and holds at most 1000 entries.
abbrev pub IsBatch : List LogEntry → Type 0
IsBatch b = (1 ≤ length b) × (length b ≤ batch_cap)

module _ (sinks : Sinks) where
  open sinks use {Store, Files, publish, write}

  unfoldable pub publish_all : List (List LogEntry) → Store → Store
  publish_all [] store = store
  publish_all (b ∷ bs) store = publish_all bs (publish b store).0

  -- The entries of the lines that were accepted on the way, in order.
  abbrev pub line_entries : {f g : Forwarder sinks} → Step sinks f g → List LogEntry
  line_entries (line clock tz text _) = entries (new_entry clock tz text)
  line_entries _ = []

  abbrev pub accepted : {f g : Forwarder sinks} → Reach sinks f g → List LogEntry
  accepted here = []
  accepted (next r st) = accepted r ++ line_entries st

  publish_all-append :
      (bs cs : List (List LogEntry)) (store : Store)
      → publish_all (bs ++ cs) store ≡ publish_all cs (publish_all bs store)
  unfolding publish_all
  publish_all-append [] cs store = refl
  publish_all-append (b ∷ bs) cs store = publish_all-append bs cs (publish b store).0

  write_all-append :
      (rs ss : List LogEntry) (files : Files)
      → write_all sinks (rs ++ ss) files ≡ write_all sinks ss (write_all sinks rs files)
  unfolding write_all
  write_all-append [] ss files = refl
  write_all-append (r ∷ rs) ss files = write_all-append rs ss (write r files).0

  -- Of the entries `sent`, the batches have been published and written, in order, and the rest is
  -- in the buffer, in the channel, and in the hands of `Run`.
  pub record IsDelivered (store : Store) (files : Files) (sent : List LogEntry)
      (f : Forwarder sinks) : Type 0 where
    pub batches : List (List LogEntry)
    pub sized : All IsBatch batches
    pub published : f.store ≡ publish_all batches store
    pub written : f.files ≡ write_all sinks (concat batches) files
    pub ordered : sent ≡ concat batches ++ (f.buffer ++ (f.messages ++ pending f.run))

  regroup :
      (bs : List (List LogEntry)) (b rest : List LogEntry)
      → concat bs ++ (b ++ rest) ≡ concat (bs ++ b ∷ []) ++ rest
  regroup bs b rest = simp (concat-append bs (b ∷ []), append_assoc, append-nil)

  module _ (store : Store) (files : Files) (sent : List LogEntry) where
    flush-IsDelivered :
        (b : List LogEntry) (f : Forwarder sinks)
        → f.buffer ≡ b
        → length b ≤ batch_cap
        → IsDelivered store files sent f
        → IsDelivered store files sent (flush sinks b f)
    unfolding flush publish_all
    flush-IsDelivered [] f e h d = d
    flush-IsDelivered (r ∷ rs) f e h d = record {
      batches = d.batches ++ (r ∷ rs) ∷ [];
      sized = All-append IsBatch d.batches _ d.sized ((omega arith, h), tt);
      published =
          ap (λ s. (publish (r ∷ rs) s).0) d.published
          ∙ sym (publish_all-append d.batches ((r ∷ rs) ∷ []) store);
      written =
          ap (write_all sinks (r ∷ rs)) d.written
          ∙ sym (write_all-append (concat d.batches) (r ∷ rs) files)
          ∙ ap (λ t. write_all sinks t files)
              (sym (
                concat-append d.batches ((r ∷ rs) ∷ [])
                ∙ ap (λ t. concat d.batches ++ t) (append-nil (r ∷ rs))));
      ordered =
          d.ordered
          ∙ ap (λ t. concat d.batches ++ (t ++ (f.messages ++ pending f.run))) e
          ∙ regroup d.batches (r ∷ rs) (f.messages ++ pending f.run);
    }

  flush-buffer :
      (b : List LogEntry) (f : Forwarder sinks) → f.buffer ≡ b → (flush sinks b f).buffer ≡ []
  unfolding flush
  flush-buffer [] f e = e
  flush-buffer (r ∷ rs) f e = refl

  -- An invariant: the flow of the entries, and a buffer that a flush has not been due for.
  abbrev pub Flows : Store → Files → List LogEntry → Forwarder sinks → Type 0
  Flows store files sent f = IsDelivered store files sent f × (length f.buffer < batch_cap)

  module _ (store : Store) (files : Files) (sent : List LogEntry) where
    write_buff-Flows :
        (f : Forwarder sinks)
        → IsDelivered store files sent f
        → length f.buffer ≤ batch_cap
        → Flows store files sent (write_buff sinks f)
    unfolding write_buff
    write_buff-Flows f d h = (
      flush-IsDelivered store files sent f.buffer f refl h d,
      rw (flush-buffer f.buffer f refl) (omega arith),
    )

    -- The same batches, with what is under way in other places.
    keep_batches :
        (sent' : List LogEntry) (f g : Forwarder sinks) (d : IsDelivered store files sent f)
        → g.store ≡ f.store
        → g.files ≡ f.files
        → sent' ≡ concat d.batches ++ (g.buffer ++ (g.messages ++ pending g.run))
        → IsDelivered store files sent' g
    keep_batches sent' f g d p q o = record {
      batches = d.batches;
      sized = d.sized;
      published = p ∙ d.published;
      written = q ∙ d.written;
      ordered = o;
    }

    take_message :
        (msg : LogEntry) (rest : List LogEntry) (f : Forwarder sinks)
        → f.messages ≡ msg ∷ rest
        → IsDelivered store files sent f
        → IsDelivered store files sent (record f { messages = rest; buffer = f.buffer ++ msg ∷ [] })
    take_message msg rest f e d = keep_batches sent f _ d refl refl (
        d.ordered
        ∙ ap (λ t. concat d.batches ++ (f.buffer ++ (t ++ pending f.run))) e
        ∙ ap (λ t. concat d.batches ++ t)
            (sym (append_assoc f.buffer (msg ∷ []) (rest ++ pending f.run))))

    receive-Flows :
        (msg : LogEntry) (rest : List LogEntry) (f : Forwarder sinks)
        → f.messages ≡ msg ∷ rest
        → Flows store files sent f
        → Flows store files sent (receive sinks msg (record f { messages = rest }))
    unfolding receive
    receive-Flows msg rest f e (d, h) =
        let more = length-append {0} f.buffer (msg ∷ []) in
        elim (Bool-cases (leb batch_cap (length (f.buffer ++ msg ∷ [])))) [
          | inl full ↦
              rw full (write_buff-Flows _ (take_message msg rest f e d) (omega (arith, more)))
          | inr room ↦ rw room (take_message msg rest f e d, ground arith)
        ]

    handle-Flows :
        (r : LogEntry × Option EntryError) (f : Forwarder sinks)
        → f.run ≡ idle
        → Flows store files sent f
        → Flows store files (sent ++ entries r) (handle sinks r f)
    unfolding handle
    handle-Flows (e, none) f i (d, h) = (
      keep_batches (sent ++ e ∷ []) f _ d refl refl (
          ap (λ t. t ++ e ∷ [])
            (d.ordered ∙ ap (λ r. concat d.batches ++ (f.buffer ++ (f.messages ++ pending r))) i)
          ∙ simp (append_assoc, append-nil)),
      h,
    )
    handle-Flows (e, some x) f i (d, h) = rw append-nil (d, h)

    send-Flows :
        (e : LogEntry) (f : Forwarder sinks)
        → f.run ≡ sending e
        → Flows store files sent f
        → Flows store files sent (record f { messages = f.messages ++ e ∷ []; run = idle })
    send-Flows e f s (d, h) = (
      keep_batches sent f _ d refl refl (
          d.ordered
          ∙ ap (λ r. concat d.batches ++ (f.buffer ++ (f.messages ++ pending r))) s
          ∙ simp append-nil),
      h,
    )

    end_writer-Flows :
        (f : Forwarder sinks)
        → Flows store files sent f
        → Flows store files sent (record (write_buff sinks f) { writing = false })
    end_writer-Flows f (d, h) =
        let (d', h') = write_buff-Flows f d (omega arith) in
        (keep_batches sent (write_buff sinks f) _ d' refl refl d'.ordered, h')

    -- Every step keeps the flow, with the entry of a line that it accepts at the end.
    Step-Flows :
        {f g : Forwarder sinks} (st : Step sinks f g)
        → Flows store files sent f
        → Flows store files (sent ++ line_entries st) g
    unfolding accept
    Step-Flows (line {f} clock tz text i) fl = handle-Flows (new_entry clock tz text) f i fl
    Step-Flows (send {f} {entry} s room) fl = rw append-nil (send-Flows entry f s fl)
    Step-Flows (message {f} {msg} {rest} w e) fl = rw append-nil (receive-Flows msg rest f e fl)
    Step-Flows (tick {f} w) fl = rw append-nil (write_buff-Flows f fl.0 (omega arith))
    Step-Flows (cancel {f}) fl =
        rw append-nil (keep_batches sent f _ fl.0 refl refl fl.0.ordered, fl.1)
    Step-Flows (end_writer {f} w x) fl = rw append-nil (end_writer-Flows f fl)
    Step-Flows (end_run {f} i x w) fl = rw append-nil (
      keep_batches sent f _ fl.0 refl refl (
          fl.0.ordered
          ∙ ap (λ r. concat fl.0.batches ++ (f.buffer ++ (f.messages ++ pending r))) i),
      fl.1,
    )

  start-Flows : (store : Store) (files : Files) → Flows store files [] (start sinks store files)
  unfolding publish_all write_all
  start-Flows store files = (
    record { batches = []; sized = tt; published = refl; written = refl; ordered = refl },
    omega arith,
  )

  -- Whatever the scheduler does, and whatever errors the publisher and the files report: the entries
  -- of the accepted lines, in the order of the lines, are those of the published batches, in order,
  -- then the buffer, then the channel, then the entry that `Run` holds; the store is what publishing
  -- these batches makes of the first one, the files are what writing these entries one by one makes of
  -- the first ones; each batch has 1 to 1000 entries, and the buffer has fewer than 1000.
  pub accepted-Flows :
      (store : Store) (files : Files) {f : Forwarder sinks}
      (r : Reach sinks (start sinks store files) f)
      → Flows store files (accepted r) f
  accepted-Flows store files here = start-Flows store files
  accepted-Flows store files (next r st) =
      Step-Flows store files (accepted r) st (accepted-Flows store files r)
