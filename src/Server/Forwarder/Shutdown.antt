-- ===== src/Server/Forwarder/Shutdown.antt =====
-- What a shutdown of the forwarder leaves behind.
use dkll.Base.{
  ◌≤◌, ◌≡◌, refl, ap, ◌∙◌, true, false, none, List, [], ◌∷◌, ◌++◌, leb, arith, Bytes, length,
  concat, Bool-cases, inl, inr,
}
use dkll.Core.{LogEntry}
use dkll.Core.Clock.{Location}
use dkll.Core.Entry.{Now, new_entry}
use dkll.Server.Forwarder.{
  Sinks, batch_cap, queue_cap, idle, ended, sending, Forwarder, write_all, flush, write_buff,
  receive, handle, accept, Step, line, send, message, tick, cancel, end_writer, end_run, Reach,
  here, next, start,
}
use dkll.Server.Forwarder.Order.{entries, pending, publish_all, accepted, accepted-Flows}

module _ (sinks : Sinks) where
  open sinks use {Store, Files}

  flush-buffer :
      (b : List LogEntry) (f : Forwarder sinks) → f.buffer ≡ b → (flush sinks b f).buffer ≡ []
  unfolding flush
  flush-buffer [] f e = e
  flush-buffer (r ∷ rs) f e = refl

  flush-writing : (b : List LogEntry) (f : Forwarder sinks) → (flush sinks b f).writing ≡ f.writing
  unfolding flush
  flush-writing [] f = refl
  flush-writing (r ∷ rs) f = refl

  receive-writing :
      (msg : LogEntry) (f : Forwarder sinks) → (receive sinks msg f).writing ≡ f.writing
  unfolding receive write_buff
  receive-writing msg f = elim (Bool-cases (leb batch_cap (length (f.buffer ++ msg ∷ [])))) [
    | inl full ↦
        rw full (flush-writing (f.buffer ++ msg ∷ []) (record f { buffer = f.buffer ++ msg ∷ [] }))
    | inr room ↦ rw room
  ]

  -- The writer ends with an empty buffer.
  abbrev IsEmptied : Forwarder sinks → Type 0
  IsEmptied f = f.writing ≡ false → f.buffer ≡ []

  Step-IsEmptied : {f g : Forwarder sinks} → Step sinks f g → IsEmptied f → IsEmptied g
  unfolding accept handle write_buff
  Step-IsEmptied (line {f} clock tz text i) h = ground arith
  Step-IsEmptied (send s room) h = h
  Step-IsEmptied (message {f} {msg} {rest} w e) h =
      λ x. cc (receive-writing msg (record f { messages = rest }))
  Step-IsEmptied (tick {f} w) h = λ x. cc (flush-writing f.buffer f)
  Step-IsEmptied cancel h = h
  Step-IsEmptied (end_writer {f} w x) h = λ _. flush-buffer f.buffer f refl
  Step-IsEmptied (end_run i x w) h = h

  Reach-IsEmptied :
      (store : Store) (files : Files) {f : Forwarder sinks}
      → Reach sinks (start sinks store files) f
      → IsEmptied f
  Reach-IsEmptied store files here = λ _. refl
  Reach-IsEmptied store files (next r st) = Step-IsEmptied st (Reach-IsEmptied store files r)

  -- What has been delivered of `sent`, but for `left`.
  pub record DeliveredBut (store : Store) (files : Files) (sent left : List LogEntry)
      (f : Forwarder sinks) : Type 0 where
    pub batches : List (List LogEntry)
    pub published : f.store ≡ publish_all sinks batches store
    pub written : f.files ≡ write_all sinks (concat batches) files
    pub split : sent ≡ concat batches ++ left

  -- Once the writer has ended, the entries of the accepted lines have been published and written, in
  -- order, but for those still in the channel and the one that `Run` holds.
  pub ended-DeliveredBut :
      (store : Store) (files : Files) {f : Forwarder sinks}
      (r : Reach sinks (start sinks store files) f)
      → f.writing ≡ false
      → DeliveredBut store files (accepted sinks r) (f.messages ++ pending f.run) f
  ended-DeliveredBut store files {f} r w =
      let d = (accepted-Flows sinks store files r).0 in
      record {
        batches = d.batches;
        published = d.published;
        written = d.written;
        split =
            d.ordered
            ∙ ap (λ t. concat d.batches ++ (t ++ (f.messages ++ pending f.run)))
                (Reach-IsEmptied store files r w);
      }

  write_buff-nil : (f : Forwarder sinks) → f.buffer ≡ [] → write_buff sinks f ≡ f
  unfolding write_buff flush
  write_buff-nil f h = ap (λ b. flush sinks b f) h

  pub accept-made :
      (clock : Now) (tz : Location) (text : Bytes) (e : LogEntry) (f : Forwarder sinks)
      → new_entry clock tz text ≡ (e, none)
      → accept sinks clock tz text f ≡ record f { run = sending e }
  unfolding accept handle
  accept-made clock tz text e f h = ap (λ r. handle sinks r f) h

  -- A shutdown can lose an accepted entry: `Run` reads a line, sends its entry and returns, and
  -- neither the publisher nor the files have been called.
  pub shutdown_loses :
      (store : Store) (files : Files) (clock : Now) (tz : Location) (text : Bytes) (e : LogEntry)
      → new_entry clock tz text ≡ (e, none)
      → (f : Forwarder sinks) × (r : Reach sinks (start sinks store files) f) × (f.run ≡ ended)
        × (accepted sinks r ≡ e ∷ [])
        × (f.store ≡ store)
        × (f.files ≡ files)
  shutdown_loses store files clock tz text e made =
      let s0 = start sinks store files in
      let s1 = accept sinks clock tz text s0 in
      let p = accept-made clock tz text e s0 made in
      let s2 : Forwarder sinks = record s1 { messages = s1.messages ++ e ∷ []; run = idle } in
      let s3 : Forwarder sinks = record s2 { done = true } in
      let q = write_buff-nil s3 (ap (λ (x : Forwarder sinks). x.buffer) p) in
      let s4 : Forwarder sinks = record (write_buff sinks s3) { writing = false } in
      (
        record s4 { run = ended },
        next
            (next
              (next
                (next (next here (line clock tz text refl)) (
                  send (ap (λ (x : Forwarder sinks). x.run) p)
                    (rw (ap (λ (x : Forwarder sinks). x.messages) p) (omega arith))))
                cancel)
              (end_writer (ap (λ (x : Forwarder sinks). x.writing) p) refl))
            (end_run (ap (λ (x : Forwarder sinks). x.run) q)
              (ap (λ (x : Forwarder sinks). x.done) q) refl),
        refl,
        ap (λ r. (((entries r ++ []) ++ []) ++ []) ++ []) made,
        ap (λ (x : Forwarder sinks). x.store) q ∙ ap (λ (x : Forwarder sinks). x.store) p,
        ap (λ (x : Forwarder sinks). x.files) q ∙ ap (λ (x : Forwarder sinks). x.files) p,
      )

  abbrev IsBlocked : LogEntry → Forwarder sinks → Type 0
  IsBlocked e f = (f.run ≡ sending e) × (queue_cap ≤ length f.messages) × (f.writing ≡ false)

  Step-IsBlocked :
      (e : LogEntry) {f g : Forwarder sinks} → Step sinks f g → IsBlocked e f → IsBlocked e g
  Step-IsBlocked e (line clock tz text i) (s, q, w) = absurd (cc)
  Step-IsBlocked e (send _ room) (s, q, w) = absurd (omega arith)
  Step-IsBlocked e (message x _) (s, q, w) = absurd (cc)
  Step-IsBlocked e (tick x) (s, q, w) = absurd (cc)
  Step-IsBlocked e cancel b = b
  Step-IsBlocked e (end_writer x _) (s, q, w) = absurd (cc)
  Step-IsBlocked e (end_run i _ _) (s, q, w) = absurd (cc)

  -- If the writer has ended while the channel is full and `Run` is about to send, `Run` waits for
  -- ever: it does not return, whatever happens next.
  pub blocked_for_ever :
      (e : LogEntry) {f g : Forwarder sinks}
      → f.run ≡ sending e
      → queue_cap ≤ length f.messages
      → f.writing ≡ false
      → Reach sinks f g
      → g.run ≡ sending e
  blocked_for_ever e {f} s q w r = (go r).0
    where
      go : {h : Forwarder sinks} → Reach sinks f h → IsBlocked e h
      go here = (s, q, w)
      go (next t st) = Step-IsBlocked e st (go t)
