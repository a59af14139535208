-- ===== src/Cmd/Agent/Closed.antt =====
-- What closing a stream does to the writers that `makeLogWriters` made for it, in mixed mode.
use dkll.Base.{
  ℕ, ◌≡◌, ◌⊎◌, inl, inr, refl, ap, ap₂, sym, subst, ◌∙◌, Bool, true, false, not, ◌&&◌, ◌==◌, Option,
  none, some, List, [], ◌∷◌, ◌++◌, arith, if◌then◌else◌, if_true, Bytes, codes,
}
use dkll.Errors.{Error, is_nil, MultiError}
use dkll.Agent.MultiWriter.{Writers, close_all}
use dkll.Agent.MultiWriter.Results.{each_close, close_all-each_close}
use dkll.Agent.Streamer.{Stream, Streaming, close_err, close_log, close_stream}
use dkll.Cmd.Agent.{
  AgentOpts, Outside, log_dir, log_name, err_name, make_file_writers, Collected, opened, add_files,
  add_syslog, collect_files, collect_syslog, collect, Pointer, Heap, pointers, allocate,
  make_log_writers, with_dir, err_logger, agent_streaming,
}
use dkll.Cmd.Agent.Opened.{files_open, multi-writers}

module _ (world : Writers) where
  each_close-append :
      (ws ws' : List world.Writer) (s : world.State)
      → (each_close world (ws ++ ws') s).0 ≡ (each_close world ws' (each_close world ws s).0).0
  each_close-append [] ws' s = refl
  each_close-append (w ∷ ws) ws' s = each_close-append ws ws' (world.close w s).0

and_true : (a b : Bool) → (a && b) ≡ true → (a ≡ true) × (b ≡ true)
and_true true b h = (refl, h)
and_true false b h = absurd cc

if_not {ℓ} : {A : Type ℓ} (b : Bool) (x y : A) → b ≡ true → (if not b then x else y) ≡ y
if_not true x y h = refl
if_not false x y h = absurd cc

module _ (o : AgentOpts) (out : Outside) (m : MultiError) where
  -- Both lists begin with the same writer.
  abbrev Shares : List out.writers.Writer → List out.writers.Writer → Type 0
  Shares logs errs =
      (f : out.writers.Writer) × (rest : List out.writers.Writer) × (rest' : List
        out.writers.Writer)
      × (logs ≡ f ∷ rest)
      × (errs ≡ f ∷ rest')

  module _ (container group : Bytes) (mixed : o.mix_err ≡ true) where
    with_dir-Shares :
        (r : out.writers.State × Option Error)
        → is_nil r.1 ≡ true
        → let c = (add_files o out m (with_dir o out m container group r)).1 in Shares c.logs c.errs
    unfolding with_dir add_files err_logger
    with_dir-Shares (s, none) h =
        let log = out.new_logger (log_name o.files_location group container) s in
        let r = out.new_logger (err_name o.files_location group container) log.0 in
        subst
          (λ (p : out.writers.State × (out.writers.Writer × out.writers.Writer)).
            Shares (p.1.0 ∷ []) (p.1.1 ∷ []))
          (sym (if_not o.mix_err (r.0, (log.1, r.1)) (log.0, (log.1, log.1)) mixed))
          (log.1, [], [], refl, refl)
    with_dir-Shares (s, some e) h = absurd cc

    collect_files-Shares :
        (s : out.writers.State)
        → files_open o out m container group s ≡ true
        → let c = (collect_files o out m container group s).1 in Shares c.logs c.errs
    unfolding collect_files make_file_writers
    collect_files-Shares s h =
        let (on, made) = and_true o.enable_files _ h in
        subst (λ (r : out.writers.State × Collected o out m). Shares r.1.logs r.1.errs)
          (sym (if_true o.enable_files _ _ on))
          (with_dir-Shares (out.mkdir_all (log_dir o.files_location group) s) made)

  add_syslog-Shares :
      (c : Collected o out m)
      → Shares c.logs c.errs
      → (r : out.writers.State
          × ((out.writers.Writer ⊎ Error) × (out.writers.Writer ⊎ Error) × Option Error))
      → Shares (add_syslog o out m c r).1.logs (add_syslog o out m c r).1.errs
  unfolding add_syslog
  add_syslog-Shares c p (s, (log, err, some e)) = p
  add_syslog-Shares c (f, rest, rest', hl, he) (s, (log, err, none)) = (
    f,
    rest ++ opened log,
    rest' ++ opened err,
    ap (λ l. l ++ opened log) hl,
    ap (λ l. l ++ opened err) he,
  )

  if-Shares :
      (b : Bool) (r r' : out.writers.State × Collected o out m)
      → Shares r.1.logs r.1.errs
      → Shares r'.1.logs r'.1.errs
      → Shares (if b then r else r').1.logs (if b then r else r').1.errs
  if-Shares true r r' h h' = h
  if-Shares false r r' h h' = h'

  module _ (container group : Bytes) (mixed : o.mix_err ≡ true) where
    collect-Shares :
        (s : out.writers.State)
        → files_open o out m container group s ≡ true
        → let c = (collect o out m container group s).1 in Shares c.logs c.errs
    unfolding collect collect_syslog
    collect-Shares s h =
        let files = collect_files-Shares container group mixed s h in
        if-Shares o.enable_syslog _ _ (add_syslog-Shares _ files _) files

  -- The two multi-writers of a container stand at different addresses.
  abbrev Apart :
      (Pointer o out m × Pointer o out m) ⊎ Error
      → List out.writers.Writer
      → List out.writers.Writer
      → Type 0
  Apart (inr e) logs errs = Unit
  Apart (inl (p, q)) logs errs =
      ((p.address == q.address) ≡ false) × (p.target.writers ≡ logs) × (q.target.writers ≡ errs)

  pointers-Apart :
      (container group : Bytes) (n : ℕ) (logs errs : List out.writers.Writer)
      → Apart (pointers o out m container group n logs errs) logs errs
  unfolding pointers
  pointers-Apart container group n [] errs = tt
  pointers-Apart container group n (w ∷ ws) errs = (
    ground arith,
    multi-writers o out m container group (w ∷ ws),
    multi-writers o out m container group errs,
  )

  if-Apart :
      (b : Bool) (h : Heap o out m) (e : Error)
      → (r : Heap o out m × ((Pointer o out m × Pointer o out m) ⊎ Error))
      → (logs errs : List out.writers.Writer) → Apart r.1 logs errs
      → Apart (if b then (h, inr e) else r).1 logs errs
  if-Apart true h e r logs errs p = tt
  if-Apart false h e r logs errs p = p

  make_log_writers-Apart :
      (container group : Bytes) (h : Heap o out m)
      → let c = (collect o out m container group h.state).1 in
        Apart (make_log_writers o out m container group h).1 c.logs c.errs
  unfolding make_log_writers allocate
  make_log_writers-Apart container group h =
      let r = collect o out m container group h.state in
      if-Apart (not o.enable_files && not o.enable_syslog) h
        (codes "either files or syslog has to be enabled")
        (allocate o out m container group h.next r) r.1.logs r.1.errs
        (pointers-Apart container group h.next r.1.logs r.1.errs)

  module _ (wait : Bytes → Heap o out m → Heap o out m × Option Error)
      (logs : Bytes
        → Bytes
        → Pointer o out m
        → Pointer o out m
        → Heap o out m
        → Heap o out m × Option Error) where
    abbrev env : Streaming
    env = agent_streaming o out m wait logs

    -- A stream whose writers are not the same one closes all writers of both.
    close_err-both :
        (l : Stream env) (w : Heap o out m)
        → (l.log_writer.address == l.err_writer.address) ≡ false
        → (close_err env l w).0.state
          ≡ (each_close out.writers l.err_writer.target.writers w.state).0
    unfolding close_err
    close_err-both l w h = rw h (close_all-each_close out.writers m l.err_writer.target w.state)

    close_log-both :
        (l : Stream env) (w : Heap o out m)
        → (l.log_writer.address == l.err_writer.address) ≡ false
        → (close_all out.writers m l.log_writer.target w.state).1 ≡ none
        → (close_log env l w).0.state
          ≡ (each_close out.writers
              (l.log_writer.target.writers ++ l.err_writer.target.writers)
              w.state).0
    unfolding close_log close_all
    close_log-both l w h c =
        let closed = close_all-each_close out.writers m l.log_writer.target w.state in
        rw c (
          close_err-both l _ h
          ∙ ap (λ s. (each_close out.writers l.err_writer.target.writers s).0) closed
          ∙ sym (
              each_close-append out.writers l.log_writer.target.writers l.err_writer.target.writers
                w.state))

    close_stream-both :
        (l : Stream env) (w : Heap o out m)
        → (l.log_writer.address == l.err_writer.address) ≡ false
        → (wait l.id w).1 ≡ none
        → (close_all out.writers m l.log_writer.target (wait l.id w).0.state).1 ≡ none
        → (close_stream env l w).0.state
          ≡ (each_close out.writers
              (l.log_writer.target.writers ++ l.err_writer.target.writers)
              (wait l.id w).0.state).0
    unfolding close_stream
    close_stream-both l w h e c = rw e (close_log-both l (wait l.id w).0 h c)

    -- In mixed mode, where the writers of a container are made with its files open: both multi-writers
    -- begin with the same writer, the one of the file. If the wait for the stream and the closing of the
    -- log's multi-writer succeed, then `Close` of the stream closes the writers of both, and so the
    -- writer of the file twice.
    pub close_stream-twice :
        (container group : Bytes) (h w : Heap o out m) (l : Stream env)
        → o.mix_err ≡ true
        → files_open o out m container group h.state ≡ true
        → (make_log_writers o out m container group h).1 ≡ inl (l.log_writer, l.err_writer)
        → (wait l.id w).1 ≡ none
        → (close_all out.writers m l.log_writer.target (wait l.id w).0.state).1 ≡ none
        → (f : out.writers.Writer) × (rest : List out.writers.Writer) × (rest' : List
            out.writers.Writer)
          × (l.log_writer.target.writers ≡ f ∷ rest)
          × (l.err_writer.target.writers ≡ f ∷ rest')
          × ((close_stream env l w).0.state
              ≡ (each_close out.writers (f ∷ (rest ++ f ∷ rest')) (wait l.id w).0.state).0)
    close_stream-twice container group h w l mixed opens made e c =
        let p = collect o out m container group h.state in
        let (f, rest, rest', hl, he) = collect-Shares container group mixed h.state opens in
        let (apart, wl, we) =
          subst (λ r. Apart r p.1.logs p.1.errs) made (make_log_writers-Apart container group h) in
        let closed = close_stream-both l w apart e c in
        (
          f,
          rest,
          rest',
          wl ∙ hl,
          we ∙ he,
          closed
              ∙ ap₂ (λ a b. (each_close out.writers (a ++ b) (wait l.id w).0.state).0) (wl ∙ hl)
                  (we ∙ he),
        )
