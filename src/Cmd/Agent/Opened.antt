-- ===== src/Cmd/Agent/Opened.antt =====
-- Which destinations the writers of a container have, and when there are none.
use dkll.Base.{
  ℕ, ◌+◌, ◌≤◌, ◌≡◌, ◌↔◌, ◌⊎◌, inl, inr, refl, ap, sym, ◌∙◌, zero_plus, Bool, true, false, not, ◌&&◌,
  Option, none, some, List, [], ◌∷◌, ◌++◌, arith, if◌then◌else◌, Bytes, length, length-append,
}
use dkll.Errors.{Error, is_nil, is_open, MultiError, IsMultiError, collected_none}
use dkll.Agent.MultiWriter.{MultiWriter, new_multi_writer, with_ext_json}
use dkll.Cmd.Agent.{
  AgentOpts, Outside, log_info, log_err, log_dir, log_name, make_file_writers, make_syslog_writers,
  Collected, add_files, add_syslog, collect_files, collect_syslog, collect, Pointer, Heap, multi,
  pointers, allocate, make_log_writers, error_of, with_dir, err_logger,
}

abbrev pub count : Bool → ℕ
count true = 1
count false = 0

module _ (o : AgentOpts) (out : Outside) (m : MultiError) (container group : Bytes) where
  abbrev State : Type 0
  State = out.writers.State

  -- The files can be written.
  abbrev pub files_open : State → Bool
  files_open s = o.enable_files && is_nil (out.mkdir_all (log_dir o.files_location group) s).1

  -- The syslog can be written, for logs and for errors.
  abbrev pub syslog_open : State → Bool
  syslog_open s =
      let log = out.dial log_info (o.syslog_prefix ++ container) s in
      o.enable_syslog
      && (is_open log.1 && is_open (out.dial log_err (o.syslog_prefix ++ container) log.0).1)

  -- The state once the files are made.
  abbrev pub after_files : State → State
  after_files s = (collect_files o out m container group s).0

  abbrev Collects : ℕ → Collected o out m → Type 0
  Collects n c = (length c.logs ≡ n) × (length c.errs ≡ n)

  err_logger-Collects :
      (r : State × out.writers.Writer)
      → Collects 1
          (add_files o out m (
            (err_logger o out m container group r).0,
            inl (err_logger o out m container group r).1,
          )).1
  unfolding err_logger add_files
  err_logger-Collects r = (refl, refl)

  with_dir-Collects :
      (r : State × Option Error)
      → Collects (count (is_nil r.1)) (add_files o out m (with_dir o out m container group r)).1
  unfolding with_dir add_files
  with_dir-Collects (s, none) =
      err_logger-Collects (out.new_logger (log_name o.files_location group container) s)
  with_dir-Collects (s, some e) = (refl, refl)

  if-Collects :
      (b d : Bool) (n : ℕ) (r r' : State × Collected o out m)
      → Collects n r'.1
      → Collects (n + count d) r.1
      → Collects (n + count (b && d)) (if b then r else r').1
  if-Collects true d n r r' h' h = h
  if-Collects false d n r r' (l, e) h = (omega arith, omega arith)

  collect_files-Collects :
      (s : State) → Collects (count (files_open s)) (collect_files o out m container group s).1
  unfolding collect_files make_file_writers
  collect_files-Collects s =
      let made = out.mkdir_all (log_dir o.files_location group) s in
      let (l, e) = with_dir-Collects made in
      let (l', e') =
        if-Collects o.enable_files (is_nil made.1) 0 _ _ (refl, refl)
          (l ∙ sym zero_plus, e ∙ sym zero_plus) in
      (l' ∙ zero_plus, e' ∙ zero_plus)

  -- One more destination, if both writers are open.
  add_syslog-Collects :
      (c : Collected o out m) (n : ℕ)
      → Collects n c
      → (s : State) (log err : out.writers.Writer ⊎ Error) (e : Option Error)
      → ((e ≡ none) ↔ ((error_of log ≡ none) × (error_of err ≡ none)))
      → Collects
          (n + count (is_open log && is_open err))
          (add_syslog o out m c (s, (log, err, e))).1
  unfolding add_syslog
  add_syslog-Collects c n (hl, he) s (inl a) (inl b) none h = (
    omega (arith, hl, length-append c.logs (a ∷ [])),
    omega (arith, he, length-append c.errs (b ∷ [])),
  )
  add_syslog-Collects c n (hl, he) s (inl a) (inl b) (some x) h = absurd (cc (h.1 (refl, refl)))
  add_syslog-Collects c n (hl, he) s (inl a) (inr y) none h = absurd (cc ((h.0 refl).1))
  add_syslog-Collects c n (hl, he) s (inl a) (inr y) (some x) h = (omega arith, omega arith)
  add_syslog-Collects c n (hl, he) s (inr y) err none h = absurd (cc ((h.0 refl).0))
  add_syslog-Collects c n (hl, he) s (inr y) err (some x) h = (omega arith, omega arith)

  collect-Collects :
      (laws : IsMultiError m) (s : State)
      → Collects
          (count (files_open s) + count (syslog_open (after_files s)))
          (collect o out m container group s).1
  unfolding collect collect_syslog make_syslog_writers
  collect-Collects laws s =
      let files = collect_files-Collects s in
      if-Collects o.enable_syslog _ _ _ _ files
        (add_syslog-Collects _ _ files _ _ _ _ (collected_none m laws _ _))

  -- The number of destinations, and the multi-writers that write to them.
  abbrev pub Opens : ℕ → (Pointer o out m × Pointer o out m) ⊎ Error → Type 0
  Opens n (inr e) = n ≡ 0
  Opens n (inl (log, err)) =
      (1 ≤ n) × (length log.target.writers ≡ n) × (length err.target.writers ≡ n)

  if-writers :
      (b : Bool) (w w' : MultiWriter out.writers) (ws : List out.writers.Writer)
      → w.writers ≡ ws
      → w'.writers ≡ ws
      → (if b then w else w').writers ≡ ws
  if-writers true w w' ws h h' = h
  if-writers false w w' ws h h' = h'

  pub multi-writers :
      (ws : List out.writers.Writer) → (multi o out m container group ws).writers ≡ ws
  unfolding multi new_multi_writer with_ext_json
  multi-writers ws = if-writers o.ext_json _ _ ws refl refl

  pointers-Opens :
      (k n : ℕ) (logs errs : List out.writers.Writer)
      → length logs ≡ n
      → length errs ≡ n
      → Opens n (pointers o out m container group k logs errs)
  unfolding pointers
  pointers-Opens k n [] errs hl he = sym hl
  pointers-Opens k n (w ∷ ws) errs hl he =
      (omega arith, ap length (multi-writers (w ∷ ws)) ∙ hl, ap length (multi-writers errs) ∙ he)

  guard-Opens :
      (a b c d : Bool) (h : Heap o out m) (e : Error)
      → (r : Heap o out m × ((Pointer o out m × Pointer o out m) ⊎ Error))
      → Opens (count (a && c) + count (b && d)) r.1
      → Opens (count (a && c) + count (b && d)) (if not a && not b then (h, inr e) else r).1
  guard-Opens true b c d h e r p = p
  guard-Opens false true c d h e r p = p
  guard-Opens false false c d h e r p = omega arith

  -- The files count as a destination if they are enabled and their directory can be made, the syslog
  -- if it is enabled and both of its writers can be dialled: `makeLogWriters` fails exactly if there is
  -- no destination, and otherwise both multi-writers have one writer for each destination.
  pub make_log_writers-Opens :
      (laws : IsMultiError m) (h : Heap o out m)
      → Opens
          (count (files_open h.state) + count (syslog_open (after_files h.state)))
          (make_log_writers o out m container group h).1
  unfolding make_log_writers allocate
  make_log_writers-Opens laws h =
      let all = collect-Collects laws h.state in
      guard-Opens o.enable_files o.enable_syslog _ _ h _ _ (pointers-Opens h.next _ _ _ all.0 all.1)
