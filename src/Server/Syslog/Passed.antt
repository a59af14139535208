-- ===== src/Server/Syslog/Passed.antt =====
-- What passes from the syslog server to the forwarder, in whatever order the goroutines step.
use dkll.Base.{
  ℕ, zero, suc, ◌≤◌, ◌≡◌, ◌≢◌, ◌↔◌, inl, refl, ap, sym, subst, ◌∙◌, true, Option, none, some, List,
  [], ◌∷◌, ◌++◌, map, arith, Bytes, length, length-append, replicate, append-nil, append_assoc,
}
use dkll.Errors.{Error}
use dkll.Server.Syslog.{dump}
use dkll.Server.Syslog.Pipe.{
  Reader, selecting, sending, returned, panicked, Closer, open_both, closed_in, closed_out, Pipe,
  out_cap, nil_text, new_pipe, Step, receive, receive_closed, send, send_closed, done, cancel,
  close_in, close_out, take_text, Reach, here, next, held, Panicked, texts, IsPipe, Listener,
  go_boot, go_tcp, go_udp, go_syslog,
}

-- One more text behind what is held, if that is nothing.
push_text :
    (taken out : List Bytes) (r : Reader) (text : Bytes) (all : List Bytes)
    → taken ++ (out ++ held r) ≡ all
    → r ≡ selecting
    → taken ++ (out ++ text ∷ []) ≡ all ++ text ∷ []
push_text taken out r text all e h =
    let bare : taken ++ out ≡ all =
      ap (λ t. taken ++ t) (sym (append-nil out))
      ∙ subst (λ x. taken ++ (out ++ held x) ≡ all) h e in
    sym (append_assoc taken out (text ∷ [])) ∙ ap (λ t. t ++ text ∷ []) bare

replicate-snoc {ℓ} : {A : Type ℓ} (n : ℕ) (a : A) → replicate n a ++ a ∷ [] ≡ replicate (suc n) a
replicate-snoc zero a = refl
replicate-snoc (suc n) a = ap (λ t. a ∷ t) (replicate-snoc n a)

map-snoc :
    (f : Bytes → Bytes) (ls : List Bytes) (l : Bytes) → map f (ls ++ l ∷ []) ≡ map f ls ++ f l ∷ []
map-snoc f [] l = refl
map-snoc f (x ∷ ls) l = ap (λ t. f x ∷ t) (map-snoc f ls l)

texts-line :
    (p : Pipe) (line : Bytes)
    → p.empties ≡ 0
    → texts p ++ dump line ∷ [] ≡ map dump (p.lines ++ line ∷ []) ++ replicate p.empties nil_text
texts-line p line h =
    ap (λ n. (map dump p.lines ++ replicate n nil_text) ++ dump line ∷ []) h
    ∙ ap (λ t. t ++ dump line ∷ []) (append-nil (map dump p.lines))
    ∙ sym (map-snoc dump p.lines line)
    ∙ sym (append-nil (map dump (p.lines ++ line ∷ [])))
    ∙ ap (λ n. map dump (p.lines ++ line ∷ []) ++ replicate n nil_text) (sym h)

texts-empty :
    (p : Pipe) → texts p ++ nil_text ∷ [] ≡ map dump p.lines ++ replicate (suc p.empties) nil_text
texts-empty p =
    append_assoc (map dump p.lines) (replicate p.empties nil_text) (nil_text ∷ [])
    ∙ ap (λ t. map dump p.lines ++ t) (replicate-snoc p.empties nil_text)

-- A step that passes nothing on, and at which the goroutines' states change as they may.
held_same :
    {p : Pipe} (r : Reader)
    → IsPipe p
    → held r ≡ held p.reader
    → p.taken ++ (p.out_ch ++ held r) ≡ texts p
held_same {p} r w h = ap (λ t. p.taken ++ (p.out_ch ++ t)) h ∙ w.passed

Step-passed : {p q : Pipe} → Step p q → IsPipe p → q.taken ++ (q.out_ch ++ held q.reader) ≡ texts q
Step-passed {p} (receive line hr hc) w =
    push_text p.taken p.out_ch p.reader (dump line) (texts p) w.passed hr
    ∙ texts-line p line (w.none_empty hc)
Step-passed {p} (receive_closed hr hc) w =
    push_text p.taken p.out_ch p.reader nil_text (texts p) w.passed hr ∙ texts-empty p
Step-passed {p} (send text hr hc hl) w =
    ap (λ t. p.taken ++ t) (append-nil (p.out_ch ++ text ∷ []))
    ∙ held_same (sending text) w (ap held (sym hr))
Step-passed (send_closed text hr hc) w = held_same (panicked text) w (ap held (sym hr))
Step-passed (done hr hc) w = held_same returned w (ap held (sym hr))
Step-passed cancel w = w.passed
Step-passed (close_in hx hc) w = w.passed
Step-passed (close_out hc) w = w.passed
Step-passed {p} (take_text text rest ho) w =
    append_assoc p.taken (text ∷ []) (rest ++ held p.reader)
    ∙ ap (λ t. p.taken ++ (t ++ held p.reader)) (sym ho)
    ∙ w.passed

Step-bounded : {p q : Pipe} → Step p q → IsPipe p → length q.out_ch ≤ out_cap
Step-bounded {p} (send text hr hc hl) w = omega (arith, length-append p.out_ch (text ∷ []))
Step-bounded {p} (take_text text rest ho) w = omega (arith, ap length ho, w.bounded)
Step-bounded (receive line hr hc) w = w.bounded
Step-bounded (receive_closed hr hc) w = w.bounded
Step-bounded (send_closed text hr hc) w = w.bounded
Step-bounded (done hr hc) w = w.bounded
Step-bounded cancel w = w.bounded
Step-bounded (close_in hx hc) w = w.bounded
Step-bounded (close_out hc) w = w.bounded

-- What the goroutine that ends the server has done, against the rest of the state.
abbrev IsOrdered : Pipe → Type 0
IsOrdered p =
    (p.closer ≡ open_both → p.empties ≡ 0)
    × (p.closer ≢ open_both → p.cancelled ≡ true)
    × (Panicked p.reader → p.closer ≡ closed_out)

Step-IsOrdered : {p q : Pipe} → Step p q → IsPipe p → IsOrdered q
Step-IsOrdered (receive line hr hc) w = (w.none_empty, w.closes_late, λ h. absurd h)
Step-IsOrdered (receive_closed hr hc) w = (λ h. absurd (hc h), w.closes_late, λ h. absurd h)
Step-IsOrdered (send text hr hc hl) w = (w.none_empty, w.closes_late, λ h. absurd h)
Step-IsOrdered (send_closed text hr hc) w = (w.none_empty, w.closes_late, λ h. hc)
Step-IsOrdered (done hr hc) w = (w.none_empty, w.closes_late, λ h. absurd h)
Step-IsOrdered cancel w = (w.none_empty, λ h. refl, w.panics_late)
Step-IsOrdered (close_in hx hc) w = (λ h. absurd cc, λ h. hx, λ h. absurd (cc (w.panics_late h)))
Step-IsOrdered (close_out hc) w = (λ h. absurd cc, λ h. w.closes_late (λ e. absurd cc), λ h. refl)
Step-IsOrdered (take_text text rest ho) w = (w.none_empty, w.closes_late, w.panics_late)

-- The texts that the forwarder took, those in the channel and the one that the reader holds are, in this
-- order, the messages of the lines that the server got, then the texts of empty messages, which there
-- are only after the cancellation; the channel holds at most 10000 texts, and the reader panics only once
-- `outCh` is closed. No order of the steps breaks this.
pub Reach-IsPipe : {p : Pipe} → Reach new_pipe p → IsPipe p
Reach-IsPipe here = record {
  passed = refl;
  bounded = omega arith;
  none_empty = λ h. refl;
  closes_late = λ h. absurd (h refl);
  panics_late = λ h. absurd h;
}
Reach-IsPipe (next r s) =
    let w = Reach-IsPipe r in
    let (empty, late, panics) = Step-IsOrdered s w in
    record {
      passed = Step-passed s w;
      bounded = Step-bounded s w;
      none_empty = empty;
      closes_late = late;
      panics_late = panics;
    }

-- From any state in which the reader holds a text, there are steps after which it has panicked.
pub sending-panics :
    (p : Pipe) (text : Bytes)
    → p.reader ≡ sending text
    → (q : Pipe) × Reach p q × (q.reader ≡ panicked text)
sending-panics p text h = closing p.closer refl
  where
    closing : (c : Closer) → p.closer ≡ c → (q : Pipe) × Reach p q × (q.reader ≡ panicked text)
    closing open_both e = (
      _,
      next (next (next (next here cancel) (close_in refl e)) (close_out refl))
          (send_closed text h refl),
      refl,
    )
    closing closed_in e = (_, next (next here (close_out e)) (send_closed text h refl), refl)
    closing closed_out e = (_, next here (send_closed text h e), refl)

module _ (lib : Listener) where
  boot_none : (r : lib.State × Option Error) → ((go_boot lib r).1 ≡ inl new_pipe) ↔ (r.1 ≡ none)
  unfolding go_boot
  boot_none (s, none) = (λ h. refl, λ h. refl)
  boot_none (s, some e) = (λ h. absurd cc, λ h. absurd cc)

  tcp_none :
      (r : lib.State × Option Error)
      → ((go_tcp lib r).1 ≡ inl new_pipe) ↔ ((r.1 ≡ none) × ((lib.boot r.0).1 ≡ none))
  unfolding go_tcp
  tcp_none (s, none) = let (to, from) = boot_none (lib.boot s) in (λ h. (refl, to h), λ h. from h.1)
  tcp_none (s, some e) = (λ h. absurd cc, λ h. absurd (cc (h.0)))

  udp_none :
      (port : ℕ) (r : lib.State × Option Error)
      → ((go_udp lib port r).1 ≡ inl new_pipe) ↔ (
          (r.1 ≡ none)
          × ((lib.listen_tcp port r.0).1 ≡ none)
          × ((lib.boot (lib.listen_tcp port r.0).0).1 ≡ none))
  unfolding go_udp
  udp_none port (s, none) =
      let (to, from) = tcp_none (lib.listen_tcp port s) in
      (λ h. (refl, (to h).0, (to h).1), λ h. from (h.1, h.2))
  udp_none port (s, some e) = (λ h. absurd cc, λ h. absurd (cc (h.0)))

  -- The server is started exactly if it can listen to UDP, then to TCP, and can then be booted: `Go` then
  -- gives a channel with nothing in it, and otherwise an error.
  pub go_syslog-none :
      (port : ℕ) (s : lib.State)
      → let udp = lib.listen_udp port s in
        let tcp = lib.listen_tcp port udp.0 in
        ((go_syslog lib port s).1 ≡ inl new_pipe)
        ↔ ((udp.1 ≡ none) × (tcp.1 ≡ none) × ((lib.boot tcp.0).1 ≡ none))
  unfolding go_syslog
  go_syslog-none port s = udp_none port (lib.listen_udp port s)
