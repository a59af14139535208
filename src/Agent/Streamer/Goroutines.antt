-- ===== src/Agent/Streamer/Goroutines.antt =====
-- app/agent/docker_logger.go: the goroutine of `Run`, and the callers of `Close`, over the channel `done`.
use dkll.Base.{
  ℕ, suc, ◌≤◌, ◌<◌, ◌≡◌, refl, ap, ◌∙◌, Bool, true, false, List, [], ◌∷◌, ◌++◌, arith, Bytes,
}

-- Where `Run` is: in `Logs`, before the send to `done`, which has no buffer, or at its return.
pub data Runner : Type 0 where
  logging finishing returned : Runner

-- The goroutine, whether the stream is cancelled, what `Logs` has written, and how many callers of `Close`
-- have called `Wait`, have come back from it without an error, have gone on to close the writers, and
-- have come back with an error.
pub record Goroutines : Type 0 where
  pub runner : Runner
  pub cancelled : Bool
  pub written : List Bytes
  pub waiting : ℕ
  pub joined : ℕ
  pub closing : ℕ
  pub expired : ℕ

abbrev pub started : Goroutines
started = record {
  runner = logging;
  cancelled = false;
  written = [];
  waiting = 0;
  joined = 0;
  closing = 0;
  expired = 0;
}

-- A step. `Logs` may be repeated and may end at any time; a caller of `Close` cancels the stream first,
-- and meets `Run` at the channel or gives up at the end of its own context.
pub data Step (g : Goroutines) : Goroutines → Type 0 where
  write :
      (text : Bytes) → g.runner ≡ logging → Step g (record g { written = g.written ++ text ∷ [] })
  logs_end : g.runner ≡ logging → Step g (record g { runner = finishing })
  close : Step g (record g { cancelled = true; waiting = suc g.waiting })
  join :
      (n : ℕ)
      → g.runner ≡ finishing
      → g.waiting ≡ suc n
      → Step g (record g { runner = returned; waiting = n; joined = suc g.joined })
  expire : (n : ℕ) → g.waiting ≡ suc n → Step g (record g { waiting = n; expired = suc g.expired })
  close_writers : g.closing < g.joined → Step g (record g { closing = suc g.closing })

pub data Reach (s : Goroutines) : Goroutines → Type 0 where
  here : Reach s s
  next : {g h : Goroutines} → Reach s g → Step g h → Reach s h

-- How many sends to `done` have been made.
abbrev sends : Runner → ℕ
sends logging = 0
sends finishing = 0
sends returned = 1

abbrev IsJoined : Goroutines → Type 0
IsJoined g = (g.joined ≡ sends g.runner) × (g.closing ≤ g.joined)

Step-IsJoined : {g h : Goroutines} → Step g h → IsJoined g → IsJoined h
Step-IsJoined (write text r) w = w
Step-IsJoined {g} (logs_end r) (j, c) = (j ∙ ap sends r, c)
Step-IsJoined close w = w
Step-IsJoined {g} (join n r e) (j, c) = (ap suc (j ∙ ap sends r), omega arith)
Step-IsJoined (expire n e) w = w
Step-IsJoined (close_writers h) (j, c) = (j, h)

Reach-IsJoined : {g : Goroutines} → Reach started g → IsJoined g
Reach-IsJoined here = (refl, omega arith)
Reach-IsJoined (next r s) = Step-IsJoined s (Reach-IsJoined r)

-- `Run` has returned once a caller has gone on.
returned_once : (r : Runner) (n k : ℕ) → n ≡ sends r → k ≤ n → 1 ≤ k → r ≡ returned
returned_once logging n k h c l = absurd (omega arith)
returned_once finishing n k h c l = absurd (omega arith)
returned_once returned n k h c l = refl

returned-Step :
    {g h : Goroutines}
    → Step g h
    → g.runner ≡ returned
    → (h.runner ≡ returned) × (h.written ≡ g.written)
returned-Step (write text r) e = absurd cc
returned-Step (logs_end r) e = absurd cc
returned-Step close e = (e, refl)
returned-Step (join n r k) e = (refl, refl)
returned-Step (expire n k) e = (e, refl)
returned-Step (close_writers h) e = (e, refl)

returned-Reach :
    {g h : Goroutines}
    → Reach g h
    → g.runner ≡ returned
    → (h.runner ≡ returned) × (h.written ≡ g.written)
returned-Reach here e = (e, refl)
returned-Reach (next r s) e =
    let (e', w) = returned-Reach r e in let (e'', w') = returned-Step s e' in (e'', w' ∙ w)

-- However often and from wherever `Close` is called: at most one caller comes back from `Wait` without
-- an error and closes the writers; and once the writers are being closed, `Run` has returned and nothing
-- more is written to them.
pub closing-written :
    {g h : Goroutines}
    → Reach started g
    → Reach g h
    → (g.closing ≤ 1) × (1 ≤ g.closing → (h.runner ≡ returned) × (h.written ≡ g.written))
closing-written {g} {h} r s =
    let (j, c) = Reach-IsJoined r in
    (
      at_most g.runner g.joined g.closing j c,
      λ l. returned-Reach s (returned_once g.runner g.joined g.closing j c l),
    )
  where
    at_most : (r : Runner) (n k : ℕ) → n ≡ sends r → k ≤ n → k ≤ 1
    at_most logging n k h c = omega arith
    at_most finishing n k h c = omega arith
    at_most returned n k h c = omega arith
