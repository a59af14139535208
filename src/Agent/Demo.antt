-- ===== src/Agent/Demo.antt =====
-- app/agent/demo_mode.go: the simulated log entries of the demo mode, and its events.
pub mod Rest
pub mod Lines
pub mod Written
pub mod Notified
pub mod Examples
use dkll.Base.{
  ℕ, zero, suc, ◌-◌, ◌%◌, ◌≤◌, ◌<◌, ◌≡◌, refl, ap, Bool, true, false, Option, none, some, List, [],
  ◌∷◌, ◌++◌, arith, if◌then◌else◌, Bytes, codes, bytes_eq, length,
}
use dkll.Core.{Time}
use dkll.Errors.{Error}
use dkll.Agent.{Event}

-- The lines of `nginxDemo`, `restDemo` and `mongoDemo`.
pub record DemoLines : Type 0 where
  pub nginx : List Bytes
  pub rest : List Bytes
  pub mongo : List Bytes

-- `l[i]`; none is a panic.
pub get_elem? {ℓ} : {A : Type ℓ} → List A → ℕ → Option A
get_elem? [] i = none
get_elem? (x ∷ xs) zero = some x
get_elem? (x ∷ xs) (suc i) = get_elem? xs i

-- `rand.Intn(n)`, from a number that is drawn; it panics for `n <= 0`.
unfoldable pub rand_intn : ℕ → ℕ → Option ℕ
rand_intn zero draw = none
rand_intn (suc n) draw = some (draw % suc n)

-- `lines[rand.Intn(len(lines)-1)]`; for no lines the argument is negative.
unfoldable pub pick : List Bytes → ℕ → Option Bytes
unfolding rand_intn get_elem?
pick lines draw = elim (rand_intn (length lines - 1) draw) [
  | none ↦ none
  | some i ↦ get_elem? lines i
]

-- The `switch` of `Logs`: a container of another name has empty lines.
unfoldable pub demo_line : DemoLines → Bytes → ℕ → Option Bytes
unfolding pick
demo_line d container draw =
    if bytes_eq container (codes "nginx")
    then pick d.nginx draw
    else (if bytes_eq container (codes "rest")
        then pick d.rest draw
        else (if bytes_eq container (codes "mongo") then pick d.mongo draw else some []))

-- The three events, at the times at which they are made.
unfoldable pub demo_events : Time → Time → Time → List Event
demo_events t u v =
    record {
      status = true;
      container_name = codes "nginx";
      container_id = codes "nginx";
      group = codes "system";
      ts = t;
    }
    ∷ record {
      status = true;
      container_name = codes "mongo";
      container_id = codes "mongo";
      group = codes "db";
      ts = u;
    }
    ∷ record {
      status = true;
      container_name = codes "rest";
      container_id = codes "rest";
      group = codes "app";
      ts = v;
    }
    ∷ []

-- One turn of the `select` of `Logs`: the context is done, or a tick, with a number that is drawn.
pub data Turn : Type 0 where
  done : Turn
  tick : ℕ → Turn

-- How `Logs` stands: it still runs, or it has returned the error of the context.
pub data Standing : Type 0 where
  running returned : Standing

module _ (World : Type 0) (write : Bytes → World → World × Option Error) (d : DemoLines) where
  -- `Logs`, for some turns, over the stream of the container; an error of the stream is only logged, and none
  -- is a panic.
  pub demo_logs : Bytes → List Turn → World → Option (World × Standing)
  unfolding demo_line
  demo_logs container [] w = some (w, running)
  demo_logs container (done ∷ ts) w = some (w, returned)
  demo_logs container (tick draw ∷ ts) w = elim (demo_line d container draw) [
    | none ↦ none
    | some line ↦ demo_logs container ts (write (line ++ codes "\n") w).0
  ]
