-- ===== src/Agent/Demo/Written.antt =====
-- What the simulated containers write.
use dkll.Base.{
  ℕ, zero, suc, ◌-◌, ◌%◌, ◌≤◌, ◌<◌, ◌≡◌, refl, ap, Bool, true, false, Option, some, List, [], ◌∷◌,
  ◌++◌, arith, if◌then◌else◌, Bytes, codes, bytes_eq, length,
}
use dkll.Errors.{Error}
use dkll.Agent.Demo.{
  DemoLines, get_elem?, rand_intn, pick, demo_line, Turn, done, tick, Standing, running, returned,
  demo_logs,
}
use dkll.Agent.Demo.Lines.{demo_lines}

-- All lines but the last one.
abbrev pub front : List Bytes → List Bytes
front [] = []
front (x ∷ []) = []
front (x ∷ y ∷ l) = x ∷ front (y ∷ l)

-- The line at an index, or an empty one.
abbrev pub get_or : List Bytes → ℕ → Bytes
get_or [] i = []
get_or (x ∷ xs) zero = x
get_or (x ∷ xs) (suc i) = get_or xs i

-- The line that a number chooses.
abbrev pub chosen : List Bytes → ℕ → Bytes
chosen [] draw = []
chosen (x ∷ xs) draw = get_or (x ∷ xs) (draw % suc (length xs))

-- What the numbers choose at the turns before the context is done, each line with its end.
abbrev pub written : List Bytes → List Turn → List Bytes
written lines [] = []
written lines (done ∷ ts) = []
written lines (tick draw ∷ ts) = (chosen lines draw ++ codes "\n") ∷ written lines ts

abbrev pub standing : List Turn → Standing
standing [] = running
standing (done ∷ ts) = returned
standing (tick draw ∷ ts) = standing ts

-- The lines of a container.
abbrev pub lines_of : DemoLines → Bytes → List Bytes
lines_of d container =
    if bytes_eq container (codes "nginx")
    then d.nginx
    else (if bytes_eq container (codes "rest")
        then d.rest
        else (if bytes_eq container (codes "mongo") then d.mongo else []))

length-front : (x y : Bytes) (l : List Bytes) → length (front (x ∷ y ∷ l)) ≡ suc (length l)
length-front x y [] = refl
length-front x y (z ∷ l) = ap suc (length-front y z l)

get_elem-front :
    (x : Bytes) (l : List Bytes) (i : ℕ)
    → i < length (front (x ∷ l))
    → get_elem? (x ∷ l) i ≡ some (get_or (front (x ∷ l)) i)
unfolding get_elem?
get_elem-front x [] i h = absurd (omega arith)
get_elem-front x (y ∷ l) zero h = refl
get_elem-front x (y ∷ l) (suc i) h = get_elem-front y l i (omega arith)

mod_bound : (a n : ℕ) → a % suc n < suc n
mod_bound a n = omega arith

-- With two lines or more, a number chooses one of them, and not the last one.
pick-front :
    (x y : Bytes) (l : List Bytes) (draw : ℕ)
    → pick (x ∷ y ∷ l) draw ≡ some (chosen (front (x ∷ y ∷ l)) draw)
unfolding pick rand_intn
pick-front x y l draw =
    let n = length (front (y ∷ l)) in
    let bound : length (x ∷ y ∷ l) - 1 ≡ suc n = omega (arith, length-front x y l) in
    rw (pick, bound) (get_elem-front x (y ∷ l) (draw % suc n) (mod_bound draw n))

abbrev pub HasTwo : List Bytes → Type 0
HasTwo lines = 2 ≤ length lines

pick-HasTwo :
    (lines : List Bytes) (draw : ℕ)
    → HasTwo lines
    → pick lines draw ≡ some (chosen (front lines) draw)
pick-HasTwo [] draw h = absurd (omega arith)
pick-HasTwo (x ∷ []) draw h = absurd (omega arith)
pick-HasTwo (x ∷ y ∷ l) draw h = pick-front x y l draw

if_pick :
    (b : Bool) (lines others : List Bytes) (draw : ℕ) (o : Option Bytes)
    → HasTwo lines
    → o ≡ some (chosen (front others) draw)
    → (if b then pick lines draw else o) ≡ some (chosen (front (if b then lines else others)) draw)
if_pick true lines others draw o h e = pick-HasTwo lines draw h
if_pick false lines others draw o h e = e

demo_line-chosen :
    (d : DemoLines) (container : Bytes) (draw : ℕ)
    → HasTwo d.nginx
    → HasTwo d.rest
    → HasTwo d.mongo
    → demo_line d container draw ≡ some (chosen (front (lines_of d container)) draw)
unfolding demo_line
demo_line-chosen d container draw hn hr hm =
    if_pick (bytes_eq container (codes "nginx")) d.nginx _ draw _ hn (
      if_pick (bytes_eq container (codes "rest")) d.rest _ draw _ hr
        (if_pick (bytes_eq container (codes "mongo")) d.mongo [] draw (some []) hm refl))

module _ (World : Type 0) (write : Bytes → World → World × Option Error) where
  -- The texts written one after the other.
  abbrev pub written_to : List Bytes → World → World
  written_to [] w = w
  written_to (t ∷ ts) w = written_to ts (write t w).0

  -- If each of the three containers has two lines or more, the emitter does not panic, whatever numbers are
  -- drawn and whatever errors the stream reports: at every tick before the context is done it writes a line
  -- of its container that is not the last one of the list, and an empty line for a container of another
  -- name; and it returns when the context is done.
  pub demo_logs-written :
      (d : DemoLines) (container : Bytes) (ts : List Turn) (w : World)
      → HasTwo d.nginx
      → HasTwo d.rest
      → HasTwo d.mongo
      → demo_logs World write d container ts w
        ≡ some (written_to (written (front (lines_of d container)) ts) w, standing ts)
  unfolding demo_logs
  demo_logs-written d container [] w hn hr hm = refl
  demo_logs-written d container (done ∷ ts) w hn hr hm = refl
  demo_logs-written d container (tick draw ∷ ts) w hn hr hm =
      rw (demo_logs, demo_line-chosen d container draw hn hr hm)
        (demo_logs-written d container ts _ hn hr hm)

  -- The emitter does not panic, whatever container it is asked for, whatever numbers are drawn and whatever
  -- errors the stream reports: at every tick before the context is done it writes a line of its container
  -- that is not the last one of the list, and an empty line for a container of another name; and it returns
  -- when the context is done.
  pub demo_logs-lines :
      (container : Bytes) (ts : List Turn) (w : World)
      → demo_logs World write demo_lines container ts w
        ≡ some (written_to (written (front (lines_of demo_lines container)) ts) w, standing ts)
  demo_logs-lines container ts w =
      demo_logs-written demo_lines container ts w (omega arith) (omega arith) (omega arith)
