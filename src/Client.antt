-- ===== src/Client.antt =====
-- app/client/cli.go: the client, which asks for the next entries and prints those that it shows.
pub mod Pages
pub mod Api
pub mod Examples
use dkll.Base.{
  ℕ, zero, suc, ◌≡◌, ◌⊎◌, inl, inr, refl, Bool, true, false, not, ◌&&◌, ◌||◌, Option, none, some,
  List, [], ◌∷◌, ◌++◌, ◌==◌, if◌then◌else◌, Bytes, codes, bytes_eq, contains, decimal_ℤ, length,
  last_or,
}
use dkll.Errors.{Error}
use dkll.Core.{Time, LogEntry, Request}

-- len(items) == 0
abbrev pub is_empty {ℓ} : {A : Type ℓ} → List A → Bool
is_empty [] = true
is_empty (x ∷ xs) = false

-- `contains`: the text has one of the values in it.
pub contains_any : Bytes → List Bytes → Bool
contains_any inp [] = false
contains_any inp (v ∷ vs) = contains inp v || contains_any inp vs

-- `DisplayParams`, without the stream and the zone of time.
pub record DisplayParams : Type 0 where
  pub show_pid : Bool
  pub show_ts : Bool
  pub follow_mode : Bool
  pub tail_mode : Bool
  pub show_syslog : Bool
  pub grep : List Bytes
  pub un_grep : List Bytes

-- `CLI` and what it is made from: the display parameters with their zone of time and their stream, each of
-- which may be nil.
pub record CliParams (Zone Out : Type 0) : Type 0 where
  pub display : DisplayParams
  pub time_zone : Option Zone
  pub out : Option Out

pub record Cli (Zone Out : Type 0) : Type 0 where
  pub display : DisplayParams
  pub time_zone : Zone
  pub out : Out

-- `NewCLI`: the local zone and the standard output stand for what is nil.
unfoldable pub new_cli : {Zone Out : Type 0} → Zone → Out → CliParams Zone Out → Cli Zone Out
new_cli local stdout p = record {
  display = p.display;
  time_zone = elim p.time_zone [ some z ↦ z | none ↦ local ];
  out = elim p.out [ some o ↦ o | none ↦ stdout ];
}

-- What the client calls: the colours of the terminal, a time in the chosen zone, the two requests to the
-- server with their repetitions, where a failed reading of an answer counts as an error, whether the
-- context is done when the client waits, and whether an error is `context.Canceled`.
pub record Terminal : Type 1 where
  pub World : Type 0
  pub red : Bytes → Bytes
  pub green : Bytes → Bytes
  pub yellow : Bytes → Bytes
  pub white : Bytes → Bytes
  pub show_time : Time → Bytes
  pub get_last : World → World × (LogEntry ⊎ Error)
  pub post_find : Request → World → World × (List LogEntry ⊎ Error)
  pub is_cancelled : World → World × Bool
  pub is_canceled_error : Error → Bool

-- How `Activate` ends, or that it still runs.
pub data Ending : Type 0 where
  returned : Ending
  failed : Error → Ending
  running : Ending

module _ (env : Terminal) (c : DisplayParams) where
  open env use {
    World, red, green, yellow, white, show_time, get_last, post_find, is_cancelled,
    is_canceled_error,
  }

  -- `makeOutLine`
  unfoldable pub make_out_line : LogEntry → Option Bytes
  make_out_line e =
      let pid = if c.show_pid then codes " [" ++ decimal_ℤ e.pid ++ codes "]" else [] in
      let ts = if c.show_ts then codes " - " ++ show_time e.ts else [] in
      if not c.show_syslog && bytes_eq e.container (codes "syslog")
      then none
      else some (
          red e.host
          ++ codes ":"
          ++ green e.container
          ++ yellow ts
          ++ yellow pid
          ++ codes " - "
          ++ white e.msg
          ++ codes "\n")

  -- The condition under which a line is left out.
  pub is_filtered : Bytes → Bool
  unfolding contains_any
  is_filtered line =
      (not (is_empty c.grep) && not (contains_any line c.grep))
      || (not (is_empty c.un_grep) && contains_any line c.un_grep)

  -- What is printed for an entry.
  unfoldable pub out : LogEntry → Bytes
  unfolding make_out_line is_filtered
  out e = elim (make_out_line e) [ none ↦ [] | some line ↦ if is_filtered line then [] else line ]

  unfoldable pub out_all : List LogEntry → Bytes
  unfolding out
  out_all [] = []
  out_all (e ∷ es) = out e ++ out_all es

  -- `getNext`, from the answer: the entries, and the identifier of the last one, or of the request.
  unfoldable pub last_id : Request → List LogEntry → Bytes
  last_id request [] = request.last_id
  last_id request (e ∷ es) = (last_or e es).id

  -- A run: the world, what was printed, the request at the end, and how it ended.
  pub record Run : Type 0 where
    pub world : World
    pub printed : Bytes
    pub request : Request
    pub ending : Ending

  abbrev pub stop : World → Request → Ending → Run
  stop w req end = record { world = w; printed = []; request = req; ending = end }

  -- What is printed before a run.
  unfoldable pub after : Bytes → Run → Run
  after p r = record r { printed = p ++ r.printed }

  -- `resetCtxError`
  unfoldable pub reset_ctx_error : Error → Ending
  reset_ctx_error e = if is_canceled_error e then returned else failed e

  -- The end of a turn, where the context may be done.
  pub wait_next : Request → World × Bool → (Request → World → Run) → Run
  wait_next next (w, true) k = stop w next returned
  wait_next next (w, false) k = k next w

  -- One turn with the answer of the server, before the further ones.
  pub turn : Request → World × (List LogEntry ⊎ Error) → (Request → World → Run) → Run
  unfolding out_all last_id after reset_ctx_error wait_next
  turn request (w, inr e) k = stop w request (reset_ctx_error e)
  turn request (w, inl items) k =
      if is_empty items && not c.follow_mode
      then stop w request returned
      else after (out_all items)
          (wait_next (record request { last_id = last_id request items }) (is_cancelled w) k)

  -- The loop of `Activate`, for `turns` turns at most.
  pub activate_loop : ℕ → Request → World → Run
  unfolding turn
  activate_loop zero request w = stop w request running
  activate_loop (suc n) request w = turn request (post_find request w) (λ r v. activate_loop n r v)

  -- The start of the tail mode, from the last entry of the server.
  unfoldable pub start_tail : ℕ → Request → World × (LogEntry ⊎ Error) → Run
  unfolding activate_loop reset_ctx_error
  start_tail turns request (w, inr e) = stop w request (reset_ctx_error e)
  start_tail turns request (w, inl e) = activate_loop turns (record request { last_id = e.id }) w

  -- `Activate`
  unfoldable pub activate : ℕ → Request → World → Run
  unfolding activate_loop start_tail
  activate turns request w =
      if c.tail_mode then start_tail turns request (get_last w) else activate_loop turns request w
