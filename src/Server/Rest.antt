-- ===== src/Server/Rest.antt =====
-- app/server/rest_server.go: the handlers of the requests, over a `DataService`.
pub mod Stream
pub mod Timeout
pub mod Router
use dkll.Base.{
  ℕ, zero, suc, ◌+◌, ◌/◌, ◌≡◌, ◌⊎◌, inl, inr, refl, Bool, true, false, ◌||◌, Option, none, some,
  List, [], ◌∷◌, ◌++◌, ltb, leb, if◌then◌else◌, Bytes, codes, ℤ, pos, ltb_ℤ, eq_ℤ,
}
use dkll.Errors.{Error}
use dkll.Core.{LogEntry, Request}

-- `DataService`, over a state of the world, the reading of a request's body, and the writing of an entry
-- to the response.
pub record Service : Type 1 where
  pub World : Type 0
  pub find : Request → World → World × (List LogEntry ⊎ Error)
  pub last_published : World → World × (LogEntry ⊎ Error)
  pub decode : Bytes → Request ⊎ Error
  pub encode : LogEntry → World → World × Option Error

-- A response: the records or the last entry, or status 400 or 500 with a message.
pub data Response : Type 0 where
  records : List LogEntry → Response
  last : LogEntry → Response
  bad_request : Error → Bytes → Response

-- The limit of a request is lowered to the server's, and 0 stands for it.
unfoldable pub clamp : ℤ → Request → Request
clamp limit req =
    if eq_ℤ req.limit (pos 0) || ltb_ℤ limit req.limit then record req { limit = limit } else req

module _ (service : Service) (limit : ℤ) where
  open service use {World, find, last_published, decode, encode}

  render : World × (List LogEntry ⊎ Error) → World × Response
  render (w, inr e) = (w, bad_request e (codes "failed to find records"))
  render (w, inl recs) = (w, records recs)

  find_decoded : Request ⊎ Error → World → World × Response
  unfolding render
  find_decoded (inr e) w = (w, bad_request e (codes "failed to decode request"))
  find_decoded (inl req) w = render (find (clamp limit req) w)

  -- `findCtrl`
  unfoldable pub find_ctrl : Bytes → World → World × Response
  unfolding find_decoded
  find_ctrl body w = find_decoded (decode body) w

  -- `lastCtrl`
  unfoldable pub last_ctrl : World → World × Response
  last_ctrl w =
      let r = last_published w in
      (
        r.0,
        elim r.1 [ inr e ↦ bad_request e (codes "failed to get last published") | inl e ↦ last e ],
      )

  -- How a stream stands: it still runs, or it ended by its timeout, or with an error.
  pub data Standing : Type 0 where
    running timed_out : Standing
    stopped : Error → Bytes → Standing

  -- One entry, with the result of writing it, before the rest.
  pub push_sent :
      LogEntry
      → World × Option Error
      → World × (List LogEntry × Option Error)
      → World × (List LogEntry × Option Error)
  push_sent r (w, some x) rest = (w, ([], some x))
  push_sent r (w, none) (w', (rs, e)) = (w', (r ∷ rs, e))

  -- The inner loop of `streamCtrl`: the entries that were sent, and the error of the one that was not.
  pub send_all : List LogEntry → World → World × (List LogEntry × Option Error)
  unfolding push_sent
  send_all [] w = (w, ([], none))
  send_all (r ∷ rs) w = let e = encode r w in push_sent r e (send_all rs e.0)

  -- How the stream stands after the entries of one turn.
  pub after_sending : World × (List LogEntry × Option Error) → World × (List LogEntry × Standing)
  after_sending (w, (rs, some e)) = (w, (rs, stopped e (codes "failed to encode record")))
  after_sending (w, (rs, none)) = (w, (rs, running))

  -- One turn of the loop of `streamCtrl`: what was sent, and how the stream stands after it.
  pub turn : Bool → World × (List LogEntry ⊎ Error) → World × (List LogEntry × Standing)
  unfolding send_all after_sending
  turn late (w, inr e) = (w, ([], stopped e (codes "failed to find records")))
  turn late (w, inl []) = (w, ([], if late then timed_out else running))
  turn late (w, inl (r ∷ rs)) = after_sending (send_all (r ∷ rs) w)

  -- A turn, and the turns after it if the stream still runs.
  pub go_on :
      World × (List LogEntry × Standing)
      → World × (List LogEntry × Standing)
      → World × (List LogEntry × Standing)
  go_on (w, (rs, running)) (w', (rs', st)) = (w', (rs ++ rs', st))
  go_on (w, (rs, timed_out)) rest = (w, (rs, timed_out))
  go_on (w, (rs, stopped e msg)) rest = (w, (rs, stopped e msg))

  -- The loop, for `turns` turns at most; `late` says if the time is over at a turn.
  pub stream_loop : ℕ → (ℕ → Bool) → Request → World → World × (List LogEntry × Standing)
  unfolding turn go_on
  stream_loop zero late req w = (w, ([], running))
  stream_loop (suc n) late req w =
      let r = turn (late n) (find req w) in go_on r (stream_loop n late req r.0)

  -- `streamCtrl`, for a number of turns; `late` is what the timeout of the address makes of the clock.
  unfoldable pub stream_ctrl : ℕ → (ℕ → Bool) → Bytes → World → World × (List LogEntry × Standing)
  unfolding stream_loop
  stream_ctrl turns late body w = elim (decode body) [
    | inr e ↦ (w, ([], stopped e (codes "failed to decode request")))
    | inl req ↦ stream_loop turns late (clamp limit req) w
  ]
