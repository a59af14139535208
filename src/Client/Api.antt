-- ===== src/Client/Api.antt =====
-- app/client/cli.go: the two requests of the client to the server, over HTTP.
pub mod Retried
pub mod Examples
use dkll.Base.{
  ℕ, zero, suc, ◌≡◌, ◌≢◌, ◌⊎◌, inl, inr, refl, Bool, true, false, not, ◌&&◌, Option, none, some,
  List, [], ◌∷◌, ◌++◌, ◌==◌, if◌then◌else◌, Bytes, codes, length, last_or,
}
use dkll.Errors.{Error}
use dkll.Core.{LogEntry, Request}

-- What `http.Client` gives: an error of its own, or a status with a body, whose reading may fail.
pub data Answer : Type 0 where
  refused : Error → Answer
  answered : ℕ → Bytes ⊎ Error → Answer

-- What the client calls: the encoding of a request; `http.NewRequest`, which may refuse an address; a
-- request with a body, of which the first text is the whole, which `http.NewRequest` keeps and `Do` may
-- go back to, and the second what is still to be read, and what is left of that afterwards; a request
-- without one; the reading of entries into a list, which may be changed also by a reading that fails, and
-- of one entry; and `Do` of the repeater.
pub record Http : Type 1 where
  pub World : Type 0
  pub encode : Request → Bytes ⊎ Error
  pub new_request : Bytes → Option Error
  pub post : Bytes → Bytes → Bytes → World → World × Bytes × Answer
  pub get : Bytes → World → World × Answer
  pub decode_items : List LogEntry → Bytes → List LogEntry × Option Error
  pub decode_entry : LogEntry → Bytes → LogEntry × Option Error
  pub repeat : (S : Type 0) → (S → S × Option Error) → S → S × Option Error

-- len(items) == 0 or the last one.
unfoldable pub next_id : Bytes → List LogEntry → Bytes
next_id id [] = id
next_id id (e ∷ es) = (last_or e es).id

module _ (http : Http) (api : Bytes) where
  open http use {World, encode, new_request, post, get, decode_items, decode_entry}

  -- What the attempts share: what is left of the body, and the entries that were read.
  pub record Attempt : Type 0 where
    pub world : World
    pub left : Bytes
    pub items : List LogEntry

  -- An answer, as the function of `getNext` takes it.
  pub read_items : List LogEntry → Answer → List LogEntry × Option Error
  read_items items (refused e) = (items, some e)
  read_items items (answered code (inr e)) =
      (items, some (if code == 200 then codes "can't read next response body" else codes "status"))
  read_items items (answered code (inl [])) =
      (items, if code == 200 then none else some (codes "status"))
  read_items items (answered code (inl (b ∷ body))) =
      if code == 200 then decode_items items (b ∷ body) else (items, some (codes "status"))

  unfoldable pub after_post : List LogEntry → World × Bytes × Answer → Attempt × Option Error
  unfolding read_items
  after_post items (w, left, answer) =
      let r = read_items items answer in (record { world = w; left = left; items = r.0 }, r.1)

  -- One attempt of `getNext`: every attempt sends the same request, with its body.
  unfoldable pub attempt : Bytes → Attempt → Attempt × Option Error
  unfolding after_post
  attempt body a = after_post a.items (post (api ++ codes "/find") body a.left a.world)

  -- The end of `getNext`.
  pub got_next : Request → Attempt × Option Error → World × ((List LogEntry × Bytes) ⊎ Error)
  unfolding next_id
  got_next request (a, some e) = (a.world, inr e)
  got_next request (a, none) = (a.world, inl (a.items, next_id request.last_id a.items))

  pub send_next : Request → Option Error → Bytes → World → World × ((List LogEntry × Bytes) ⊎ Error)
  unfolding got_next attempt
  send_next request (some e) body w = (w, inr e)
  send_next request none body w =
      got_next request
        (http.repeat Attempt (attempt body) (record { world = w; left = body; items = [] }))

  pub get_encoded : Request → Bytes ⊎ Error → World → World × ((List LogEntry × Bytes) ⊎ Error)
  unfolding send_next
  get_encoded request (inr e) w = (w, inr e)
  get_encoded request (inl body) w = send_next request (new_request (api ++ codes "/find")) body w

  -- `getNext`
  unfoldable pub get_next : Request → World → World × ((List LogEntry × Bytes) ⊎ Error)
  unfolding get_encoded
  get_next request w = get_encoded request (encode request) w

  -- What the attempts of `getLastID` share.
  pub record Last : Type 0 where
    pub world : World
    pub entry : LogEntry

  pub read_last : LogEntry → Answer → LogEntry × Option Error
  read_last e (refused x) = (e, some (codes "can't get last id"))
  read_last e (answered code (inr x)) = (e, some (if code == 200 then x else codes "http code"))
  read_last e (answered code (inl body)) =
      if code == 200 then decode_entry e body else (e, some (codes "http code"))

  pub attempt_last : Last → Last × Option Error
  unfolding read_last
  attempt_last l =
      let r = get (api ++ codes "/last") l.world in
      let read = read_last l.entry r.1 in (record { world = r.0; entry = read.0 }, read.1)

  pub got_last : Last × Option Error → World × (Bytes ⊎ Error)
  got_last (l, some e) = (l.world, inr e)
  got_last (l, none) = (l.world, inl l.entry.id)

  -- `getLastID`, from the zero value of an entry.
  unfoldable pub get_last_id : LogEntry → World → World × (Bytes ⊎ Error)
  unfolding attempt_last got_last
  get_last_id zero_entry w =
      got_last (http.repeat Last attempt_last (record { world = w; entry = zero_entry }))
