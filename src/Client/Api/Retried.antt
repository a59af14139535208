-- ===== src/Client/Api/Retried.antt =====
-- What the client gets from its repeated attempts.
use dkll.Base.{
  ℕ, ◌≡◌, ◌⊎◌, ◌==◌, true, inl, inr, Option, none, some, List, [], ◌∷◌, ◌++◌, Bytes, codes,
}
use dkll.Errors.{Error}
use dkll.Core.{LogEntry, Request}
use dkll.Client.Api.{Answer, answered, Http, next_id, read_items}

-- The attempts of `Do` while the context is not done, with a strategy of one attempt or more: until one
-- succeeds, or until it gives up after one that failed, with the error of that one.
pub data Ran {S : Type 0} (f : S → S × Option Error) : S → S × Option Error → Type 0 where
  success : (s : S) → (f s).1 ≡ none → Ran f s (f s)
  again :
      (s : S) (e : Error) (r : S × Option Error) → (f s).1 ≡ some e → Ran f (f s).0 r → Ran f s r
  gave_up : (s : S) (e : Error) → (f s).1 ≡ some e → Ran f s (f s)

-- The documented behaviour of the repeater.
pub record IsRepeater (http : Http) : Type 1 where
  pub runs : (S : Type 0) (f : S → S × Option Error) (s : S) → Ran f s (http.repeat S f s)

module _ (http : Http) (api : Bytes) (req : Request) (body : Bytes) where
  open http use {World, post}

  -- What a request makes of an answer, without the attempts before it.
  unfoldable pub outcome : Answer → Option (List LogEntry × Bytes)
  unfolding read_items next_id
  outcome answer =
      let r = read_items http api [] answer in
      elim r.1 [ none ↦ some (r.0, next_id req.last_id r.0) | some e ↦ none ]

  -- The error that an answer comes to, if any.
  unfoldable pub failure : Answer → Option Error
  unfolding read_items
  failure answer = (read_items http api [] answer).1

  abbrev pub posted : World → Bytes → World × Bytes × Answer
  posted w left = post (api ++ codes "/find") body left w

  -- Attempts of which none has given entries, from a state of the world and of the body to another.
  pub data Failed : World → Bytes → World → Bytes → Type 0 where
    no_more : {w : World} {left : Bytes} → Failed w left w left
    one_more :
        {w v : World} {left rest : Bytes}
        → outcome (posted w left).2 ≡ none
        → Failed (posted w left).0 (posted w left).1 v rest
        → Failed w left v rest

  -- Every answer with status 200 and a body has a list of entries in it.
  abbrev pub ServesEntries : Type 0
  ServesEntries =
      (w : World) (left : Bytes) (code b : ℕ) (text : Bytes)
      → (code == 200) ≡ true
      → (posted w left).2 ≡ answered code (inl (b ∷ text))
      → (http.decode_items [] (b ∷ text)).1 ≡ none

  -- The last attempt: it gives what the call does, or it fails as the call does.
  abbrev pub Decides : World → Bytes → World × ((List LogEntry × Bytes) ⊎ Error) → Type 0
  Decides v rest result =
      ((r : List LogEntry × Bytes) × (outcome (posted v rest).2 ≡ some r)
        × (result ≡ ((posted v rest).0, inl r)))
      ⊎ ((e : Error) × (failure (posted v rest).2 ≡ some e) × (result ≡ ((posted v rest).0, inr e)))
