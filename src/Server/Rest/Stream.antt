-- ===== src/Server/Rest/Stream.antt =====
-- What a client of the server receives: the clamped limit, and the records of a stream.
use dkll.Base.{
  ℕ, zero, suc, ◌≡◌, ◌≢◌, inl, inr, refl, ap, Bool, true, false, ◌||◌, none, List, [], ◌∷◌,
  replicate, concat, arith, Bytes, ℤ, pos, negsuc, ltb_ℤ, eq_ℤ, Bool-cases,
}
use dkll.Core.{LogEntry, Request}
use dkll.Server.Rest.{
  Service, clamp, running, send_all, turn, push_sent, after_sending, go_on, stream_loop,
  stream_ctrl,
}

not_less : (n : ℕ) → ltb_ℤ (pos n) (pos n) ≡ false
not_less n = ground arith

right_false : (a b : Bool) → (a || b) ≡ false → b ≡ false
right_false a b h = ground arith

negative_stays :
    (n : ℕ) (l : ℤ) → ltb_ℤ l (pos 0) ≡ true → (eq_ℤ l (pos 0) || ltb_ℤ (pos n) l) ≢ true
negative_stays n (pos k) h = ground arith
negative_stays n (negsuc k) h = ground arith

-- For a server's limit that is not negative: the limit that reaches the store is not above it, but a
-- request with a negative limit reaches the store unchanged.
pub clamp-bound :
    (n : ℕ) (req : Request)
    → (ltb_ℤ (pos n) (clamp (pos n) req).limit ≡ false)
      × ((ltb_ℤ req.limit (pos 0) ≡ true) → (clamp (pos n) req) ≡ req)
unfolding clamp
clamp-bound n req = elim (Bool-cases (eq_ℤ req.limit (pos 0) || ltb_ℤ (pos n) req.limit)) [
  | inl e ↦ rw e (not_less n, λ h. absurd (negative_stays n req.limit h e))
  | inr e ↦ rw e (right_false _ _ e, λ h. refl)
]

module _ (service : Service) (limit : ℤ) where
  open service use {World, find, decode, encode}

  send_all-sent :
      (rs : List LogEntry) (w : World)
      → ((e : LogEntry) (v : World) → encode e v ≡ (v, none))
      → send_all service limit rs w ≡ (w, (rs, none))
  unfolding send_all push_sent
  send_all-sent [] w h = refl
  send_all-sent (r ∷ rs) w h = rw (h r w, send_all-sent rs w h, push_sent) refl

  turn-sends :
      (late : Bool) (req : Request) (w : World) (r : LogEntry) (rs : List LogEntry)
      → find req w ≡ (w, inl (r ∷ rs))
      → ((e : LogEntry) (v : World) → encode e v ≡ (v, none))
      → turn service limit late (find req w) ≡ (w, (r ∷ rs, running))
  unfolding turn after_sending
  turn-sends late req w r rs f h =
      rw f (ap (after_sending service limit) (send_all-sent (r ∷ rs) w h))

  stream_loop-repeats :
      (late : ℕ → Bool) (req : Request) (w : World) (r : LogEntry) (rs : List LogEntry)
      → find req w ≡ (w, inl (r ∷ rs))
      → ((e : LogEntry) (v : World) → encode e v ≡ (v, none))
      → (n : ℕ)
      → stream_loop service limit n late req w ≡ (w, (concat (replicate n (r ∷ rs)), running))
  unfolding stream_loop go_on
  stream_loop-repeats late req w r rs f h zero = refl
  stream_loop-repeats late req w r rs f h (suc n) =
      let sends = turn-sends (late n) req w r rs f h in
      rw (sends, stream_loop-repeats late req w r rs f h n) refl

  -- While the store answers the request, its limit lowered, with the same records and there are some,
  -- and each entry is written without an error: whatever the timeout, a stream sends these records at
  -- each of its turns and does not end, since its request is never advanced.
  pub stream_ctrl-repeats :
      (turns : ℕ) (late : ℕ → Bool) (body : Bytes) (req : Request) (w : World) (r : LogEntry)
      (rs : List LogEntry)
      → decode body ≡ inl req
      → find (clamp limit req) w ≡ (w, inl (r ∷ rs))
      → ((e : LogEntry) (v : World) → encode e v ≡ (v, none))
      → stream_ctrl service limit turns late body w
        ≡ (w, (concat (replicate turns (r ∷ rs)), running))
  unfolding stream_ctrl
  stream_ctrl-repeats turns late body req w r rs d f h =
      rw (d, stream_ctrl) (stream_loop-repeats late (clamp limit req) w r rs f h turns)
