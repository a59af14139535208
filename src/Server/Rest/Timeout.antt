-- ===== src/Server/Rest/Timeout.antt =====
-- When a stream without records ends: the timeout of `streamCtrl`.
use dkll.Base.{
  ℕ, zero, suc, ◌*◌, ◌^◌, ◌<◌, ◌≡◌, inl, inr, refl, Bool, true, false, ◌||◌, Option, none, some, [],
  arith, if◌then◌else◌, Bytes, ℤ, pos, negsuc, ltb_ℤ, Bool-cases,
}
use dkll.Core.{Request}
use dkll.Server.Rest.{Service, clamp, running, timed_out, turn, go_on, stream_loop, stream_ctrl}

-- Five minutes, in nanoseconds.
abbrev pub max_timeout : ℕ
max_timeout = 5 * 60 * 10 ^ 9

-- The timeout, from what `time.ParseDuration` reads of the parameter, if it can.
unfoldable stream_timeout : Option ℤ → ℤ
stream_timeout none = pos max_timeout
stream_timeout (some tm) = if ltb_ℤ (pos max_timeout) tm then pos max_timeout else tm

-- `time.Since(st) > timeout`, for the time that has passed at a turn.
unfoldable pub is_late : Option ℤ → (ℕ → ℕ) → ℕ → Bool
unfolding stream_timeout
is_late param passed n = ltb_ℤ (stream_timeout param) (pos (passed n))

-- The time is over at one of the turns, which are counted down.
abbrev any_late : (ℕ → Bool) → ℕ → Bool
any_late late zero = false
any_late late (suc n) = late n || any_late late n

ltb_trans : (n m : ℕ) (t : ℤ) → n < m → ltb_ℤ (pos n) t ≡ false → ltb_ℤ t (pos m) ≡ true
ltb_trans n m (pos k) h e = ground arith
ltb_trans n m (negsuc k) h e = ground arith

is_late-max :
    (param : Option ℤ) (passed : ℕ → ℕ) (k : ℕ)
    → max_timeout < passed k
    → is_late param passed k ≡ true
unfolding is_late stream_timeout
is_late-max none passed k h = ground arith
is_late-max (some t) passed k h = elim (Bool-cases (ltb_ℤ (pos max_timeout) t)) [
  | inl e ↦ rw e (ground arith)
  | inr e ↦ rw e (ltb_trans max_timeout (passed k) t h e)
]

any_late-at : (late : ℕ → Bool) (k n : ℕ) → k < n → late k ≡ true → any_late late n ≡ true
any_late-at late k zero h e = absurd (omega arith)
any_late-at late k (suc n) h e = elim (Bool-cases (late n)) [
  | inl l ↦ rw l refl
  | inr l ↦ rw l (any_late-at late k n (grind arith) e)
]

module _ (service : Service) (limit : ℤ) where
  open service use {World, find, decode}

  stream_loop-any_late :
      (late : ℕ → Bool) (req : Request) (w : World)
      → find req w ≡ (w, inl [])
      → (n : ℕ)
      → stream_loop service limit n late req w
        ≡ (w, ([], if any_late late n then timed_out else running))
  unfolding stream_loop turn go_on
  stream_loop-any_late late req w f zero = refl
  stream_loop-any_late late req w f (suc n) = elim (Bool-cases (late n)) [
    | inl l ↦ rw (f, l) refl
    | inr l ↦ rw (f, l, stream_loop-any_late late req w f n) refl
  ]

  -- For a stream whose body decodes to a request, while the store, its limit lowered, has no
  -- records for it: if at one of its turns more than five minutes have passed, the stream has ended by its timeout,
  -- whatever the parameter of its address says, and has sent nothing.
  pub stream_ctrl-ends :
      (turns k : ℕ) (param : Option ℤ) (passed : ℕ → ℕ) (body : Bytes) (req : Request) (w : World)
      → decode body ≡ inl req
      → find (clamp limit req) w ≡ (w, inl [])
      → k < turns
      → max_timeout < passed k
      → stream_ctrl service limit turns (is_late param passed) body w ≡ (w, ([], timed_out))
  unfolding stream_ctrl
  stream_ctrl-ends turns k param passed body req w d f h late =
      let ends = any_late-at (is_late param passed) k turns h (is_late-max param passed k late) in
      rw
        (
          d,
          stream_ctrl,
          stream_loop-any_late (is_late param passed) (clamp limit req) w f turns,
          ends,
        )
        refl
