-- ===== src/Server/Rest/Router/Ended.antt =====
-- How long a stream without records can last: the pauses of its turns and the duration that `Run` sets.
use dkll.Base.{ℕ, zero, suc, ◌+◌, ◌*◌, ◌≤◌, ◌<◌, ◌≡◌, ap, inl, some, [], arith, ℤ}
use dkll.Core.{Request}
use dkll.Server.Rest.{Service, clamp, timed_out}
use dkll.Server.Rest.Timeout.{max_timeout, stream_ctrl-ends}
use dkll.Server.Rest.Router.{HttpRequest, RestServer, with_duration, streamed, ctrls}

-- The time at the turns, which are counted down, where a pause is between each two.
pauses :
    (d turns : ℕ) (passed : ℕ → ℕ)
    → ((n : ℕ) → suc n < turns → passed (suc n) + d ≤ passed n)
    → (k : ℕ) → k < turns
    → k * d + passed k ≤ passed 0
pauses d turns passed h zero more = omega arith
pauses d turns passed h (suc k) more =
    omega (arith, pauses d turns passed h k (omega arith), h k more)

with_duration-pos : (s : RestServer) → 0 < (with_duration s).stream_duration
unfolding with_duration
with_duration-pos s = ground arith

-- The duration that `Run` sets for a stream is never 0. For a request whose body decodes, for which the store, its limit lowered, has no records: if between
-- each two turns the pause is at least that duration, then a number of
-- turns whose pauses together are longer than five minutes, and one more, is enough for it to end by
-- its timeout, whatever its parameter says. It has sent nothing then.
pub ctrls-ends :
    (s : RestServer) (service : Service) (limit : ℤ) (turns k : ℕ) (passed : ℕ → ℕ)
    (r : HttpRequest) (req : Request) (w : service.World)
    → service.decode r.body ≡ inl req
    → service.find (clamp limit req) w ≡ (w, inl [])
    → ((n : ℕ) → suc n < turns → passed (suc n) + (with_duration s).stream_duration ≤ passed n)
    → max_timeout < k * (with_duration s).stream_duration
    → k < turns
    → (0 < (with_duration s).stream_duration)
      × ((ctrls service limit turns passed).stream r w ≡ (w, some (streamed [] timed_out)))
unfolding ctrls
ctrls-ends s service limit turns k passed r req w d f h long more =
    let late = pauses (with_duration s).stream_duration turns passed h k more in
    let ends =
      stream_ctrl-ends service limit turns 0 r.timeout passed r.body req w d f (omega arith)
        (omega arith) in
    (with_duration-pos s, ap (λ x. (x.0, some (streamed x.1.0 x.1.1))) ends)
