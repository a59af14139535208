-- ===== src/Server/Examples.antt =====
-- The theorems on the messages of syslog and on the REST server at small inputs.
use dkll.Base.{
  ◌≡◌, inl, refl, true, false, none, [], ◌∷◌, codes, concat, replicate, pos, negsuc, ltb_ℤ,
}
use dkll.Core.{Request, zero_time}
use dkll.Server.Syslog.{dump}
use dkll.Server.Syslog.Pipe.{Pipe, new_pipe, sending, receive, here, next, IsPipe}
use dkll.Server.Syslog.Passed.{Reach-IsPipe}
use dkll.Server.Rest.{Service, clamp, running, stream_ctrl}
use dkll.Server.Rest.Stream.{clamp-bound, stream_ctrl-repeats}
use dkll.Samples.{mongo_entry, nginx_entry}

-- A pipe whose reader holds the first of two messages.
abbrev first_step : Pipe
first_step = record new_pipe { reader = sending (dump (codes "<34>a")); lines = codes "<34>a" ∷ [] }

Reach-IsPipe_example : IsPipe first_step
Reach-IsPipe_example = Reach-IsPipe (next here (receive (codes "<34>a") refl refl))

abbrev below_zero : Request
below_zero = record {
  last_id = [];
  limit = negsuc 4;
  hosts = [];
  containers = [];
  excludes = [];
  from_ts = zero_time;
  to_ts = zero_time;
}

clamp-bound_example :
    (ltb_ℤ (pos 100) (clamp (pos 100) below_zero).limit ≡ false)
    × ((ltb_ℤ below_zero.limit (pos 0) ≡ true) → clamp (pos 100) below_zero ≡ below_zero)
clamp-bound_example = clamp-bound 100 below_zero

-- A store with two entries, whatever it is asked for.
abbrev two_entries : Service
two_entries = record {
  World = Unit {0};
  find = λ r w. (w, inl (mongo_entry ∷ nginx_entry ∷ []));
  last_published = λ w. (w, inl nginx_entry);
  decode = λ b. inl below_zero;
  encode = λ e w. (w, none);
}

stream_ctrl-repeats_example :
    stream_ctrl two_entries (pos 100) 3 (λ n. true) (codes "{}") tt
    ≡ (tt, (concat (replicate 3 (mongo_entry ∷ nginx_entry ∷ [])), running))
stream_ctrl-repeats_example =
    stream_ctrl-repeats two_entries (pos 100) 3 (λ n. true) (codes "{}") below_zero tt mongo_entry
      (nginx_entry ∷ []) refl refl (λ e v. refl)
