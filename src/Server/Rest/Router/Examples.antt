-- ===== src/Server/Rest/Router/Examples.antt =====
-- The answers of the server to small requests.
use dkll.Base.{
  ◌+◌, ◌-◌, ◌≤◌, ℕ, suc, ◌*◌, ◌^◌, ◌<◌, ◌≡◌, refl, inl, Option, none, some, List, [], ◌∷◌, ◌++◌,
  ltb, leb, length, drop, if◌then◌else◌, Bytes, codes, pos, arith,
}
use dkll.Core.{Request, zero_time}
use dkll.Samples.{mongo_entry, nginx_entry}
use dkll.Server.Rest.{Service, records, timed_out, find_ctrl}
use dkll.Server.Rest.Router.{
  HttpRequest, Handler, RestServer, Packages, with_duration, http_server, Reply, response, streamed,
  status_only, pong_text, ctrls,
}
use dkll.Server.Rest.Router.Answered.{
  is_ping, handler_of, recovered, IsPackages, find, http_server-answers,
}
use dkll.Server.Rest.Router.Ended.{ctrls-ends}

abbrev any_request : Request
any_request = record {
  last_id = [];
  limit = pos 10;
  hosts = [];
  containers = [];
  excludes = [];
  from_ts = zero_time;
  to_ts = zero_time;
}

abbrev two_found : Service
two_found = record {
  World = Unit {0};
  find = λ r w. (w, inl (mongo_entry ∷ nginx_entry ∷ []));
  last_published = λ w. (w, inl nginx_entry);
  decode = λ b. inl any_request;
  encode = λ e w. (w, none);
}

abbrev nothing_found : Service
nothing_found = record two_found { find = λ r w. (w, inl []) }

abbrev Answer : Type 0
Answer = Reply two_found (pos 100)

abbrev Serving : Type 0
Serving = Handler (Unit {0}) Answer

abbrev recovering : Unit {0} × Option Answer → Unit {0} × Option Answer
recovering (w, none) = (w, some (status_only 500))
recovering (w, some x) = (w, some x)

abbrev around : List (Serving → Serving) → Serving → Serving
around [] h = h
around (m ∷ ms) h = m (around ms h)

abbrev found_or_not : Option Serving → HttpRequest → Unit {0} → Unit {0} × Option Answer
found_or_not none r w = (w, some (status_only 404))
found_or_not (some h) r w = h r w

-- The packages, with three requests that are served besides each one.
unfoldable packages : Packages (Unit {0}) Answer
packages = record {
  status = status_only;
  pong = pong_text;
  in_flight = λ w. 3;
  recoverer = λ h r w. recovering (h r w);
  throttle = λ n h r w. if leb n 3 then (w, some (status_only 503)) else h r w;
  app_info = λ a b v h. h;
  ping = λ h r w. if is_ping r then (w, some pong_text) else h r w;
  size_limit = λ n h r w. if ltb n (length r.body) then (w, some (status_only 413)) else h r w;
  logger = λ h. h;
  use_all = around;
  mount = λ base rs r w.
      found_or_not (handler_of (r.method ++ codes " " ++ drop (length base) r.path) rs) r w;
}

recovering-same : (x : Unit {0} × Option Answer) → recovering x ≡ recovered packages x
unfolding packages
recovering-same (w, none) = refl
recovering-same (w, some x) = refl

drop-prefix : (s t : Bytes) → drop (length s) (s ++ t) ≡ t
drop-prefix [] t = refl
drop-prefix (c ∷ s) t = drop-prefix s t

packages-IsPackages : IsPackages (Unit {0}) Answer packages
unfolding packages
packages-IsPackages = record {
  uses_none = λ h. refl;
  uses = λ m ms h. refl;
  recovers = λ h r w. recovering-same (h r w);
  throttles = λ n h r w. refl;
  informs = λ a b v h r w. refl;
  pings = λ h r w. refl;
  limits = λ n h r w. refl;
  logs = λ h r w. refl;
  serves = λ base method path rs h r w found m e. rw (m, e, drop-prefix base path, found) refl;
}

-- POST /v1/find with an empty object.
abbrev post_find : HttpRequest
post_find = record {
  method = codes "POST";
  path = codes "/v1/find";
  timeout = none;
  body = codes "{}";
}

abbrev on_8080 : RestServer
on_8080 = record { port = pos 8080; version = codes "test"; stream_duration = 0 }

http_server-answers_example :
    (http_server packages on_8080 (ctrls two_found (pos 100) 1 (λ n. n))).handler post_find tt
    ≡ (tt, some (response (records (mongo_entry ∷ nginx_entry ∷ []))))
unfolding packages ctrls find_ctrl
http_server-answers_example =
    http_server-answers packages packages-IsPackages on_8080 (ctrls two_found (pos 100) 1 (λ n. n))
      find post_find tt refl refl

-- The times of 1202 turns, each 250 ms after the one before, counted down.
abbrev every_pause : ℕ → ℕ
every_pause n = (1201 - n) * (250 * 10 ^ 6)

every_pause-long :
    (n : ℕ)
    → suc n < 1202
    → every_pause (suc n) + (with_duration on_8080).stream_duration ≤ every_pause n
unfolding with_duration
every_pause-long n h = omega arith

ctrls-ends_example :
    (0 < (with_duration on_8080).stream_duration)
    × ((ctrls nothing_found (pos 100) 1202 every_pause).stream post_find tt
        ≡ (tt, some (streamed [] timed_out)))
unfolding with_duration
ctrls-ends_example =
    ctrls-ends on_8080 nothing_found (pos 100) 1202 1201 every_pause post_find any_request tt refl
      refl every_pause-long (omega arith) (omega arith)
