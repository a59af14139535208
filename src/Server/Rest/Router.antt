-- ===== src/Server/Rest/Router.antt =====
-- app/server/rest_server.go: the router with its middleware, and what `Run` sets up. The middleware is
-- that of the package `rest`, the groups of routes are those of `routegroup`, both on `net/http`; they
-- are parameters. The headers that `AppInfo` sets and the log are left out.
pub mod Answered
pub mod Ended
pub mod Examples
use dkll.Base.{
  ℕ, ◌*◌, ◌^◌, ◌≡◌, Bool, true, false, ◌&&◌, ◌||◌, Option, none, some, List, [], ◌∷◌, ◌++◌, ltb,
  leb, ◌==◌, length, map, if◌then◌else◌, Bytes, codes, bytes_eq, has_suffix, ℤ, decimal_ℤ,
}
use dkll.Errors.{Error}
use dkll.Server.Rest.{Service, Response, Standing, find_ctrl, last_ctrl, stream_ctrl}
use dkll.Server.Rest.Timeout.{is_late}
use dkll.Core.{LogEntry}

-- What is read of a request: `timeout` is what `time.ParseDuration` makes of the parameter, if it can.
pub record HttpRequest : Type 0 where
  pub method : Bytes
  pub path : Bytes
  pub timeout : Option ℤ
  pub body : Bytes

-- A handler answers, or panics, which is `none`.
abbrev pub Handler : Type 0 → Type 0 → Type 0
Handler World Reply = HttpRequest → World → World × Option Reply

-- `RestServer`, without its store; the duration is in nanoseconds.
pub record RestServer : Type 0 where
  pub port : ℤ
  pub version : Bytes
  pub stream_duration : ℕ

-- `http.Server`, with times in nanoseconds.
pub record HttpServer (World Reply : Type 0) : Type 0 where
  pub addr : Bytes
  pub handler : Handler World Reply
  pub read_header_timeout : ℕ
  pub write_timeout : ℕ
  pub idle_timeout : ℕ

-- What the router calls. `use_all` puts the middleware around a handler, `mount` is a new mux with the
-- routes under a path, and `in_flight` counts the requests that are served besides the one that comes.
pub record Packages (World Reply : Type 0) : Type 0 where
  pub status : ℕ → Reply
  pub pong : Reply
  pub in_flight : World → ℕ
  pub recoverer : Handler World Reply → Handler World Reply
  pub throttle : ℕ → Handler World Reply → Handler World Reply
  pub app_info : Bytes → Bytes → Bytes → Handler World Reply → Handler World Reply
  pub ping : Handler World Reply → Handler World Reply
  pub size_limit : ℕ → Handler World Reply → Handler World Reply
  pub logger : Handler World Reply → Handler World Reply
  pub use_all :
      List (Handler World Reply → Handler World Reply) → Handler World Reply → Handler World Reply
  pub mount : Bytes → List (Bytes × Handler World Reply) → Handler World Reply

-- The handlers that the router registers.
pub record Ctrls (World Reply : Type 0) : Type 0 where
  pub find : Handler World Reply
  pub stream : Handler World Reply
  pub last : Handler World Reply

-- The duration that `Run` puts in for 0.
unfoldable pub with_duration : RestServer → RestServer
with_duration s = record s {
  stream_duration = if s.stream_duration == 0 then 250 * 10 ^ 6 else s.stream_duration;
}

module _ {World Reply : Type 0} (p : Packages World Reply) where
  -- The routes of the group /v1.
  abbrev pub routes : Ctrls World Reply → List (Bytes × Handler World Reply)
  routes c =
      (codes "POST /find", c.find)
      ∷ (codes "POST /stream", c.stream)
      ∷ (codes "GET /last", c.last)
      ∷ []

  -- The calls of `Use`, in their order.
  abbrev pub middlewares : Bytes → List (Handler World Reply → Handler World Reply)
  middlewares version =
      p.recoverer
      ∷ p.throttle 100
      ∷ p.app_info (codes "dkll") (codes "umputun") version
      ∷ p.ping
      ∷ p.size_limit 1024
      ∷ p.logger
      ∷ []

  -- `router`
  unfoldable pub router : RestServer → Ctrls World Reply → Handler World Reply
  router s c = p.use_all (middlewares s.version) (p.mount (codes "/v1") (routes c))

  -- The server that `Run` starts.
  unfoldable pub http_server : RestServer → Ctrls World Reply → HttpServer World Reply
  unfolding router
  http_server s c = record {
    addr = codes ":" ++ decimal_ℤ s.port;
    handler = router s c;
    read_header_timeout = 5 * 10 ^ 9;
    write_timeout = 30 * 10 ^ 9;
    idle_timeout = 30 * 10 ^ 9;
  }

-- An answer of one of the handlers: a response, or the records of a stream and how it stands after the
-- turns that are observed.
pub data Reply (service : Service) (limit : ℤ) : Type 0 where
  response : Response → Reply service limit
  streamed : List LogEntry → Standing service limit → Reply service limit
  status_only : ℕ → Reply service limit
  pong_text : Reply service limit

-- The handlers of a `Service`; `turns` and `passed` are the turns of a stream and the time at each.
unfoldable pub ctrls :
    (service : Service) (limit : ℤ) → ℕ → (ℕ → ℕ) → Ctrls service.World (Reply service limit)
ctrls service limit turns passed = record {
  find = λ r w. let x = find_ctrl service limit r.body w in (x.0, some (response x.1));
  stream = λ r w.
      let x = stream_ctrl service limit turns (is_late r.timeout passed) r.body w in
      (x.0, some (streamed x.1.0 x.1.1));
  last = λ r w. let x = last_ctrl service limit w in (x.0, some (response x.1));
}
