-- ===== src/Server/Rest/Router/Answered.antt =====
-- What the server answers to a request: the middleware in its order, then the handler of the route.
use dkll.Base.{
  ◌+◌, ℕ, suc, ◌≡◌, refl, Bool, false, ◌&&◌, ◌||◌, Option, none, some, List, [], ◌∷◌, ◌++◌, ltb,
  leb, length, map, if◌then◌else◌, Bytes, codes, bytes_eq, has_suffix, Bool-cases, inl, inr, arith,
}
use dkll.Server.Rest.Router.{
  HttpRequest, Handler, RestServer, Packages, Ctrls, routes, middlewares, router, http_server,
}

-- strings.ToLower, on ASCII
abbrev lower : ℕ → ℕ
lower c = if leb b'A' c && leb c b'Z' then c + 32 else c

-- The requests that the middleware `Ping` answers.
unfoldable pub is_ping : HttpRequest → Bool
is_ping r =
    (bytes_eq r.method (codes "GET") || bytes_eq r.method (codes "HEAD"))
    && has_suffix (map lower r.path) (codes "/ping")

-- The handler of a pattern among the routes of a group.
unfoldable pub handler_of : {H : Type 0} → Bytes → List (Bytes × H) → Option H
handler_of pattern [] = none
handler_of pattern ((s, h) ∷ rest) =
    let later = handler_of pattern rest in if bytes_eq s pattern then some h else later

-- What `Recoverer` makes of a panic.
abbrev pub recovered :
    {World Reply : Type 0} → Packages World Reply → World × Option Reply → World × Option Reply
recovered p (w, none) = (w, some (p.status 500))
recovered p (w, some x) = (w, some x)

-- What the packages document: the middleware that is used first is the outermost one, `Throttle` refuses
-- a request while as many as its limit are served, `SizeLimit` one with a longer body, `Ping` answers by
-- itself, and a group serves a request by the handler with its method and with the rest of its path.
pub record IsPackages (World Reply : Type 0) (p : Packages World Reply) : Type 0 where
  pub uses_none : (h : Handler World Reply) → p.use_all [] h ≡ h
  pub uses :
      (m : Handler World Reply → Handler World Reply)
      (ms : List (Handler World Reply → Handler World Reply)) (h : Handler World Reply)
      → p.use_all (m ∷ ms) h ≡ m (p.use_all ms h)
  pub recovers :
      (h : Handler World Reply) (r : HttpRequest) (w : World)
      → p.recoverer h r w ≡ recovered p (h r w)
  pub throttles :
      (n : ℕ) (h : Handler World Reply) (r : HttpRequest) (w : World)
      → p.throttle (suc n) h r w
        ≡ (if leb (suc n) (p.in_flight w) then (w, some (p.status 503)) else h r w)
  pub informs :
      (app author version : Bytes) (h : Handler World Reply) (r : HttpRequest) (w : World)
      → p.app_info app author version h r w ≡ h r w
  pub pings :
      (h : Handler World Reply) (r : HttpRequest) (w : World)
      → p.ping h r w ≡ (if is_ping r then (w, some p.pong) else h r w)
  pub limits :
      (n : ℕ) (h : Handler World Reply) (r : HttpRequest) (w : World)
      → p.size_limit n h r w ≡ (if ltb n (length r.body) then (w, some (p.status 413)) else h r w)
  pub logs : (h : Handler World Reply) (r : HttpRequest) (w : World) → p.logger h r w ≡ h r w
  pub serves :
      (base method path : Bytes) (rs : List (Bytes × Handler World Reply)) (h : Handler World Reply)
      (r : HttpRequest) (w : World)
      → handler_of (method ++ codes " " ++ path) rs ≡ some h
      → r.method ≡ method
      → r.path ≡ base ++ path
      → p.mount base rs r w ≡ h r w

-- The three routes of the service, with their methods, their paths and their handlers.
pub data Route : Type 0 where
  find stream last : Route

abbrev pub method_of : Route → Bytes
method_of find = codes "POST"
method_of stream = codes "POST"
method_of last = codes "GET"

abbrev pub path_of : Route → Bytes
path_of find = codes "/v1/find"
path_of stream = codes "/v1/stream"
path_of last = codes "/v1/last"

abbrev pub ctrl_of : {World Reply : Type 0} → Route → Ctrls World Reply → Handler World Reply
ctrl_of find c = c.find
ctrl_of stream c = c.stream
ctrl_of last c = c.last

and_false : (a : Bool) → (a && false) ≡ false
and_false a = ground arith

module _ {World Reply : Type 0} (p : Packages World Reply) (laws : IsPackages World Reply p) where
  -- The middleware around any handler, as one test after the other.
  unfoldable gate : Handler World Reply → Handler World Reply
  gate h r w =
      if leb 100 (p.in_flight w)
      then (w, some (p.status 503))
      else (if is_ping r
          then (w, some p.pong)
          else (if ltb 1024 (length r.body) then (w, some (p.status 413)) else h r w))

  uses_middlewares :
      (version : Bytes) (h : Handler World Reply) (r : HttpRequest) (w : World)
      → p.use_all (middlewares p version) h r w ≡ recovered p (gate h r w)
  unfolding gate
  uses_middlewares version h r w =
      rw
        (
          laws.uses, laws.recovers, laws.uses, laws.throttles, laws.uses, laws.informs, laws.uses,
          laws.pings, laws.uses, laws.limits, laws.uses, laws.uses_none, laws.logs,
        )
        refl

  recovered-gate :
      (h : Handler World Reply) (r : HttpRequest) (w : World)
      → is_ping r ≡ false
      → recovered p (gate h r w) ≡ (
          if leb 100 (p.in_flight w)
          then (w, some (p.status 503))
          else (if ltb 1024 (length r.body) then (w, some (p.status 413)) else recovered p (h r w)))
  unfolding gate
  recovered-gate h r w e = elim (Bool-cases (leb 100 (p.in_flight w))) [
    | inl full ↦ rw full refl
    | inr free ↦ elim (Bool-cases (ltb 1024 (length r.body))) [
      | inl long ↦ rw (free, e, long) refl
      | inr short ↦ rw (free, e, short) refl
    ]
  ]

  not_ping : (route : Route) (r : HttpRequest) → r.path ≡ path_of route → is_ping r ≡ false
  unfolding is_ping has_suffix
  not_ping find r e = rw e (and_false _)
  not_ping stream r e = rw e (and_false _)
  not_ping last r e = rw e (and_false _)

  served :
      (route : Route) (c : Ctrls World Reply) (r : HttpRequest) (w : World)
      → r.method ≡ method_of route
      → r.path ≡ path_of route
      → p.mount (codes "/v1") (routes p c) r w ≡ ctrl_of route c r w
  unfolding handler_of
  served find c r w =
      laws.serves (codes "/v1") (codes "POST") (codes "/find") (routes p c) c.find r w refl
  served stream c r w =
      laws.serves (codes "/v1") (codes "POST") (codes "/stream") (routes p c) c.stream r w refl
  served last c r w =
      laws.serves (codes "/v1") (codes "GET") (codes "/last") (routes p c) c.last r w refl

  -- For packages that behave as they document, and whatever the handlers do: a request with the method
  -- and the path of one of the three routes gets status 503 while 100 others or more are served, else
  -- status 413 if its body has more than 1024 bytes, else what the handler of its route answers, and
  -- status 500 if that panics.
  pub http_server-answers :
      (s : RestServer) (c : Ctrls World Reply) (route : Route) (r : HttpRequest) (w : World)
      → r.method ≡ method_of route
      → r.path ≡ path_of route
      → (http_server p s c).handler r w ≡ (
          if leb 100 (p.in_flight w)
          then (w, some (p.status 503))
          else (if ltb 1024 (length r.body)
              then (w, some (p.status 413))
              else recovered p (ctrl_of route c r w)))
  unfolding http_server router
  http_server-answers s c route r w m e =
      let h = p.mount (codes "/v1") (routes p c) in
      rw
        (
          uses_middlewares s.version h r w,
          recovered-gate h r w (not_ping route r e),
          served route c r w m e,
        )
        refl
