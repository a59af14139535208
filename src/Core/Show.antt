-- ===== src/Core/Show.antt =====
-- The `String` methods of app/core: of a log entry, and of a request.
use dkll.Base.{List, [], ◌∷◌, ◌++◌, if◌then◌else◌, Bytes, codes, decimal_ℤ, ◌≡◌, refl, pos}
use dkll.Core.{Time, zero_time, is_zero, LogEntry, Request}

-- strings.Join(parts, sep)
unfoldable pub join : List Bytes → Bytes → Bytes
join [] sep = []
join (p ∷ []) sep = p
join (p ∷ q ∷ ps) sep = p ++ sep ++ join (q ∷ ps) sep

-- How a time is printed depends on the time zones of the system.
module _ (show_time : Time → Bytes) where
  -- `LogEntry.String`; `show_time` prints `TS.In(time.Local)`.
  unfoldable pub show_entry : LogEntry → Bytes
  unfolding decimal_ℤ
  show_entry e =
      show_time e.ts
      ++ codes " : "
      ++ e.host
      ++ codes "/"
      ++ e.container
      ++ codes " ["
      ++ decimal_ℤ e.pid
      ++ codes "] - "
      ++ e.msg

  -- A list of texts under `%s`.
  show_list : List Bytes → Bytes
  unfolding join
  show_list l = codes "[" ++ join l (codes " ") ++ codes "]"

  -- `Request.String`; `show_time` prints in the format of RFC 3339.
  unfoldable pub show_request : Request → Bytes
  unfolding join show_list decimal_ℤ
  show_request r =
      let head =
        codes "hosts="
        ++ show_list r.hosts
        ++ codes ", containers="
        ++ show_list r.containers
        ++ codes ", excludes="
        ++ show_list r.excludes
        ++ codes ", max="
        ++ decimal_ℤ r.limit in
      let from = if is_zero r.from_ts then [] else (codes "from=" ++ show_time r.from_ts) ∷ [] in
      let to = if is_zero r.to_ts then [] else (codes "to=" ++ show_time r.to_ts) ∷ [] in
      join ((head ∷ []) ++ from ++ to ++ (codes "last-id=" ++ r.last_id) ∷ []) (codes ", ")

abbrev sample : Request
sample = record {
  last_id = codes "id1";
  limit = pos 99;
  hosts = codes "h1" ∷ codes "h2" ∷ [];
  containers = [];
  excludes = codes "x" ∷ [];
  from_ts = 1;
  to_ts = zero_time;
}

show_request-sample :
    show_request (λ _. codes "T") sample
    ≡ codes "hosts=[h1 h2], containers=[], excludes=[x], max=99, from=T, last-id=id1"
unfolding show_request
show_request-sample = refl
