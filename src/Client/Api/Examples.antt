-- ===== src/Client/Api/Examples.antt =====
-- The theorem on the attempts at a server that answers with a status first.
use dkll.Base.{ℕ, suc, inl, Option, none, some, [], ◌∷◌, ◌==◌, Bytes, codes, pos, if◌then◌else◌}
use dkll.Errors.{Error}
use dkll.Core.{Request, zero_time}
use dkll.Client.Api.{Answer, refused, answered, Http}
use dkll.Samples.{mongo_entry}

-- A request is answered with status 503 the first time, and with an entry later.
abbrev at_server : ℕ → ℕ × Bytes × Answer
at_server w = (suc w, [], answered (if w == 0 then 503 else 200) (inl (codes "[]")))

-- Two attempts.
abbrev twice : (S : Type 0) → (S → S × Option Error) → S → S × Option Error
twice S f s = elim (f s).1 [ none ↦ f s | some e ↦ f (f s).0 ]

abbrev flaky : Http
flaky = record {
  World = ℕ;
  encode = λ r. inl (codes "{}");
  new_request = λ u. none;
  post = λ u body left. at_server;
  get = λ u w. (w, refused (codes "down"));
  decode_items = λ l b. (mongo_entry ∷ [], none);
  decode_entry = λ e b. (e, none);
  repeat = twice;
}

abbrev request : Request
request = record {
  last_id = codes "a1";
  limit = pos 1;
  hosts = [];
  containers = [];
  excludes = [];
  from_ts = zero_time;
  to_ts = zero_time;
}
