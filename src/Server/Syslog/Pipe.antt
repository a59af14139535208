-- ===== src/Server/Syslog/Pipe.antt =====
-- app/server/syslog.go: the two goroutines of `Go`, and the channel between them and the forwarder.
use dkll.Base.{
  ℕ, suc, ◌≤◌, ◌<◌, ◌≡◌, ◌≢◌, ◌⊎◌, inl, inr, Bool, true, false, Option, none, some, List, [], ◌∷◌,
  ◌++◌, map, Bytes, codes, length, replicate,
}
use dkll.Errors.{Error}
use dkll.Server.Syslog.{dump}

-- The goroutine that reads the messages: at its `select`, at the send of a text, returned, or panicked
-- at the send of a text.
pub data Reader : Type 0 where
  selecting : Reader
  sending : Bytes → Reader
  returned : Reader
  panicked : Bytes → Reader

-- The goroutine that ends the server: it closes `inCh`, then `outCh`.
pub data Closer : Type 0 where
  open_both closed_in closed_out : Closer

-- The state, with what has passed so far: the lines that the server got, the empty messages that were
-- read from the closed `inCh`, and the texts that the forwarder took.
pub record Pipe : Type 0 where
  pub reader : Reader
  pub closer : Closer
  pub cancelled : Bool
  pub out_ch : List Bytes
  pub lines : List Bytes
  pub empties : ℕ
  pub taken : List Bytes

-- The capacity of `outCh`.
abbrev pub out_cap : ℕ
out_cap = 10000

-- `fmt.Sprintf("%s", parts["msg"])` where there are no parts.
abbrev pub nil_text : Bytes
nil_text = codes "%!s(<nil>)"

abbrev pub new_pipe : Pipe
new_pipe = record {
  reader = selecting;
  closer = open_both;
  cancelled = false;
  out_ch = [];
  lines = [];
  empties = 0;
  taken = [];
}

-- A step of one of the goroutines, of the caller or of the forwarder. `inCh` has no buffer; a receive
-- from it after it is closed gives no parts. A send on `outCh` after it is closed panics. The server
-- passes on no line once `Wait` has returned.
pub data Step (p : Pipe) : Pipe → Type 0 where
  receive :
      (line : Bytes)
      → p.reader ≡ selecting
      → p.closer ≡ open_both
      → Step p (record p { reader = sending (dump line); lines = p.lines ++ line ∷ [] })
  receive_closed :
      p.reader ≡ selecting
      → p.closer ≢ open_both
      → Step p (record p { reader = sending nil_text; empties = suc p.empties })
  send :
      (text : Bytes)
      → p.reader ≡ sending text
      → p.closer ≢ closed_out
      → length p.out_ch < out_cap
      → Step p (record p { reader = selecting; out_ch = p.out_ch ++ text ∷ [] })
  send_closed :
      (text : Bytes)
      → p.reader ≡ sending text
      → p.closer ≡ closed_out
      → Step p (record p { reader = panicked text })
  done : p.reader ≡ selecting → p.cancelled ≡ true → Step p (record p { reader = returned })
  cancel : Step p (record p { cancelled = true })
  close_in : p.cancelled ≡ true → p.closer ≡ open_both → Step p (record p { closer = closed_in })
  close_out : p.closer ≡ closed_in → Step p (record p { closer = closed_out })
  take_text :
      (text : Bytes) (rest : List Bytes)
      → p.out_ch ≡ text ∷ rest
      → Step p (record p { out_ch = rest; taken = p.taken ++ text ∷ [] })

pub data Reach (s : Pipe) : Pipe → Type 0 where
  here : Reach s s
  next : {p q : Pipe} → Reach s p → Step p q → Reach s q

-- The text that a reader holds.
abbrev pub held : Reader → List Bytes
held selecting = []
held (sending text) = text ∷ []
held returned = []
held (panicked text) = text ∷ []

abbrev pub Panicked : Reader → Type 0
Panicked selecting = ⊥
Panicked (sending text) = ⊥
Panicked returned = ⊥
Panicked (panicked text) = Unit

-- The texts of the lines, then the texts of the empty messages.
abbrev pub texts : Pipe → List Bytes
texts p = map dump p.lines ++ replicate p.empties nil_text

pub record IsPipe (p : Pipe) : Type 0 where
  pub passed : p.taken ++ (p.out_ch ++ held p.reader) ≡ texts p
  pub bounded : length p.out_ch ≤ out_cap
  pub none_empty : p.closer ≡ open_both → p.empties ≡ 0
  pub closes_late : p.closer ≢ open_both → p.cancelled ≡ true
  pub panics_late : Panicked p.reader → p.closer ≡ closed_out

-- What `Go` calls of the package `go-syslog`: the listening at a port, and the start of the server.
pub record Listener : Type 1 where
  pub State : Type 0
  pub listen_udp : ℕ → State → State × Option Error
  pub listen_tcp : ℕ → State → State × Option Error
  pub boot : State → State × Option Error

module _ (lib : Listener) where
  -- `Go` after the server listens.
  unfoldable pub go_boot : lib.State × Option Error → lib.State × (Pipe ⊎ Error)
  go_boot (s, none) = (s, inl new_pipe)
  go_boot (s, some e) = (s, inr (codes "failed to activate syslog"))

  unfoldable pub go_tcp : lib.State × Option Error → lib.State × (Pipe ⊎ Error)
  unfolding go_boot
  go_tcp (s, none) = go_boot (lib.boot s)
  go_tcp (s, some e) = (s, inr (codes "syslog can't listen to tcp"))

  unfoldable pub go_udp : ℕ → lib.State × Option Error → lib.State × (Pipe ⊎ Error)
  unfolding go_tcp
  go_udp port (s, none) = go_tcp (lib.listen_tcp port s)
  go_udp port (s, some e) = (s, inr (codes "syslog can't listen to udp"))

  -- `Syslog.Go`, up to the goroutines that it starts.
  unfoldable pub go_syslog : ℕ → lib.State → lib.State × (Pipe ⊎ Error)
  unfolding go_udp
  go_syslog port s = go_udp port (lib.listen_udp port s)
