-- ===== src/Main.antt =====
-- app/main.go: the choice of the command, and the status with which the process ends.
use dkll.Base.{
  ℕ, ◌≢◌, ◌⊎◌, inl, inr, Bool, false, Option, none, some, List, [], ◌∷◌, if◌then◌else◌, Bytes,
  bytes_eq, All,
}
use dkll.Errors.{Error}

-- How `main` ends: by `os.Exit` with a status, or by returning, which is status 0.
pub data End : Type 0 where
  exit : ℕ → End
  returned : End

-- What the parser of the flags gives: an error, or the flags and the active command, by its name.
pub record Parsed : Type 0 where
  pub help : Bool
  pub version : Bool
  pub active : Option Bytes

-- `p.Active != nil && p.Find(name) == p.Active`
abbrev is_active : Option Bytes → Bytes → Bool
is_active none name = false
is_active (some active) name = bytes_eq name active

module _ (World : Type 0) where
  -- `commander`
  abbrev pub Commander : Type 0
  Commander = World → World × Option Error

  -- The status after a command.
  pub ended : World × Option Error → World × End
  ended (w, none) = (w, exit 0)
  ended (w, some e) = (w, exit 1)

  -- The loop over `dispatch`, in the order in which the map gives its elements.
  pub dispatch : List (Bytes × Commander) → Option Bytes → World → World × End
  unfolding ended
  dispatch [] active w = (w, returned)
  dispatch ((name, command) ∷ commands) active w =
      let rest = dispatch commands active w in
      if is_active active name then ended (command w) else rest

  -- `main`, from the result of the parser.
  unfoldable pub main : List (Bytes × Commander) → Parsed ⊎ Error → World → World × End
  unfolding dispatch
  main commands (inr e) w = (w, exit 1)
  main commands (inl p) w =
      if p.help
      then (w, exit 1)
      else (if p.version then (w, exit 2) else dispatch commands p.active w)

  -- No command of the list has this name.
  abbrev pub Unnamed : Bytes → List (Bytes × Commander) → Type 0
  Unnamed name = All (λ c. c.0 ≢ name)
