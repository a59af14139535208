-- ===== src/Agent/Demo/Examples.antt =====
-- The theorems on the demo mode at small inputs.
use dkll.Base.{◌≡◌, Option, none, some, List, [], ◌∷◌, ◌++◌, Bytes, codes}
use dkll.Errors.{Error}
use dkll.Agent.Demo.{Turn, done, tick, demo_logs}
use dkll.Agent.Demo.Lines.{demo_lines}
use dkll.Agent.Demo.Written.{front, written, written_to, lines_of, standing, demo_logs-lines}

-- A stream that keeps what is written.
abbrev kept : Bytes → List Bytes → List Bytes × Option Error
kept t w = (w ++ t ∷ [], none)

abbrev turns : List Turn
turns = tick 4 ∷ tick 77 ∷ done ∷ tick 5 ∷ []

demo_logs-lines_example :
    demo_logs (List Bytes) kept demo_lines (codes "mongo") turns []
    ≡ some (
      written_to (List Bytes) kept (written (front (lines_of demo_lines (codes "mongo"))) turns) [],
      standing turns,
    )
demo_logs-lines_example = demo_logs-lines (List Bytes) kept (codes "mongo") turns []
