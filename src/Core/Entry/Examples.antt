-- ===== src/Core/Entry/Examples.antt =====
-- The theorems on `NewEntry` at the lines of one day.
use dkll.Base.{◌≡◌, ◌↔◌, refl, none, some, [], ◌∷◌, ◌++◌, arith, codes, pos, trim_space, decimal}
use dkll.Core.Clock.{parse_stamp}
use dkll.Core.Clock.Rfc3339.{utc}
use dkll.Core.Clock.RoundTrip.{stamp, parse_stamp-stamp}
use dkll.Core.Entry.{new_entry}
use dkll.Core.Entry.Branches.{Accepted, IsMade, new_entry-accepts, new_entry-IsMade}
use dkll.Core.Entry.RoundTrip.{fields, docker_service, new_entry-docker_line}
use dkll.Samples.{clock_2019, october, october-IsStamp}

parse_stamp-stamp_example : parse_stamp (decimal 2019 ++ b' ' ∷ stamp october) ≡ some october
parse_stamp-stamp_example = parse_stamp-stamp october october-IsStamp

new_entry-docker_line_example :
    new_entry clock_2019 utc (
      stamp october
      ++ b' ' ∷ fields (codes "host-1") (docker_service (codes "mongo") 888) (codes " blah blah "))
    ≡ (
      record {
        id = [];
        host = codes "host-1";
        container = codes "mongo";
        pid = pos 888;
        msg = trim_space (codes " blah blah ");
        ts = utc.instant october;
        created_ts = 7;
      },
      none,
    )
new_entry-docker_line_example =
    new_entry-docker_line clock_2019 utc october october-IsStamp refl b' ' (codes "host-1")
      (codes "mongo") (codes " blah blah ") 888 (omega arith) (omega arith) (omega arith)
      (omega arith) (omega arith)

new_entry-accepts_example :
    ((new_entry clock_2019 utc (codes "Oct 19 15:29:43 host sshd: x")).1 ≡ none)
    ↔ Accepted clock_2019 utc (codes "Oct 19 15:29:43 host sshd: x")
new_entry-accepts_example = new_entry-accepts clock_2019 utc (codes "Oct 19 15:29:43 host sshd: x")

new_entry-IsMade_example :
    IsMade clock_2019 (new_entry clock_2019 utc (codes "Oct 19 15:29:43 host sshd")).0
new_entry-IsMade_example =
    new_entry-IsMade clock_2019 utc (codes "Oct 19 15:29:43 host sshd") (omega arith)
