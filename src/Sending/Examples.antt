-- ===== src/Sending/Examples.antt =====
-- A line of the agent at the server.
use dkll.Base.{
  has_suffix, ◌≤◌, length, ◌≡◌, refl, true, false, none, [], ◌∷◌, ◌++◌, arith, codes, pos,
  trim_space, decimal,
}
use dkll.Core.Clock.Rfc3339.{utc, instant_in}
use dkll.Core.Clock.Rfc3339.Printed.{plus, zone_of, rfc3339}
use dkll.Core.Entry.{new_entry}
use dkll.Core.Entry.RoundTrip.{fields}
use dkll.Samples.{clock_2019, october, october-IsStamp}
use dkll.Server.Syslog.{dump, tagged}
use dkll.Cmd.Agent.{AgentOpts, syslog_tag}
use dkll.Sending.{Wire, IsWire, with_newline, trim_control, new_entry-message}

abbrev network : Wire
network = record {
  message = λ priority c z host tag pid text. tagged (decimal priority) (
      rfc3339 c z
      ++ b' ' ∷ fields host (tag ++ b'[' ∷ (decimal pid ++ codes "]:")) (with_newline text));
  received = trim_control;
}

network-IsWire : IsWire network
network-IsWire = record { format = λ p c z host tag pid text. refl; receives = λ s h. refl }

abbrev by_syslog : AgentOpts
by_syslog = record {
  enable_syslog = true;
  syslog_prefix = codes "docker/";
  enable_files = false;
  mix_err = false;
  files_location = codes "logs";
  excludes = none;
  includes = none;
  ext_json = false;
  demo_mode = false;
}

short :
    length (
      network.message 30 october
        (plus 2 0)
        (codes "host-1")
        (syslog_tag by_syslog (codes "mongo"))
        888
        (codes " started "))
    ≤ 65507
unfolding syslog_tag rfc3339 decimal has_suffix
short = omega arith

new_entry-message_example :
    new_entry clock_2019 utc (
      dump (
        network.received (
          network.message 30 october
            (plus 2 0)
            (codes "host-1")
            (syslog_tag by_syslog (codes "mongo"))
            888
            (codes " started "))))
    ≡ (
      record {
        id = [];
        host = codes "host-1";
        container = codes "mongo";
        pid = pos 888;
        msg = trim_space (trim_control (codes " started "));
        ts = instant_in (zone_of (plus 2 0)) october;
        created_ts = 7;
      },
      none,
    )
new_entry-message_example =
    new_entry-message network network-IsWire by_syslog clock_2019 utc october (plus 2 0) 30 888
      (codes "host-1") (codes "mongo") (codes " started ") refl october-IsStamp
      (omega arith, omega arith) (omega arith) (omega arith) (omega arith) (omega arith)
      (omega arith) (omega arith) (omega arith) short
