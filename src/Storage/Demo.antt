-- ===== src/Storage/Demo.antt =====
-- internal/storage/demo.go: GenerateDemoEvents.
pub mod Timeline
use ltm.Prelude.{
  ℕ, zero, suc, ◌+◌, ◌-◌, ◌*◌, ◌%◌, ℤ, pos, negsuc, Bool, true, false, List, [], ◌∷◌, ◌++◌, Text,
  codes, ◌==◌, if◌then◌else◌,
}
use ltm.Go.Numbers.{decimal}
use ltm.Go.Time.{Time, two_64, add_duration}
use ltm.Storage.Event.{Event, Value, number, string, no_event}
use ltm.Storage.Store.{schema_version}

-- `base.Add(time.Duration(i) * 750 * time.Millisecond)`.
abbrev pub demo_time : Time → ℕ → Time
demo_time base i = add_duration base (i * 750000000 % two_64)

abbrev pub worker_name : ℕ → Text
worker_name i = codes "demo-worker-" ++ decimal i

-- The fields that all six share.
abbrev pub demo_base : Time → ℕ → Text → Text → Event
demo_base base i category action = record no_event {
  schema_version = schema_version;
  timestamp = demo_time base i;
  category = category;
  action = action;
  ppid = pos 1;
}

-- Event number i.
unfoldable pub demo_event : Time → ℕ → Event
demo_event base i =
    if i % 6 == 0
    then record (demo_base base i (codes "process") (codes "exec")) {
      pid = pos (4200 + i);
      comm = worker_name i;
      exe = codes "/usr/bin/demo-worker";
      path = codes "/usr/bin/demo-worker";
      metadata = (codes "scenario", string (codes "demo")) ∷ [];
    }
    else if i % 6 == 1
    then record (demo_base base i (codes "file") (codes "write")) {
      pid = pos (4200 + i - 1);
      comm = worker_name (i - 1);
      path = if i % 2 == 0 then codes "/tmp/ltm-demo.txt" else codes "/tmp/ltm-demo.yaml";
      metadata = (codes "bytes", number (pos 128)) ∷ [];
    }
    else if i % 6 == 2
    then record (demo_base base i (codes "network") (codes "listen")) {
      pid = pos 4300;
      comm = codes "demo-web";
      local_addr = codes "127.0.0.1";
      local_port = pos 18080;
    }
    else if i % 6 == 3
    then record (demo_base base i (codes "network") (codes "connect")) {
      pid = pos 4310;
      ppid = pos 4300;
      uid = pos 1000;
      comm = codes "curl";
      remote_addr = codes "127.0.0.1";
      remote_port = pos 18080;
      remote_host = codes "localhost";
    }
    else if i % 6 == 4
    then record (demo_base base i (codes "file") (codes "rename")) {
      pid = pos 4300;
      comm = codes "demo-web";
      path = codes "/tmp/ltm-demo.txt";
      old_path = codes "/tmp/ltm-demo.txt.bak";
    }
    else record (demo_base base i (codes "process") (codes "exit")) {
      pid = pos 4300;
      comm = codes "demo-web";
      exe = codes "/usr/bin/demo-web";
    }

-- The loop from event number i, with how many are left.
unfoldable pub demo_from : Time → ℕ → ℕ → List Event
demo_from base i zero = []
demo_from base i (suc left) = demo_event base i ∷ demo_from base (suc i) left

unfoldable pub generate_demo_events : Time → ℤ → List Event
generate_demo_events start (negsuc n) = []
generate_demo_events start (pos n) = demo_from start 0 n
