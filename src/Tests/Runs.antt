-- ===== src/Tests/Runs.antt =====
-- Examples for mini_docker/container.py.
use mini_docker.Base.{◌+◌, ◌*◌, ◌≡◌, refl, true, false, none, some, [], ◌∷◌, arith}
use mini_docker.Errors.{ok}
use mini_docker.Metadata.Keeping.{Stored}
use mini_docker.Container.Create.{CreateArgs, create}
use mini_docker.Container.Creating.{CreateOutcome, create_lem}
use mini_docker.Container.Start.{start, release}
use mini_docker.Container.Starting.{Refused, start-Fails, Marked, released, release-Marked}
use mini_docker.Container.Stop.{exit_code_from_wait_status, terminate, stop}
use mini_docker.Container.Stopping.{StopOutcome, stop_lem}
use mini_docker.Container.Exits.{exit_code_from_wait_status_lem}
use mini_docker.Container.Remove.{remove}
use mini_docker.Container.Removing.{RemoveOutcome, remove_lem}
use mini_docker.Tests.{host, web, member, world}

web-Stored : Stored host web world
web-Stored = record { has_id = refl; has_file = refl; fits = refl }

waited-Stored : Stored host web (terminate host 10 7 world).1
unfolding terminate mini_docker.Errors.◌>>=◌ mini_docker.World.log
    mini_docker.Container.Stop.meanwhile mini_docker.Container.Stop.try_reap_process
waited-Stored = record { has_id = refl; has_file = refl; fits = refl }

stop_lem_example : StopOutcome "c1" (terminate host 10 7 world) (stop host "c1" 10 world)
unfolding mini_docker.Metadata.Store.has_process mini_docker.Utils.is_process_alive
stop_lem_example =
    stop_lem host web world web 10 7 web-Stored refl refl refl refl waited-Stored refl

member-Stored : Stored host member world
member-Stored = record { has_id = refl; has_file = refl; fits = refl }

start-Fails_example : Refused world (start host "c3" world)
start-Fails_example = start-Fails host member world member-Stored refl refl refl

released-Stored : Stored host member (released host 77 world)
released-Stored = record { has_id = refl; has_file = refl; fits = refl }

release-Marked_example : Marked 77 "c3" (release host "c3" 77 (some member) world).1
release-Marked_example = release-Marked host member member 77 world released-Stored refl

abbrev pub args : CreateArgs
args = record {
  rootfs = "/r";
  command = "/bin/sh" ∷ [];
  name = "";
  hostname = "";
  use_overlay = true;
  cpu_quota = none;
  memory_mb = some 64;
  max_pids = none;
  env = [];
  workdir = "/";
  pod_id = some "p1";
  rootless = false;
  network = false;
  volumes = [];
  uid = none;
  gid = none;
  auto_remove = false;
  interactive = false;
  tty = false;
  detach = true;
  ports = "8080:80" ∷ [];
}

create_lem_example : CreateOutcome args world (create host args world)
create_lem_example = create_lem host args world

exit_code_from_wait_status_lem_example :
    (exit_code_from_wait_status (3 * 256) ≡ 3)
    × (exit_code_from_wait_status (1 * 128 + 9) ≡ 128 + 9)
exit_code_from_wait_status_lem_example =
    exit_code_from_wait_status_lem 3 9 1 (omega arith) (omega arith) (omega arith) (omega arith)

remove_lem_example : RemoveOutcome member world (remove host "c3" false world)
remove_lem_example = remove_lem host member world member-Stored refl
