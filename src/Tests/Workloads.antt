-- ===== src/Tests/Workloads.antt =====
-- Examples for the container's process, for mini_docker/host.py and for mini_docker/daemon.py.
use mini_docker.Base.{◌≡◌, refl, any, true, false, none, some, List, [], ◌∷◌}
use mini_docker.Container.Create.{create}
use mini_docker.Container.Remove.{restart, remove}
use mini_docker.Container.Start.{start as start_container}
use mini_docker.Container.Stop.{stop}
use mini_docker.Daemon.{do_delete, do_post, status}
use mini_docker.Daemon.Answers.{Answers, Tells, requests-Answers, delete-running}
use mini_docker.Errors.{ok}
use mini_docker.Host.Checks.{Machine, report_ok}
use mini_docker.Host.Cleaning.{Host, Operation, cleanup_runtime_resources}
use mini_docker.Host.DryRun.{dry_run_lem}
use mini_docker.Host.Guards.{Cleaned, cleanup_lem}
use mini_docker.Host.Verdicts.{is_fit, report_ok-eq}
use mini_docker.Metadata.Config.{ContainerConfig, running}
use mini_docker.Metadata.Keeping.{Stored}
use mini_docker.Metadata.Store.{has_process, save_container_config, with_status}
use mini_docker.Tests.{host, web, member, world}
use mini_docker.Tests.Runs.{args}
use mini_docker.World.{World, written}
use mini_docker.Workload.Admitted.{Admitted, events, run_container_lem}
use mini_docker.Workload.Process.{Kernel}
use mini_docker.Workload.Race.{Race, Phase, Pending, start}
use mini_docker.Workload.Steps.{started}
use mini_docker.Workload.Run.{supervised, finished}

-- A container that was created, and is started now.
abbrev job : ContainerConfig
job = record member {
  id = "c4";
  pod_id = none;
  command = "/bin/sh" ∷ [];
  uid = some 1000;
  use_overlay = false;
}

-- Every call succeeds, in the process that a fork makes.
abbrev kernel : Kernel
kernel = record {
  does = λ trace call. true;
  is_dir = λ trace path. true;
  exists = λ trace path. true;
  has_no_entry = λ trace path. false;
  controllers = λ trace. some ("cpu" ∷ "memory" ∷ []);
  getpid = λ trace. 40;
  fork = λ trace. 0;
  wait = λ trace pid. 0;
  now = λ trace. 50;
  files = ("c4", written job) ∷ [];
}

abbrev job_world : World
job_world = record world { containers = ("c4", written job) ∷ [] }

job-starts : any started (events host kernel job false job_world) ≡ true
unfolding mini_docker.Workload.Limits.set_limits mini_docker.Workload.Limits.setup_cgroup
    mini_docker.Workload.Mounts.setup_pivot_root mini_docker.Workload.Mounts.make_devices
    mini_docker.Workload.Mounts.make_symlinks mini_docker.Workload.Mounts.setup_minimal_dev
    mini_docker.Workload.Namespaces.sethostname mini_docker.Workload.Namespaces.create_namespaces
    mini_docker.Workload.Process.perform mini_docker.Workload.Process.ask
    mini_docker.Workload.Process.on_world mini_docker.Workload.Run.namespaces_to_create
    mini_docker.Workload.Run.run_workload mini_docker.Workload.Run.run_container
    mini_docker.Workload.Setup.restrict mini_docker.Workload.Setup.prepare_and_exec_workload
    mini_docker.Errors.◌>>=◌ mini_docker.Errors.catch
    mini_docker.Metadata.Store.load_container_config mini_docker.Metadata.Files.find_container_id
    mini_docker.Metadata.Files.read_container_data mini_docker.World.observe
    mini_docker.Utils.Text.decimal mini_docker.Seccomp.Manager.apply_seccomp_filter
    mini_docker.Seccomp.Filter.build_whitelist_filter mini_docker.Seccomp.Filter.assemble
    mini_docker.Seccomp.Bpf.bpf_stmt mini_docker.Seccomp.Bpf.bpf_jump
    mini_docker.Seccomp.Filter.jumps mini_docker.Seccomp.Filter.sorted
    mini_docker.Seccomp.Filter.allowed_numbers mini_docker.Seccomp.Manager.init
    mini_docker.Seccomp.Whitelist.allowed_syscalls_whitelist
    mini_docker.Seccomp.Whitelist.absolutely_forbidden_syscalls mini_docker.Seccomp.Filter.add_name
    mini_docker.Seccomp.Syscalls.syscalls mini_docker.Seccomp.Filter.add
job-starts = refl

run_container_lem_example : Admitted host kernel job false (events host kernel job false job_world)
run_container_lem_example = run_container_lem host kernel job false job_world job-starts

-- The supervisor ends before the parent marks the container as running.
abbrev ended_config : ContainerConfig
ended_config = finished 3 60 (supervised 9 9 55 web)

abbrev begun_world : World
begun_world = save_container_config (supervised 9 9 55 web) world

abbrev ended_world : World
ended_world = save_container_config ended_config begun_world

abbrev last_config : ContainerConfig
last_config = with_status running (some 9) none 50 ended_config

abbrev marked_world : World
marked_world = save_container_config last_config ended_world

abbrev mark : Pending
mark = record { config = last_config; fresh = true }

abbrev state : World → Phase → List Pending → Race
state w phase pending = record { world = w; phase = phase; pending = pending; lost = false }

web-Stored : Stored host web world
web-Stored = record { has_id = refl; has_file = refl; fits = refl }

-- Addresses are 10.0.0.2, and every path is that of the root of the control groups.
abbrev cleaner : Host
cleaner = record {
  ip_address = λ text. some 167772162;
  realpath = λ path. "sys" ∷ "fs" ∷ "cgroup" ∷ "mini-docker" ∷ [];
  cgroup_names = λ calls. "0123456789ab" ∷ [];
  rmdir = λ calls path. true;
}

cleanup_lem_example : Cleaned host cleaner false world
cleanup_lem_example = cleanup_lem host cleaner false world

dry_run_lem_example :
    (operations : List Operation) × (cleanup_runtime_resources host cleaner true world
      ≡ (ok operations, world))
dry_run_lem_example = dry_run_lem host cleaner world

abbrev machine : Machine
machine = record {
  is_linux = true;
  is_wsl = false;
  is_root = true;
  abspath = λ path. path;
  is_dir = λ path. true;
  exists = λ path. true;
  executable = λ path. true;
  has_command = λ command. true;
  controllers = none;
  has_overlay = false;
  first_line = λ path. some "1";
}

report_ok-eq_example : report_ok machine true "/r" ≡ is_fit machine true "/r"
report_ok-eq_example = report_ok-eq machine true "/r"

requests-Answers_example :
    Answers (do_post host args ("info" ∷ []))
    × Answers (do_delete host true ("info" ∷ []))
    × Tells 201
        (λ config. true)
        (create host args)
        (do_post host args ("containers" ∷ "create" ∷ []))
    × Tells 204
        (λ pid. true)
        (start_container host "c3")
        (do_post host args ("containers" ∷ "c3" ∷ "start" ∷ []))
    × Tells 204
        (λ pid. true)
        (restart host "c3" 10)
        (do_post host args ("containers" ∷ "c3" ∷ "restart" ∷ []))
    × Tells 204
        (λ code. true)
        (stop host "c3" 10)
        (do_post host args ("containers" ∷ "c3" ∷ "stop" ∷ []))
    × Tells 204
        (λ success. success)
        (remove host "c3" true)
        (do_delete host true ("containers" ∷ "c3" ∷ []))
requests-Answers_example = requests-Answers host args true ("info" ∷ []) "c3"

delete-running_example :
    do_delete host false ("containers" ∷ "c1" ∷ []) world ≡ (ok (status 409), world)
unfolding has_process mini_docker.Utils.is_process_alive
delete-running_example = delete-running host web world web-Stored refl refl
