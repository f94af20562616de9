-- ===== src/Lib.antt =====
-- Mini-Docker, a container runtime in Python: the records of containers and pods, the life cycle
-- of a container in the parent process and in the container's own process, the host network, the
-- seccomp filter, the checks and the cleanup of the host, images, OCI bundles and the daemon.
--
-- The parts and how they interact. A container's record is the file config.json of a directory
-- (mini_docker/metadata.py). The class Container (mini_docker/container.py) creates, starts,
-- stops, restarts and removes containers: it reads and writes records, sends signals, waits for
-- processes, and calls the network (mini_docker/network.py), pods (mini_docker/pod.py), control
-- groups (mini_docker/cgroups.py) and overlays (mini_docker/filesystem.py). The process that start
-- forks puts itself under the limits of a control group, enters its namespaces
-- (mini_docker/namespaces.py), waits for the parent, changes its root directory, drops its
-- capabilities (mini_docker/capabilities.py), installs the seccomp filter (mini_docker/seccomp.py)
-- and runs the program, under a supervisor if it has a namespace for processes. The daemon
-- (mini_docker/daemon.py) calls the class Container; the cleanup (mini_docker/host.py) removes
-- what is left of containers that do not run.
--
-- The state. World holds the files of the containers (absent, unreadable, of another shape, or a
-- written record), the records of the pods, and the list of the calls that were made to the host.
-- A computation is a state-passing function whose result is a value or an exception (Errors); what
-- was written before an exception stays written. What the host answers (processes, signals,
-- commands, clock, random names) is the parameter Os of World: each answer is a function of the
-- calls made before it. An answer may depend on the time only through those calls. The forked
-- process has the state Process (Workload.Process): the files, and the system calls it made with
-- their success; what the kernel answers, and the files that the parent leaves when it lets the
-- process go on, are the parameter Kernel. The race of the parent, the supervisor and readers for
-- the record is a step relation (Workload.Race), in which each reads and writes in two steps.
--
-- Which file models which part:
--   Base        Boolean tests, lists, dictionaries and texts that the other files share
--   Errors      the exceptions and the computations; World and Quiet: the state, and the rules
--               for computations that leave the files alone
--   Metadata    mini_docker/metadata.py: Config (the dataclasses), Files (listing and
--               find_container_id), Store (loading with the refresh, update, delete, list); about
--               them Find, Keeping, Refresh and Order
--   Utils       mini_docker/utils.py: is_process_alive and get_available_ip; Text: Python's split,
--               strip, int and str; Addresses; Words and Names: generate_container_name
--   Network     mini_docker/network.py: the commands, and Ports (parse_port_mapping); Ranges
--   Pod         mini_docker/pod.py; Sharing, Members and Apart
--   Cgroups     delete_cgroup of mini_docker/cgroups.py; the limits are in Workload
--   Filesystem  cleanup_overlay of mini_docker/filesystem.py and get_overlay_paths of utils.py
--   Container   mini_docker/container.py: Create, Start, Stop, Cleanup and Remove, one function
--               for each method and each part of it that stands alone; Creating, Starting,
--               Stopping, Removing, Exits, Effects and Calm are about them
--   Seccomp     mini_docker/seccomp.py: Syscalls and Whitelist (the tables), Bpf, Filter and
--               Encoding (the program), Manager (prctl and the class Seccomp); Numbers, Total,
--               Verdict, Forbidden and Policy are about them; Machine runs a filter
--   Capabilities  mini_docker/capabilities.py; Digits and Kept
--   Workload    the forked process: Process (its state), Run and Setup (mini_docker/container.py),
--               Mounts (mini_docker/filesystem.py), Namespaces (mini_docker/namespaces.py), Limits
--               (mini_docker/cgroups.py); Steps and Quietly are rules for what a computation adds
--               to the calls, and Rooted, Restricted, Guarded, Limited and Admitted follow a start
--               through the functions; Race is about the record
--   Host        mini_docker/host.py: Checks (collect_host_report) and Cleaning
--               (cleanup_runtime_resources); Makes, Allowed, Guards, DryRun and
--               Verdicts
--   Images      mini_docker/image_builder.py: Parse and Build; Printing, Layers and
--               Lookup
--   Oci         mini_docker/oci.py: Documents and Convert; Trip
--   Cli         the parsing of limits, users and volumes in mini_docker/cli.py; Options
--   Daemon      mini_docker/daemon.py; Answers
--   Tests       a host, some containers, and the examples
--
-- The loops are recursions on a list or a number: stop waits timeout * 10 rounds for the end of a
-- process and 10 rounds after SIGKILL, as the code does, and decimal text takes n + 1 rounds, which
-- are enough for the digits of n. The kernel's BPF machine is the record Kernel of Seccomp.Bpf: a
-- run, with what the documentation says of the four instructions that the filter has. The
-- jump offsets of the program are bytes, and building fails where one does not fit.
--
-- What is taken for granted: writing a file does not fail, a removal of a pod that fails
-- removes nothing, identifiers hold no path separator, texts that int reads are ASCII, a pod's
-- file is readable, and the host is POSIX. File locks are left out but for Workload.Race, and
-- so are the texts of logs, reports and answers. In the model of the parent, what the
-- container's own processes write while start or stop runs is the parameter child_writes, after
-- the release of the child and after each signal and pause of stop. The copies and commands of
-- a build, and the documents that json reads, are parameters or values. Not modelled: the
-- handlers and the parser of the command line, sockets and headers of the daemon, log files,
-- the statistics of control groups, and the examples, which are input and output.
pub mod Base
pub mod Errors
pub mod World
pub mod Quiet
pub mod Metadata
pub mod Utils
pub mod Network
pub mod Pod
pub mod Cgroups
pub mod Filesystem
pub mod Container
pub mod Seccomp
pub mod Capabilities
pub mod Workload
pub mod Host
pub mod Images
pub mod Oci
pub mod Cli
pub mod Daemon
pub mod Tests
