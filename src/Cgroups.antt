-- ===== src/Cgroups.antt =====
-- `delete_cgroup` of mini_docker/cgroups.py.
use mini_docker.Base.{ℕ, String, List, [], ◌∷◌}
use mini_docker.Errors.{Exec, ◌>>=◌, ◌>>◌, pure}
use mini_docker.World.{Os, World, kill, rmdir, sigkill, log, observe}

abbrev pub mini_docker_cgroup : String
mini_docker_cgroup = "/sys/fs/cgroup/mini-docker"

module _ (os : Os) where
  -- Each process of the group is killed; one that is gone is passed over.
  unfoldable pub kill_all : List ℕ → Exec World Unit
  kill_all [] = pure tt
  kill_all (pid ∷ pids) = do
    log (λ calls. os.kill calls pid sigkill) (kill pid sigkill)
    kill_all pids

  -- The failure of `os.rmdir` is passed over.
  unfoldable pub delete_cgroup : String → Exec World Unit
  unfolding kill_all
  delete_cgroup cgroup_path = do
    pids ← observe (λ calls. os.cgroup_procs calls cgroup_path)
    kill_all pids
    log (λ calls. tt) (rmdir cgroup_path)
