-- ===== src/Workload/Race.antt =====
-- The record of a container while the parent of mini_docker/container.py, in `start`, its
-- supervisor, in `_supervise_pid_namespace_workload`, and other commands read and write it, in any
-- order. A lock covers one read or one write of mini_docker/metadata.py, so what a process has read
-- may be old when it writes.
use mini_docker.Base.{
  ℕ, ◌≡◌, refl, Bool, true, false, ◌&&◌, ◌||◌, not, Option, none, some, List, [], ◌∷◌, ◌++◌, All,
  lookup, str_eq,
}
use mini_docker.Errors.{ok}
use mini_docker.Metadata.Config.{ContainerConfig, ExitCode, code, running, stopped}
use mini_docker.Metadata.Store.{
  is_running, has_process, mark_stopped, reap, load_container_config, save_container_config,
  with_status,
}
use mini_docker.World.{Os, World, written}
use mini_docker.Workload.Run.{supervised, finished}

both : (a b : Bool) → a && not b ≡ true → (a ≡ true) × (b ≡ false)
both true false h = (refl, refl)
both true true h = absurd cc
both false b h = absurd cc

-- How far the supervisor is: before its first write, between the two, and after the second.
pub data Phase : Type 0 where
  forked : Phase
  begun : ℕ → Phase
  ended : Phase

abbrev pub is_ended : Phase → Bool
is_ended ended = true
is_ended phase = false

-- A record that a process is about to write, and whether it has read the file after the end of the
-- supervisor.
pub record Pending : Type 0 where
  pub config : ContainerConfig
  pub fresh : Bool

pub record Race : Type 0 where
  pub world : World
  pub phase : Phase
  pub pending : List Pending
  -- a record from before the end of the supervisor was written after it
  pub lost : Bool

-- The record that the supervisor has read, the process that the parent forked, the workload that
-- the supervisor forked, its own identifier, and the exit code of the workload.
module _ (os : Os) (config : ContainerConfig) (pid workload_pid own_pid exit_code : ℕ) where
  pub data Step : Race → Race → Type 0 where
    supervisor_begins :
        (r : Race) (now : ℕ)
        → r.phase ≡ forked
        → Step r (record r {
          world = save_container_config (supervised workload_pid own_pid now config) r.world;
          phase = begun now;
        })
    supervisor_ends :
        (r : Race) (now end : ℕ)
        → r.phase ≡ begun now
        → Step r (record r {
          world =
              save_container_config
                (finished exit_code end (supervised workload_pid own_pid now config))
                r.world;
          phase = ended;
        })
    -- `update_container_status` of the parent, up to its write
    parent_reads :
        (r : Race) (c : ContainerConfig) (now : ℕ)
        → lookup config.id r.world.containers ≡ some (written c)
        → Step r (record r {
          pending =
              record {
                config = with_status running (some pid) none now c;
                fresh = is_ended r.phase;
              }
              ∷ r.pending;
        })
    -- another command that loads the record and finds its processes gone, up to its write
    reader_reads :
        (r : Race) (c : ContainerConfig) (reaped : Option ExitCode) (after : World)
        → lookup config.id r.world.containers ≡ some (written c)
        → is_running c ≡ true
        → has_process os c r.world.calls ≡ false
        → reap os c r.world ≡ (ok reaped, after)
        → Step r (record r {
          pending =
              record { config = mark_stopped os c r.world.calls reaped; fresh = is_ended r.phase }
              ∷ r.pending;
        })
    -- one of them writes
    writes :
        (r : Race) (p : Pending) (before after : List Pending)
        → r.pending ≡ before ++ p ∷ after
        → Step r (record {
          world = save_container_config p.config r.world;
          phase = r.phase;
          pending = before ++ after;
          lost = r.lost || (is_ended r.phase && not p.fresh);
        })
    -- calls are made, and other files are written
    elsewhere :
        (r : Race) (w : World)
        → lookup config.id w.containers ≡ lookup config.id r.world.containers
        → Step r (record r { world = w })

  -- What can come of a world in which the supervisor was just forked.
  pub data Reach (w : World) : Race → Type 0 where
    start : Reach w (record { world = w; phase = forked; pending = []; lost = false })
    later : {r s : Race} → Reach w r → Step r s → Reach w s

  -- The exit code is there, whatever else was written.
  abbrev Final : ContainerConfig → Type 0
  Final c =
      (c.exit_code ≡ some (code exit_code))
      × (is_running c ≡ false → (c.status ≡ stopped) × (c.pid ≡ none))

  -- A pending record is one of the container, and if it is fresh, it has the exit code,
  -- as long as none was lost.
  abbrev Kept : Bool → Pending → Type 0
  Kept lost p = (p.config.id ≡ config.id) × (p.fresh ≡ true → lost ≡ false → Final p.config)

  record Inv (r : Race) : Type 0 where
    current : ContainerConfig
    same_id : current.id ≡ config.id
    has_id : str_eq config.id "" ≡ false
    has_file : lookup config.id r.world.containers ≡ some (written current)
    final : is_ended r.phase ≡ true → r.lost ≡ false → Final current
    kept : All (Kept r.lost) r.pending

  -- What the next load finds.
  abbrev pub Settled : World → Type 0
  Settled w =
      (done : ContainerConfig) × (after : World) × (load_container_config os config.id w
        ≡ (ok (some done), after))
      × (done.status ≡ stopped)
      × (done.pid ≡ none)
      × (done.exit_code ≡ some (code exit_code))
      × (lookup config.id after.containers ≡ some (written done))
