-- ===== src/Filesystem.antt =====
-- `cleanup_overlay` of mini_docker/filesystem.py, and the paths of utils.py that it uses.
use mini_docker.Base.{String, ◌<>◌, List, [], ◌∷◌, if◌then◌else◌}
use mini_docker.Errors.{Exec, ◌>>=◌, ◌>>◌, pure}
use mini_docker.World.{Os, World, umount, rmtree, log, observe}

-- `get_overlay_paths`: lower, upper, work and merged, below the storage root.
unfoldable pub get_overlay_paths : String → String → String × String × String × String
get_overlay_paths root container_id =
    let base = root <> "/overlay/" <> container_id in
    (base <> "/lower", base <> "/upper", base <> "/work", base <> "/merged")

abbrev pub mount_points : String × String × String × String → List String
mount_points (lower, upper, work, merged) =
    (merged <> "/dev/pts")
    ∷ (merged <> "/dev")
    ∷ (merged <> "/sys")
    ∷ (merged <> "/proc")
    ∷ merged
    ∷ lower
    ∷ []

module _ (os : Os) where
  -- Those that exist are unmounted; a failure is passed over.
  unfoldable pub unmount_all : List String → Exec World Unit
  unmount_all [] = pure tt
  unmount_all (path ∷ paths) = do
    there ← observe (λ calls. os.exists calls path)
    if there then log (λ calls. tt) (umount path) else pure tt
    unmount_all paths

  unfoldable pub cleanup_overlay : String → Exec World Unit
  unfolding unmount_all get_overlay_paths
  cleanup_overlay container_id = do
    unmount_all (mount_points (get_overlay_paths os.storage container_id))
    log (λ calls. tt) (rmtree (os.storage <> "/overlay/" <> container_id))
