-- ===== src/Workload/Quietly.antt =====
-- The parts of a workload that start no program, and those that change its root.
use mini_docker.Base.{ℕ, String, ◌≡◌, refl, Bool, true, false, Option, List, [], ◌∷◌, if◌then◌else◌}
use mini_docker.Errors.{Error, Exec, pure, raise}
use mini_docker.Workload.Process.{Kernel, Process, Event, Syscall, perform, ask}
use mini_docker.Workload.Mounts.{
  mount, umount, makedirs, chdir, mount_proc, mount_sys, mount_dev, fill_lower, leave_old_root,
}
use mini_docker.Workload.Steps.{
  Steps, Any, Only, Has, started, Steps-Any, Steps-pure, Steps-raise, Steps-ask, Steps-if, Any-bind,
  Any-catch, Has-first, Has-second, Has-catch, Steps-perform, Steps-weaken,
}

module _ {A : Type 0} where
  pub Any-pure : (a : A) → Steps Any (pure a)
  Any-pure a = Steps-Any (Only []) (pure a) (Steps-pure a)

  pub Any-raise : (e : Error) → Steps Any (raise {A = A} e)
  Any-raise e = Steps-raise Any e

  pub Any-ask : (answer : List Event → A) → Steps Any (ask answer)
  Any-ask answer = Steps-Any (Only []) (ask answer) (Steps-ask answer)

  pub Any-if :
      (b : Bool) (m n : Exec Process A) → Steps Any m → Steps Any n → Steps Any (if b then m else n)
  Any-if b m n = Steps-if Any b m n

pub Any-perform :
    (k : Kernel) (e : Error) (call : Syscall)
    → ((done : Bool) → started (call, done) ≡ false)
    → Steps Any (perform k e call)
Any-perform k e call q =
    Steps-Any (Only ((call, true) ∷ [])) (perform k e call) (Steps-perform k e call q)

module _ (k : Kernel) where
  pub Any-mount :
      (source target : String) (fstype : Option String) (flags : ℕ) (options : Option String)
      → Steps Any (mount k source target fstype flags options)
  unfolding mount
  Any-mount source target fstype flags options = Any-perform k _ _ (λ done. refl)

  pub Any-makedirs : (path : String) → Steps Any (makedirs k path)
  unfolding makedirs
  Any-makedirs path = Any-perform k _ _ (λ done. refl)

  pub Any-chdir : (path : String) → Steps Any (chdir k path)
  unfolding chdir
  Any-chdir path = Any-perform k _ _ (λ done. refl)

  pub Any-umount : (path : String) (flags : ℕ) → Steps Any (umount k path flags)
  unfolding umount
  Any-umount path flags = Any-perform k _ _ (λ done. refl)

pub ruleset any_rules = (
  Any-pure, Any-raise, Any-ask, Any-if, Any-bind, Any-catch, Any-mount, Any-makedirs, Any-chdir,
  Any-umount,
)

module _ (k : Kernel) where
  pub Any-mount_proc : (path : String) → Steps Any (mount_proc k path)
  unfolding mount_proc
  Any-mount_proc path = search (any_rules) depth 6

  pub Any-mount_sys : (path : String) → Steps Any (mount_sys k path)
  unfolding mount_sys
  Any-mount_sys path = search (any_rules) depth 6

  pub Any-mount_dev : (path : String) → Steps Any (mount_dev k path)
  unfolding mount_dev
  Any-mount_dev path = search (any_rules) depth 6

  pub Any-fill_lower : (rootfs lower : String) → Steps Any (fill_lower k rootfs lower)
  unfolding fill_lower
  Any-fill_lower rootfs lower = search (any_rules, Any-perform) depth 6

  pub Any-leave_old_root : Steps Any (leave_old_root k)
  unfolding leave_old_root
  Any-leave_old_root = search (any_rules, Any-perform) depth 6
