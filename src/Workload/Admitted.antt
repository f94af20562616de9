-- ===== src/Workload/Admitted.antt =====
-- What `_run_container` of mini_docker/container.py has done when the program of a container
-- starts.
use mini_docker.Base.{
  ℕ, Bool-cases, String, ◌≡◌, refl, sym, ap, ◌∙◌, Bool, true, false, ◌⊎◌, Option, none, some, List,
  [], ◌∷◌, ◌++◌, append_assoc, Dict, inl, inr, any, contains, ◌==◌,
}
use mini_docker.Errors.{ok, Exec, ◌>>=◌, container_internal_error}
use mini_docker.Metadata.Config.{ContainerConfig}
use mini_docker.Metadata.Store.{load_container_config}
use mini_docker.World.{Os, World}
use mini_docker.Workload.Process.{Kernel, Process, Event, on_world, sys_proceed}
use mini_docker.Workload.Namespaces.{create_namespaces, unshare, setns, sethostname}
use mini_docker.Workload.Run.{
  reload, write_config, supervise, enter_pod_namespaces, enter_namespaces, meet_parent,
  run_workload, run_container,
}
use mini_docker.Workload.Steps.{
  Starts, Steps, Returns, Returns-bind, Returns-bind_value, Returns-pure, Any, Has, Steps-Any,
  Steps-on_world, Any-bind, Has-first, Has-second, Steps-perform, Steps-weaken, Steps-bind,
}
use mini_docker.Workload.Quietly.{any_rules, Any-perform, Any-pure, Any-ask}
use mini_docker.Workload.Guarded.{
  Guarded, Guarded-after, Starting-weaken, Starting, Starting-after, Starting-if, Starting-never,
  prepare-Starting,
}
use mini_docker.Workload.Limited.{Limited, limit_events, Limited-later, Limited-setup}

-- The parent has let the process go on.
abbrev pub proceeds : Event → Bool
proceeds (sys_proceed, done) = done
proceeds (call, done) = false

-- What the process reads of its record in the files as the parent leaves them when it answers: the
-- one that its file gives, or where it gives none, the one it had.
abbrev pub Refreshed : Os → Kernel → ContainerConfig → ContainerConfig → Type 0
Refreshed os k config refreshed =
    (w : World) × (w.containers ≡ k.files)
    × (((load_container_config os config.id w).0 ≡ ok (some refreshed))
        ⊎ (((load_container_config os config.id w).0 ≡ ok none) × (refreshed ≡ config)))

-- The limits were all set, and the process put under them, unless it is rootless.
abbrev pub Placed : ContainerConfig → List Event → Type 0
Placed config es =
    (config.rootless ≡ true)
    ⊎ ((pid : ℕ) × (before : List Event) × (after : List Event) × (es
          ≡ before ++ (limit_events config pid ++ after)))

Limited-Placed : (config : ContainerConfig) (es : List Event) → Limited config es → Placed config es
Limited-Placed config es l = elim (Bool-cases config.rootless) [ inl e ↦ inl e | inr e ↦ inr (l e) ]

Placed-later :
    (config : ContainerConfig) (xs ys : List Event) → Placed config ys → Placed config (xs ++ ys)
Placed-later config xs ys (inl e) = inl e
Placed-later config xs ys (inr (pid, before, after, q)) =
    inr (pid, xs ++ before, after, ap (λ t. xs ++ t) q ∙ sym (append_assoc xs before _))

-- The events of a process whose program starts: the process is put under its limits, then the
-- parent lets it go on, and with the record that it has read then, its program is started as
-- `Guarded` says.
abbrev pub Admitted : Os → Kernel → ContainerConfig → Bool → List Event → Type 0
Admitted os k config attach es =
    (refreshed : ContainerConfig) × (placed : List Event) × (met : List Event) × (own : List Event)
    × (es ≡ placed ++ (met ++ own))
    × Placed config placed
    × (any proceeds met ≡ true)
    × Refreshed os k config refreshed
    × Guarded refreshed attach own

module _ {A B : Type 0} (config : ContainerConfig) (m : Exec Process A)
    (f : A → Exec Process B) where
  Limited-first :
      Steps (Limited config) m → ((a : A) → Steps Any (f a)) → Steps (Limited config) (m >>= f)
  Limited-first sm sf =
      Steps-weaken _ _ _
        (λ all (xs, ys, e, l, _) r.
          let (pid, before, after, q) = l r in
          (
            pid,
            before,
            after ++ ys,
            e
                ∙ ap (λ t. t ++ ys) q
                ∙ append_assoc before _ ys
                ∙ ap (λ t. before ++ t) (append_assoc _ after ys),
          ))
        (Steps-bind (Limited config) Any m f sm sf)

  Limited-second :
      Steps Any m → ((a : A) → Steps (Limited config) (f a)) → Steps (Limited config) (m >>= f)
  Limited-second sm sf =
      Steps-weaken _ _ _ (λ all (xs, ys, e, _, l). rw e (Limited-later config xs ys l))
        (Steps-bind Any (Limited config) m f sm sf)

Any-on_world : {A : Type 0} (m : Exec World A) → Steps Any (on_world m)
Any-on_world m = Steps-Any _ _ (Steps-on_world m)

module _ (os : Os) (k : Kernel) where
  Any-enter_pod : (paths : Dict String) → Steps Any (enter_pod_namespaces os k paths)
  unfolding enter_pod_namespaces setns
  Any-enter_pod [] = Any-pure tt
  Any-enter_pod ((ns_type, ns_path) ∷ rest) =
      Any-bind _ _ (search (any_rules, Any-perform) depth 9) (λ _. Any-enter_pod rest)

  Any-create_namespaces :
      (namespaces : List String) (hostname : String) (rootless : Bool)
      → Steps Any (create_namespaces k namespaces hostname rootless)
  unfolding create_namespaces unshare sethostname
  Any-create_namespaces namespaces hostname rootless = search (any_rules, Any-perform) depth 12

  enter_namespaces-Limited :
      (config : ContainerConfig) → Steps (Limited config) (enter_namespaces os k config)
  unfolding enter_namespaces
  enter_namespaces-Limited config = Limited-second config _ _ (Any-on_world _) (λ paths.
      Limited-first config _ _ (Limited-setup k config)
        (λ _. search (any_rules, Any-enter_pod, Any-create_namespaces) depth 9))

  abbrev Loads : String → Option ContainerConfig → Type 0
  Loads id loaded =
      (w : World) × (w.containers ≡ k.files) × ((load_container_config os id w).0 ≡ ok loaded)

  Returns-load : (id : String) → Returns (Loads id) (reload os k id)
  unfolding reload on_world ◌>>=◌
  Returns-load id = record { value = λ s a h. (record s.world { containers = k.files }, refl, h) }

  Any-reload : (id : String) → Steps Any (reload os k id)
  unfolding reload
  Any-reload id = Any-bind _ _ (Any-on_world _) (λ _. Any-on_world _)

  meets : (config : ContainerConfig) → Steps (Has proceeds) (meet_parent os k config)
  unfolding meet_parent
  meets config = Has-second _ _ proceeds (search (any_rules, Any-perform) depth 5) (λ _.
      Has-first _ _ proceeds
        (Steps-weaken _ _ _ (λ es e. ap (any proceeds) e)
          (Steps-perform k container_internal_error sys_proceed (λ done. refl)))
        (λ _. search (any_rules, Any-reload) depth 5))

  Returns-meet :
      (config : ContainerConfig) → Returns (Refreshed os k config) (meet_parent os k config)
  unfolding meet_parent
  Returns-meet config = Returns-bind _ _ _ (λ _. Returns-bind _ _ _ (λ _.
      Returns-bind_value (Loads config.id) _ _ _ (Returns-load config.id)
        (λ loaded (w, f, h). Returns-pure _ _ (chosen loaded w f h))))
    where
      chosen :
          (loaded : Option ContainerConfig) (w : World)
          → w.containers ≡ k.files
          → (load_container_config os config.id w).0 ≡ ok loaded
          → Refreshed os k config (elim loaded [ none ↦ config | some refreshed ↦ refreshed ])
      chosen none w f h = (w, f, inr (h, refl))
      chosen (some refreshed) w f h = (w, f, inl h)

  Any-write_config : (config : ContainerConfig) → Steps Any (write_config os k config)
  unfolding write_config
  Any-write_config config = search (any_rules, Any-perform, Any-on_world) depth 5

  supervise-Starting :
      (config : ContainerConfig) (attach : Bool)
      → Starting (Guarded config attach) (supervise os k config attach)
  unfolding supervise
  supervise-Starting config attach =
      Guarded-after config attach _ _ (Any-ask k.fork) (λ workload_pid.
        Guarded-after config attach _ _ (search (Any-perform)) (λ _.
          Starting-if (Guarded config attach) (workload_pid == 0) _ _
            (prepare-Starting k os.storage config attach)
            (Starting-never Any (Guarded config attach) _
              (search (any_rules, Any-perform, Any-write_config) depth 12))))

  run_workload-Starting :
      (config : ContainerConfig) (attach : Bool)
      → Starting (Guarded config attach) (run_workload os k config attach)
  unfolding run_workload
  run_workload-Starting config attach =
      Starting-if (Guarded config attach) (contains config.namespaces "pid") _ _
        (Guarded-after config attach _ _ (search (Any-perform))
          (λ _. supervise-Starting config attach))
        (prepare-Starting k os.storage config attach)

  abbrev Met : ContainerConfig → Bool → List Event → Type 0
  Met config attach es =
      (refreshed : ContainerConfig) × (met : List Event) × (own : List Event) × (es ≡ met ++ own)
      × (any proceeds met ≡ true)
      × Refreshed os k config refreshed
      × Guarded refreshed attach own

  meet-Starting :
      (config : ContainerConfig) (attach : Bool)
      → Starting
          (Met config attach)
          (do refreshed ← meet_parent os k config; run_workload os k refreshed attach)
  meet-Starting config attach =
      Starting-after (Has proceeds) Going (Met config attach) (Refreshed os k config) _ _
        (λ xs ys q p (refreshed, r, g). (refreshed, xs, ys, refl, p, r, g)) (meets config)
        (Returns-meet config)
        (λ refreshed r.
          Starting-weaken (Guarded refreshed attach) Going _ (λ es g. (refreshed, r, g))
            (run_workload-Starting refreshed attach))
    where
      Going : List Event → Type 0
      Going es =
          (refreshed : ContainerConfig) × Refreshed os k config refreshed
          × Guarded refreshed attach es

  run_container-Starting :
      (config : ContainerConfig) (attach : Bool)
      → Starting (Admitted os k config attach) (run_container os k config attach)
  unfolding run_container
  run_container-Starting config attach =
      Starting-after Any (Admitted os k config attach) (Admitted os k config attach) (λ _. Unit) _ _
        (λ xs ys q _ (refreshed, placed, met, own, e, l, p, r, g). (
          refreshed,
          xs ++ placed,
          met,
          own,
          ap (λ t. xs ++ t) e ∙ sym (append_assoc xs placed _),
          Placed-later config xs placed l,
          p,
          r,
          g,
        ))
        (search (any_rules, Any-perform) depth 5) (record { value = λ s a h. tt })
        (λ _ _.
          Starting-after (Limited config) (Met config attach) (Admitted os k config attach)
            (λ _. Unit) _ _
            (λ xs ys q l (refreshed, met, own, e, p, r, g).
              (refreshed, xs, met, own, ap (λ t. xs ++ t) e, Limited-Placed config xs l, p, r, g))
            (enter_namespaces-Limited config) (record { value = λ s a h. tt })
            (λ _ _. meet-Starting config attach))

  -- The events of the process, which begins with none.
  abbrev pub events : ContainerConfig → Bool → World → List Event
  events config attach w =
      (run_container os k config attach (record { world = w; trace = [] })).1.trace

  -- The process that `start` forks, for whatever the kernel and the host answer: if a program
  -- starts in it, then the limits of the container were set and the process put under them, unless
  -- it is rootless; then the parent let it go on; and with the record that it then read in the
  -- files as the parent left them, or its old one where its file gives none, a change of the root
  -- directory succeeded, the capabilities were dropped unless it is rootless, the seccomp filter
  -- was installed if it is enabled, the group and the user were changed, in this order, and the
  -- program that starts last is its command.
  pub run_container_lem :
      (config : ContainerConfig) (attach : Bool) (w : World)
      → Starts (events config attach w)
      → Admitted os k config attach (events config attach w)
  run_container_lem config attach w started =
      let (es, grows, admits) =
        (run_container-Starting config attach).run (record { world = w; trace = [] }) in
      rw grows (admits (rw (sym grows) started))
