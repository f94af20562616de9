-- ===== src/Workload/Restricted.antt =====
-- What a container's process does to itself before its program starts: the capabilities, the
-- filter, the user, and the descriptors, in this order.
use mini_docker.Base.{
  ℕ, String, ◌≡◌, refl, ap, ◌∙◌, Bool, true, Option, none, some, List, [], ◌∷◌, ◌++◌, Option-cases,
  inl, inr, if◌then◌else◌, arith,
}
use mini_docker.Capabilities.{init_caps, apply_caps}
use mini_docker.Errors.{pure, os_error, capability_error, container_internal_error}
use mini_docker.Metadata.Config.{ContainerConfig}
use mini_docker.Seccomp.Manager.{
  Prctl, set_no_new_privs, install_call, chosen, init, apply_seccomp_filter, install_seccomp_filter,
}
use mini_docker.Seccomp.Filter.{build_whitelist_filter}
use mini_docker.Workload.Process.{
  Kernel, Event, perform, log_fd, devnull_fd, sys_capset, sys_prctl, sys_setgid, sys_setuid,
  sys_dup2,
}
use mini_docker.Workload.Setup.{
  configure_container_network, configure_network, apply_capabilities, apply_seccomp, install_filter,
  is_applied, prctl_events, prctl_answer, drop_user, redirect, open_devnull, isolate, restrict,
}
use mini_docker.Workload.Steps.{
  Steps, Any, Only, Has, StartsNot, Steps-pure, Only-if, Only-bind, Only-catch, Has-first,
  Has-second, Steps-perform, performed,
}
use mini_docker.Workload.Quietly.{any_rules, Any-perform}
use mini_docker.Workload.Rooted.{changes_root, enter_root-Rooted}

-- The events of `restrict` where nothing fails: the capabilities, the filter, the group and the
-- user, and the descriptors.
abbrev pub capability_events : ContainerConfig → List Event
capability_events config =
    if config.rootless then [] else (sys_capset (apply_caps (init_caps true)), true) ∷ []

-- The filter of the default whitelist, whose program is always built.
abbrev pub filter_events : List Event
filter_events = elim (build_whitelist_filter (chosen (some (init true).allowed))) [
  | none ↦ []
  | some prog ↦ (sys_prctl set_no_new_privs, true) ∷ (sys_prctl (install_call prog), true) ∷ []
]

abbrev pub seccomp_events : ContainerConfig → List Event
seccomp_events config = if config.seccomp_enabled then filter_events else []

abbrev pub gid_events : Option ℕ → List Event
gid_events none = []
gid_events (some gid) = (sys_setgid gid, true) ∷ []

abbrev pub uid_events : Option ℕ → List Event
uid_events none = []
uid_events (some uid) = (sys_setuid uid, true) ∷ []

abbrev pub output_events : ContainerConfig → Bool → List Event
output_events config attach =
    if attach
    then []
    else (sys_dup2 log_fd 1, true)
      ∷ (sys_dup2 log_fd 2, true)
      ∷ (if config.interactive then [] else (sys_dup2 devnull_fd 0, true) ∷ [])

abbrev pub restrict_events : ContainerConfig → Bool → List Event
restrict_events config attach =
    capability_events config
    ++ (seccomp_events config
        ++ ((gid_events config.gid ++ uid_events config.uid) ++ output_events config attach))

module _ (k : Kernel) (config : ContainerConfig) where
  capabilities-Only : Steps (Only (capability_events config)) (apply_capabilities k config)
  unfolding apply_capabilities
  capabilities-Only =
      Only-if config.rootless _ _ _ _ (Steps-pure tt) (
        Only-catch _ _ container_internal_error (Steps-perform k capability_error _ (λ done. refl)))

  gid-Only :
      (gid : Option ℕ)
      → Steps
          (Only (gid_events gid))
          (elim gid [ none ↦ pure tt | some gid ↦ perform k os_error (sys_setgid gid) ])
  gid-Only none = Steps-pure tt
  gid-Only (some gid) = Steps-perform k os_error (sys_setgid gid) (λ done. refl)

  uid-Only :
      (uid : Option ℕ)
      → Steps
          (Only (uid_events uid))
          (elim uid [ none ↦ pure tt | some uid ↦ perform k os_error (sys_setuid uid) ])
  uid-Only none = Steps-pure tt
  uid-Only (some uid) = Steps-perform k os_error (sys_setuid uid) (λ done. refl)

  drop_user-Only :
      Steps (Only (gid_events config.gid ++ uid_events config.uid)) (drop_user k config)
  unfolding drop_user
  drop_user-Only = Only-bind _ _ _ _ (gid-Only config.gid) (λ _. uid-Only config.uid)

  redirect-Only :
      (attach : Bool) → Steps (Only (output_events config attach)) (redirect k config attach)
  unfolding redirect
  redirect-Only attach = Only-if attach _ _ _ _ (Steps-pure tt) (
      Only-bind _ _ ((sys_dup2 log_fd 1, true) ∷ []) _ (Steps-perform k os_error _ (λ done. refl))
        (λ _.
          Only-bind _ _ ((sys_dup2 log_fd 2, true) ∷ []) _
            (Steps-perform k os_error _ (λ done. refl))
            (λ _.
              Only-if config.interactive _ _ _ _ (Steps-pure tt)
                (Steps-perform k os_error _ (λ done. refl)))))

StartsNot-prctl : (done : Bool) (calls : List Prctl) → StartsNot (prctl_events done calls)
StartsNot-prctl done [] = refl
StartsNot-prctl done (call ∷ []) = refl
StartsNot-prctl done (call ∷ next ∷ rest) = StartsNot-prctl done (next ∷ rest)

-- Where the filter is applied, its events are those of its program.
applied-events :
    (f : List Prctl → Prctl → ℕ)
    → (let (outcome, calls) = apply_seccomp_filter f (some (init true).allowed) in
        is_applied outcome ≡ true → prctl_events true calls ≡ filter_events)
unfolding apply_seccomp_filter install_seccomp_filter
applied-events f =
    elim (Option-cases (build_whitelist_filter (chosen (some (init true).allowed)))) [
      | inl n ↦ rw n (ground arith)
      | inr (prog, b) ↦ rw b (ground arith)
    ]

module _ (k : Kernel) where
  install_filter-Only : Steps (Only filter_events) (install_filter k)
  unfolding install_filter
  install_filter-Only = record {
    run = λ s.
        let f = prctl_answer k s.trace in
        let (outcome, calls) = apply_seccomp_filter f (some (init true).allowed) in
        let done = is_applied outcome in
        (
          prctl_events done calls,
          refl,
          StartsNot-prctl done calls,
          λ a h.
              let d = performed container_internal_error done a h in
              ap (λ b. prctl_events b calls) d ∙ applied-events f d,
        );
  }

  seccomp-Only :
      (config : ContainerConfig) → Steps (Only (seccomp_events config)) (apply_seccomp k config)
  unfolding apply_seccomp
  seccomp-Only config = Only-if config.seccomp_enabled _ _ _ _ (install_filter-Only) (Steps-pure tt)

  pub restrict-Only :
      (config : ContainerConfig) (attach : Bool)
      → Steps (Only (restrict_events config attach)) (restrict k config attach)
  unfolding restrict
  restrict-Only config attach = Only-bind _ _ _ _ (capabilities-Only k config) (λ _.
      Only-bind _ _ _ _ (seccomp-Only config)
        (λ _. Only-bind _ _ _ _ (drop_user-Only k config) (λ _. redirect-Only k config attach)))

  Any-network : (config : ContainerConfig) → Steps Any (configure_network k config)
  unfolding configure_network configure_container_network
  Any-network config = search (any_rules, Any-perform) depth 12

  Any-devnull :
      (config : ContainerConfig) (attach : Bool) → Steps Any (open_devnull k config attach)
  unfolding open_devnull
  Any-devnull config attach = search (any_rules, Any-perform) depth 12

  pub isolate-Rooted :
      (storage : String) (config : ContainerConfig) (attach : Bool)
      → Steps (Has changes_root) (isolate k storage config attach)
  unfolding isolate
  isolate-Rooted storage config attach =
      search
        (any_rules, Any-perform, Any-network, Any-devnull, enter_root-Rooted, Has-second, Has-first)
        depth 9
