-- ===== src/Container/Starting.antt =====
-- When `start` of mini_docker/container.py fails, and what its last step writes.
use mini_docker.Base.{
  ℕ, String, ◌≡◌, ◌≢◌, refl, sym, ap, ◌∙◌, Bool, true, false, not, ◌&&◌, Option, none, some, List,
  [], ◌∷◌, ◌++◌, append-nil, append_assoc, any, any-append, arith, if◌then◌else◌, lookup,
}
use mini_docker.Errors.{
  Result, ok, err, Exec, ◌>>=◌, ◌>>◌, continue, pure, raise, modify, Error, container_error,
  container_invalid_state, container_invalid_request, container_internal_error,
}
use mini_docker.Metadata.Config.{ContainerConfig, Status, ExitCode, running}
use mini_docker.Metadata.Files.{file_of, read_container_data, hydrate, find_container_id}
use mini_docker.Metadata.Store.{
  is_running, has_process, save_container_config, with_status, update_container_status, load_by_id,
}
use mini_docker.Metadata.Keeping.{Stored, update-Stored, load-current}
use mini_docker.Metadata.Refresh.{lookup-saved}
use mini_docker.World.{Os, World, Call, written, log, observe, proceed, fork, map_users, waitpid}
use mini_docker.Container.Cleanup.{is_set, text_of}
use mini_docker.Container.Start.{
  network_required, can_setup_network, failed, setup_network, remove_forwards, roll_back, release,
  abandon, connect, launch, start,
}
use mini_docker.Pod.{add_container_to_pod}
use mini_docker.Pod.Apart.{add_container_to_pod-containers}

-- No child is told to go on.
abbrev pub is_proceed : Call → Bool
is_proceed (proceed pid) = true
is_proceed call = false

-- The calls that are made tell no child to go on.
record Holds {A : Type 0} (m : Exec World A) : Type 0 where
  held :
      (w : World)
      → (calls : List Call) × ((m w).1.calls ≡ w.calls ++ calls) × (any is_proceed calls ≡ false)

-- It does not return either.
record Refuses {A : Type 0} (m : Exec World A) : Type 0 where
  holds : Holds m
  never : (w : World) (a : A) → (m w).0 ≢ ok a

module _ {A : Type 0} where
  Holds-same : (m : Exec World A) → ((w : World) → (m w).1.calls ≡ w.calls) → Holds m
  Holds-same m e = record { held = λ w. ([], e w ∙ sym (append-nil w.calls), refl) }

  Holds-pure : (a : A) → Holds (pure a)
  unfolding pure
  Holds-pure a = Holds-same _ (λ w. refl)

  Holds-observe : (answer : List Call → A) → Holds (observe answer)
  unfolding observe
  Holds-observe answer = Holds-same _ (λ w. refl)

  Holds-log :
      (answer : List Call → A) (call : Call) → is_proceed call ≡ false → Holds (log answer call)
  unfolding log
  Holds-log answer call h = record { held = λ w. (call ∷ [], refl, ground (arith, h)) }

  Refuses-raise : (e : Error) → Refuses (raise {A = A} e)
  unfolding raise
  Refuses-raise e = record { holds = Holds-same _ (λ w. refl); never = λ w a p. cc }

  Refuses-if :
      (b : Bool) (m n : Exec World A) → Refuses m → Refuses n → Refuses (if b then m else n)
  Refuses-if true m n fm fn = fm
  Refuses-if false m n fm fn = fn

Holds-modify : (f : World → World) → ((w : World) → (f w).calls ≡ w.calls) → Holds (modify f)
unfolding modify
Holds-modify f e = Holds-same _ e

module _ {A B : Type 0} where
  Holds-bind :
      (m : Exec World A) (f : A → Exec World B)
      → Holds m
      → ((a : A) → Holds (f a))
      → Holds (m >>= f)
  unfolding ◌>>=◌
  Holds-bind m f hm hf = record {
    held = λ w. let (xs, e, h) = hm.held w in let (r, w') = m w in next r w w' xs e h;
  }
    where
      next :
          (r : Result A) (w w' : World) (xs : List Call)
          → w'.calls ≡ w.calls ++ xs
          → any is_proceed xs ≡ false
          → (calls : List Call) × ((continue r f w').1.calls ≡ w.calls ++ calls)
            × (any is_proceed calls ≡ false)
      next (ok a) w w' xs e h =
          let (ys, e', h') = (hf a).held w' in
          (
            xs ++ ys,
            e' ∙ ap (λ t. t ++ ys) e ∙ append_assoc w.calls xs ys,
            any-append is_proceed xs ys ∙ ground (arith, h, h'),
          )
      next (err x) w w' xs e h = (xs, e, h)

  continue-err :
      (r : Result A) (f : A → Exec World B) (w : World) (b : B)
      → ((a : A) → Refuses (f a))
      → (continue r f w).0 ≢ ok b
  continue-err (ok a) f w b ff = (ff a).never w b
  continue-err (err e) f w b ff = λ p. cc

  Refuses-bind :
      (m : Exec World A) (f : A → Exec World B)
      → Holds m
      → ((a : A) → Refuses (f a))
      → Refuses (m >>= f)
  unfolding ◌>>=◌
  Refuses-bind m f hm ff = record {
    holds = Holds-bind m f hm (λ a. (ff a).holds);
    never = λ w b. let (r, w') = m w in continue-err r f w' b ff;
  }

module _ (os : Os) where
  find-same : (id : String) → Holds (λ w. (find_container_id os w.containers id, w))
  find-same id = Holds-same _ (λ w. refl)

  load-same : (id : String) → Holds (load_by_id os id false)
  unfolding load_by_id
  load-same id =
      Holds-same _ (λ w. loaded (hydrate (read_container_data os (file_of w.containers id))) w)
    where
      loaded :
          (found : Option ContainerConfig) (w : World)
          → (elim found as (λ _. Result (Option ContainerConfig) × World) [
            | none ↦ (ok none, w)
            | some config ↦ (ok (some config), w)
          ]).1.calls
            ≡ w.calls
      loaded none w = refl
      loaded (some config) w = refl

  Holds-update :
      (id : String) (status : Status) (pid : Option ℕ) (code : Option ExitCode)
      → Holds (update_container_status os id status pid code)
  unfolding update_container_status save_container_config
  Holds-update id status pid code = Holds-bind _ _ (find-same id) (elim [
    | none ↦ Holds-pure _
    | some full_id ↦ Holds-bind _ _ (load-same full_id) (elim [
      | none ↦ Holds-pure _
      | some config ↦
          Holds-bind _ _ (Holds-observe _)
            (λ now. Holds-bind _ _ (Holds-modify _ (λ w. refl)) (λ _. Holds-pure _))
    ])
  ])

  -- The roll-back where nothing was set up: the child is killed, and not told to go on.
  Refuses-roll_back :
      (id : String) (config : ContainerConfig) (pid : ℕ)
      → Refuses (roll_back os id config pid (failed config none container_error))
  unfolding roll_back remove_forwards
  Refuses-roll_back id config pid = Refuses-bind _ _ (Holds-pure _) (λ _.
      Refuses-bind _ _ (Holds-pure _) (λ _. Refuses-bind _ _ (Holds-log _ _ refl) (λ _.
        Refuses-bind _ _ (Holds-log _ _ refl)
          (λ _. Refuses-bind _ _ (Holds-update _ _ _ _) (λ _. Refuses-raise _)))))

  Refuses-abandon : (id : String) (pid : ℕ) → Refuses (abandon os id pid)
  unfolding abandon
  Refuses-abandon id pid = Refuses-bind _ _ (Holds-log _ _ refl) (λ _.
      Refuses-bind _ _ (Holds-log _ _ refl)
        (λ _. Refuses-bind _ _ (Holds-update _ _ _ _) (λ _. Refuses-raise _)))

  module _ (config : ContainerConfig) (r : network_required config ≡ true)
      (c : can_setup_network config ≡ false) where
    connect-eq :
        (id : String) (pid : ℕ) (w : World)
        → connect os id config pid w
          ≡ roll_back os id config pid (failed config none container_error) w
    unfolding connect setup_network ◌>>=◌
    connect-eq id pid w = rw (r, c) (rw r refl)

    Refuses-connect : (id : String) (pid : ℕ) → Refuses (connect os id config pid)
    Refuses-connect id pid =
        let rolled = Refuses-roll_back id config pid in
        record {
          holds = record { held = λ w. rw (connect-eq id pid w) (rolled.holds.held w) };
          never = λ w a. rw (connect-eq id pid w) (rolled.never w a);
        }

    Refuses-launch : (id : String) → Refuses (launch os id config)
    unfolding launch
    Refuses-launch id =
        Refuses-if (is_running config) _ _ (Refuses-raise (container_invalid_state id)) (
          Refuses-if (not config.rootless && not os.is_root) _ _
            (Refuses-raise container_invalid_request)
            (Refuses-bind (log os.fork fork) _ (Holds-log _ _ refl) (λ pid.
              Refuses-bind (observe (λ calls. os.ready calls pid)) _ (Holds-observe _) (λ ready.
                Refuses-if ready _ _
                  (Refuses-if config.rootless _ _
                    (Refuses-bind (log (λ calls. os.map_users calls pid) (map_users pid)) _
                      (Holds-log _ _ refl)
                      (λ mapped.
                        Refuses-if mapped _ _ (Refuses-connect id pid) (Refuses-abandon id pid)))
                    (Refuses-connect id pid))
                  (Refuses-bind (log (λ calls. os.waitpid calls pid) (waitpid pid)) _
                    (Holds-log _ _ refl) (λ _. Refuses-raise container_internal_error))))))

-- A run that ends by an exception, and tells no child to go on.
abbrev pub Refused : World → Result ℕ × World → Type 0
Refused before (result, after) =
    ((pid : ℕ) → result ≢ ok pid)
    × ((calls : List Call) × (after.calls ≡ before.calls ++ calls) × (any is_proceed calls ≡ false))

module _ (os : Os) where
  -- A container's file is found and can be read, and if it is marked as running, one of its
  -- processes is alive. If it needs a network, and none can be set up for it, because it lacks the
  -- network namespace, is rootless or belongs to a pod, then `start` does not return, and does not
  -- let a process that it forked go on.
  pub start-Fails :
      (config : ContainerConfig) (w : World)
      → Stored os config w
      → network_required config ≡ true
      → can_setup_network config ≡ false
      → (is_running config && not (has_process os config w.calls)) ≡ false
      → Refused w (start os config.id w)
  unfolding start ◌>>=◌
  start-Fails config w stored r c gone =
      let refuses = Refuses-launch os config r c config.id in
      rw (load-current os config w stored gone, start)
        (λ pid. refuses.never w pid, refuses.holds.held w)

-- The record of a running container with this process.
pub record Marked (pid : ℕ) (id : String) (w : World) : Type 0 where
  pub config : ContainerConfig
  pub has_file : lookup id w.containers ≡ some (written config)
  pub is_marked : config.status ≡ running
  pub has_pid : config.pid ≡ some pid
  pub has_supervisor : config.supervisor_pid ≡ some pid

-- The state in which the parent goes on, after the child was released.
abbrev pub released : Os → ℕ → World → World
released os pid w =
    let calls = w.calls ++ proceed pid ∷ [] in
    record w { containers = os.child_writes calls w.containers; calls = calls }

Marked-same :
    (pid : ℕ) (id : String) (w v : World)
    → Marked pid id w
    → v.containers ≡ w.containers
    → Marked pid id v
Marked-same pid id w v m e = record {
  config = m.config;
  has_file = ap (lookup id) e ∙ m.has_file;
  is_marked = m.is_marked;
  has_pid = m.has_pid;
  has_supervisor = m.has_supervisor;
}

module _ (os : Os) where
  join_pod-Marked :
      (id pod_id : String) (pid : ℕ) (w : World)
      → Marked pid id w
      → Marked pid id ((do add_container_to_pod os pod_id id; pure {A = ℕ} pid) w).1
  unfolding ◌>>=◌
  join_pod-Marked id pod_id pid w m =
      let (r, w') = add_container_to_pod os pod_id id w in
      joined r w' (add_container_to_pod-containers os pod_id id w)
    where
      joined :
          (r : Result Bool) (w' : World)
          → w'.containers ≡ w.containers
          → Marked pid id (continue r (λ _. pure {A = ℕ} pid) w').1
      joined (ok b) w' e = Marked-same pid id w w' m e
      joined (err x) w' e = Marked-same pid id w w' m e

  -- What the container's processes write to its file before the parent goes on does not matter:
  -- after the parent's part of `start`, the file marks the container as running with the process
  -- that was forked, also where the processes had marked it as stopped.
  pub release-Marked :
      (config loaded : ContainerConfig) (pid : ℕ) (w : World)
      → Stored os config (released os pid w)
      → loaded.id ≡ config.id
      → Marked pid config.id (release os config.id pid (some loaded) w).1
  unfolding release ◌>>=◌ log with_status
  release-Marked config loaded pid w stored same =
      let done = with_status running (some pid) none (os.now (released os pid w).calls) config in
      let saved = save_container_config done (released os pid w) in
      let marked : Marked pid config.id saved = record {
        config = done;
        has_file = lookup-saved done (released os pid w);
        is_marked = refl;
        has_pid = refl;
        has_supervisor = refl;
      } in
      rw (update-Stored os config (released os pid w) stored running (some pid) none, release)
        (elim (is_set loaded.pod_id)
          as (λ b.
            Marked pid config.id
              ((if b
                  then (do add_container_to_pod os (text_of loaded.pod_id) loaded.id; pure pid)
                  else pure pid)
                saved).1) [
                  | true ↦
                      rw same (join_pod-Marked config.id (text_of loaded.pod_id) pid saved marked)
                  | false ↦ marked
                ])
