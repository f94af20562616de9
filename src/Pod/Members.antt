-- ===== src/Pod/Members.antt =====
-- The list of a pod's containers, and the operations on it.
use mini_docker.Base.{
  String, ◌≡◌, refl, ap, ◌∙◌, true, false, some, List, [], ◌∷◌, ◌++◌, arith, str_eq, contains,
  eq_refl, lookup, insert, lookup-insert,
}
use mini_docker.Errors.{ok, ◌>>=◌}
use mini_docker.World.{Os, World, PodConfig}
use mini_docker.Pod.{
  pod_post_init, reload_pod, find_pod_id, save_pod_config, load_pod_by_id, add_container_to_pod,
  remove_container_from_pod, remove_first,
}

-- The file of the pod with this identifier.
pub record PodStored (id : String) (config : PodConfig) (w : World) : Type 0 where
  pub has_id : str_eq id "" ≡ false
  pub same_id : config.id ≡ id
  pub has_file : lookup id w.pods ≡ some config

remove_first-append :
    (x : String) (xs : List String) → contains xs x ≡ false → remove_first x (xs ++ x ∷ []) ≡ xs
remove_first-append x [] h = rw (eq_refl x) refl
remove_first-append x (y ∷ ys) h = ground (arith, remove_first-append x ys)

contains-append : (xs : List String) (x : String) → contains (xs ++ x ∷ []) x ≡ true
contains-append [] x = rw (eq_refl x) refl
contains-append (y ∷ ys) x = ground (arith, contains-append ys x)

saved-PodStored :
    {id : String} (config : PodConfig) (w : World)
    → str_eq id "" ≡ false
    → config.id ≡ id
    → PodStored id config (save_pod_config config w)
unfolding save_pod_config
saved-PodStored {id} config w h e = record {
  has_id = h;
  same_id = e;
  has_file =
      ap (λ k. lookup id (insert k config w.pods)) e
      ∙ lookup-insert id id config w.pods
      ∙ (rw (eq_refl id) refl);
}

-- The pod's record after it is loaded, with other containers.
abbrev pub with_containers : PodConfig → List String → PodConfig
with_containers config containers = record (reload_pod config) { containers = containers }

module _ {id : String} {config : PodConfig} {w : World} (stored : PodStored id config w) where
  find-PodStored : find_pod_id w.pods id ≡ some id
  unfolding find_pod_id
  find-PodStored = rw (stored.has_id, stored.has_file) refl

  load-PodStored : (os : Os) → load_pod_by_id os id false w ≡ (ok (some (reload_pod config)), w)
  unfolding load_pod_by_id
  load-PodStored os = rw (stored.has_file, load_pod_by_id) refl

  -- What is saved after loading is stored.
  save-PodStored :
      (containers : List String)
      → PodStored id
          (with_containers config containers)
          (save_pod_config (with_containers config containers) w)
  unfolding reload_pod pod_post_init
  save-PodStored containers =
      saved-PodStored (with_containers config containers) w stored.has_id
        (rw (stored.same_id, stored.has_id) refl)

  add-new :
      (os : Os) (x : String)
      → contains config.containers x ≡ false
      → add_container_to_pod os id x w
        ≡ (ok true, save_pod_config (with_containers config (config.containers ++ x ∷ [])) w)
  unfolding add_container_to_pod ◌>>=◌ reload_pod pod_post_init
  add-new os x h = rw (find-PodStored, load-PodStored os, h, add_container_to_pod) refl

  add-member :
      (os : Os) (x : String)
      → contains config.containers x ≡ true
      → add_container_to_pod os id x w ≡ (ok true, w)
  unfolding add_container_to_pod ◌>>=◌ reload_pod pod_post_init
  add-member os x h = rw (find-PodStored, load-PodStored os, h, add_container_to_pod) refl

  remove-member :
      (os : Os) (x : String)
      → contains config.containers x ≡ true
      → remove_container_from_pod os id x w
        ≡ (ok true, save_pod_config (with_containers config (remove_first x config.containers)) w)
  unfolding remove_container_from_pod ◌>>=◌ reload_pod pod_post_init
  remove-member os x h = rw (find-PodStored, load-PodStored os, h, remove_container_from_pod) refl

-- A container joins a pod, joins it once more, and leaves it.
abbrev pub JoinsAndLeaves : Os → String → String → PodConfig → World → Type 0
JoinsAndLeaves os id x config w =
    let (added, w1) = add_container_to_pod os id x w in
    let (removed, w2) = remove_container_from_pod os id x w1 in
    (added ≡ ok true)
    × ((joined : PodConfig) × PodStored id joined w1 × (contains joined.containers x ≡ true))
    × (add_container_to_pod os id x w1 ≡ (ok true, w1))
    × (removed ≡ ok true)
    × ((left : PodConfig) × PodStored id left w2 × (left.containers ≡ config.containers))

-- A pod's file is found by its identifier, and the container is not in the pod. Adding it puts it
-- into the pod's file, adding it once more changes nothing, and removing it then gives the list of
-- containers from before.
pub add_container_to_pod_lem :
    (os : Os) (id x : String) (config : PodConfig) (w : World)
    → PodStored id config w
    → contains config.containers x ≡ false
    → JoinsAndLeaves os id x config w
add_container_to_pod_lem os id x config w s h =
    let members = config.containers ++ x ∷ [] in
    let s1 = save-PodStored s members in
    let there = contains-append config.containers x in
    rw (add-new s os x h, remove-member s1 os x there, add-member s1 os x there)
      (
        refl,
        (with_containers config members, s1, there),
        refl,
        refl,
        (_, save-PodStored s1 (remove_first x members), remove_first-append x config.containers h),
      )
