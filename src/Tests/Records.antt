-- ===== src/Tests/Records.antt =====
-- Examples for mini_docker/metadata.py, mini_docker/utils.py, mini_docker/network.py and
-- mini_docker/pod.py.
use mini_docker.Base.{ℕ, ◌≡◌, refl, false, some, [], ◌∷◌, codes, ◌↔◌}
use mini_docker.Metadata.Files.{find_container_id}
use mini_docker.Metadata.Find.{Resolved, find_container_id_lem}
use mini_docker.Metadata.Keeping.{Stored}
use mini_docker.Metadata.Refresh.{Reconciled, load-gone, Deleted, delete_container_config_lem}
use mini_docker.Metadata.Order.{IsNewestFirst, created_then, newest_first_lem}
use mini_docker.Metadata.Store.{newest_first, delete_container_config}
use mini_docker.Utils.{get_available_ip}
use mini_docker.Utils.Addresses.{FirstFree, is_named, get_available_ip_lem}
use mini_docker.Utils.Text.{split}
use mini_docker.Network.Ports.{parse_port_mapping}
use mini_docker.Network.Ranges.{PortsOf, parse_port_mapping_lem}
use mini_docker.Pod.Sharing.{Agrees, agree_lem}
use mini_docker.Pod.Members.{PodStored, JoinsAndLeaves, add_container_to_pod_lem}
use mini_docker.Tests.{host, web, lost, pod, world}

find_container_id_lem_example :
    Resolved host world.containers "we" (find_container_id host world.containers "we")
find_container_id_lem_example = find_container_id_lem host world.containers "we"

lost-Stored : Stored host lost world
lost-Stored = record { has_id = refl; has_file = refl; fits = refl }

load-gone_example : Reconciled host lost world
unfolding mini_docker.Metadata.Store.has_process mini_docker.Utils.is_process_alive
load-gone_example = load-gone host lost world lost-Stored refl refl

newest_first_lem_example :
    IsNewestFirst (newest_first (web ∷ lost ∷ []))
    × ((t : ℕ) → created_then t (newest_first (web ∷ lost ∷ [])) ≡ created_then t (web ∷ lost ∷ []))
newest_first_lem_example = newest_first_lem (web ∷ lost ∷ [])

get_available_ip_lem_example :
    FirstFree (is_named world.containers) 2 255 (get_available_ip world.containers)
get_available_ip_lem_example = get_available_ip_lem world.containers

parse_port_mapping_lem_example :
    (parse_port_mapping "8080:80" ≡ some (8080, 80))
    ↔ PortsOf (split b':' (codes "8080:80")) 8080 80
parse_port_mapping_lem_example = parse_port_mapping_lem "8080:80" 8080 80

delete_container_config_lem_example : Deleted host lost world
delete_container_config_lem_example = delete_container_config_lem host lost world lost-Stored

agree_lem_example : Agrees (some false) ("net" ∷ "ipc" ∷ [])
agree_lem_example = agree_lem (some false) ("net" ∷ "ipc" ∷ [])

pod-PodStored : PodStored "p1" pod world
pod-PodStored = record { has_id = refl; same_id = refl; has_file = refl }

add_container_to_pod_lem_example : JoinsAndLeaves host "p1" "c1" pod world
add_container_to_pod_lem_example =
    add_container_to_pod_lem host "p1" "c1" pod world pod-PodStored refl
