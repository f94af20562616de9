-- ===== src/Network/Ports.antt =====
-- `parse_port_mapping` of mini_docker/network.py. `none` is its `NetworkError`.
use mini_docker.Base.{
  ℕ, suc, Bool, ◌||◌, Option, none, some, List, [], ◌∷◌, true, ltb, if◌then◌else◌, String, codes,
}
use mini_docker.Utils.Text.{split, int, ℤ, pos, negsuc}

-- `port < 1 or port > 65535`
abbrev pub out_of_range : ℤ → Bool
out_of_range (pos n) = ltb n 1 || ltb 65535 n
out_of_range (negsuc n) = true

abbrev pub magnitude : ℤ → ℕ
magnitude (pos n) = n
magnitude (negsuc n) = suc n

unfoldable pub check_ports : ℤ → ℤ → Option (ℕ × ℕ)
check_ports host_port container_port =
    if out_of_range host_port || out_of_range container_port
    then none
    else some (magnitude host_port, magnitude container_port)

abbrev both : Option ℤ → Option ℤ → Option (ℕ × ℕ)
both (some host_port) (some container_port) = check_ports host_port container_port
both _ _ = none

unfoldable pub parse_parts : List (List ℕ) → Option (ℕ × ℕ)
unfolding check_ports
parse_parts (host ∷ container ∷ []) = both (int host) (int container)
parse_parts _ = none

unfoldable pub parse_port_mapping : String → Option (ℕ × ℕ)
unfolding parse_parts
parse_port_mapping port_mapping = parse_parts (split b':' (codes port_mapping))
