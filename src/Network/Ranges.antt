-- ===== src/Network/Ranges.antt =====
-- The ports that `parse_port_mapping` of mini_docker/network.py lets through.
use mini_docker.Base.{ℕ, ◌≡◌, ◌≤◌, refl, false, some, List, [], ◌∷◌, arith, String, codes, ◌↔◌}
use mini_docker.Utils.Text.{split, int, ℤ, pos}
use mini_docker.Network.Ports.{
  out_of_range, magnitude, check_ports, parse_parts, parse_port_mapping,
}

-- A text that `int` reads as the number of a port.
abbrev pub IsPort : List ℕ → ℕ → Type 0
IsPort text n = (int text ≡ some (pos n)) × (1 ≤ n) × (n ≤ 65535)

out_of_range_lem :
    (i : ℤ) (n : ℕ)
    → ((out_of_range i ≡ false) × (magnitude i ≡ n)) ↔ ((i ≡ pos n) × (1 ≤ n) × (n ≤ 65535))
out_of_range_lem i n = ground arith

-- Exactly two parts, each the number of a port.
abbrev pub PortsOf : List (List ℕ) → ℕ → ℕ → Type 0
PortsOf parts h c =
    (host container : List ℕ) × (parts ≡ host ∷ container ∷ []) × IsPort host h × IsPort container c

parse_parts_sound :
    (parts : List (List ℕ)) (h c : ℕ) → parse_parts parts ≡ some (h, c) → PortsOf parts h c
unfolding parse_parts check_ports
parse_parts_sound [] h c e = cc
parse_parts_sound (a ∷ []) h c e = cc
parse_parts_sound (a ∷ b ∷ []) h c e = (a, b, refl, ground arith, ground arith)
parse_parts_sound (a ∷ b ∷ d ∷ more) h c e = cc

parse_parts_complete :
    (parts : List (List ℕ)) (h c : ℕ) → PortsOf parts h c → parse_parts parts ≡ some (h, c)
unfolding parse_parts check_ports
parse_parts_complete parts h c (a, b, e, (i, l, u), (j, l', u')) = rw (e, i, j) (ground arith)

-- `parse_port_mapping` returns a pair of ports exactly if the text has one colon, and the parts
-- before it and after it are read by `int` as these ports, which are from 1 to 65535.
pub parse_port_mapping_lem :
    (s : String) (h c : ℕ)
    → (parse_port_mapping s ≡ some (h, c)) ↔ PortsOf (split b':' (codes s)) h c
unfolding parse_port_mapping
parse_port_mapping_lem s h c =
    (parse_parts_sound (split b':' (codes s)) h c, parse_parts_complete (split b':' (codes s)) h c)
