-- ===== src/Host/Allowed.antt =====
-- The calls that the cleanup of mini_docker/host.py may make, and those of the network that are.
use mini_docker.Base.{
  ℕ, String, ◌≡◌, refl, sym, ap, ◌∙◌, ◌≤◌, ◌<◌, ◌⊎◌, Bool, true, false, ◌&&◌, none, some, List, [],
  ◌∷◌, ◌++◌, contains, any, all, All, In, inl, inr, length, codes, leb, arith, str_eq, eq_iff,
  Option-cases, Bool-cases,
}
use mini_docker.Cgroups.{mini_docker_cgroup}
use mini_docker.Container.Cleanup.{text_of}
use mini_docker.Errors.{os_error}
use mini_docker.Host.Cleaning.{
  Host, is_hex_digit, is_below, same_path, basename, is_container_id, is_owned_veth_name, is_failed,
  partition, ids_of, is_bridge_container_ip, is_safe_cgroup,
}
use mini_docker.Host.Makes.{Makes, Makes-pure, Makes-raise, Makes-log, Makes-if, Makes-bind}
use mini_docker.Metadata.Config.{ContainerConfig}
use mini_docker.Metadata.Store.{is_running}
use mini_docker.Network.{
  veth_host_name, veth_alternate_name, bridge_name, bridge_subnet, run_unchecked, run_tolerant,
  delete_veth, remove_port_forwarding, remove_nat, delete_bridge,
}
use mini_docker.World.{
  Os, Call, Command, prerouting, output, run, rmdir, link_show, link_down, link_delete_bridge,
  link_delete, iptables, delete, dnat, Chain, masquerade_from, masquerade_to,
}
use mini_docker.Workload.Process.{join}

-- A character of an identifier, and an identifier: twelve of them.
abbrev pub IsHex : ℕ → Type 0
IsHex c = ((b'0' ≤ c) × (c ≤ b'9')) ⊎ ((b'a' ≤ c) × (c ≤ b'f'))

abbrev pub IsId : String → Type 0
IsId name = (length (codes name) ≡ 12) × All IsHex (codes name)

-- A container with an identifier that is not marked as running.
abbrev pub Idle : List ContainerConfig → ContainerConfig → Type 0
Idle containers c = In c containers × IsId c.id × (is_running c ≡ false)

-- The resolved path is below the resolved root of the control groups, and its last name is an
-- identifier.
abbrev pub Below : Host → String → Type 0
Below host path =
    (rest : List String) × (last : String) × (host.realpath path
      ≡ host.realpath mini_docker_cgroup ++ (rest ++ last ∷ []))
    × IsId last

-- The calls that the cleanup may make, for the containers whose files can be read.
pub data Allowed (host : Host) (containers : List ContainerConfig) : Call → Type 0 where
  own_cgroup :
      (c : ContainerConfig)
      → Idle containers c
      → Below host (join mini_docker_cgroup c.id)
      → Allowed host containers (rmdir (join mini_docker_cgroup c.id))
  orphan_cgroup :
      (name : String)
      → contains (ids_of containers) name ≡ false
      → IsId name
      → Below host (join mini_docker_cgroup name)
      → Allowed host containers (rmdir (join mini_docker_cgroup name))
  own_veth :
      (c : ContainerConfig) (veth : String)
      → Idle containers c
      → ((veth ≡ veth_host_name c.id) ⊎ (veth ≡ veth_alternate_name c.id))
      → Allowed host containers (run (link_delete veth))
  -- an address from 10.0.0.2 to 10.0.0.254
  own_port :
      (c : ContainerConfig) (chain : Chain) (host_port container_port address : ℕ)
      → Idle containers c
      → host.ip_address (text_of c.network.ip) ≡ some address
      → 0x0a000001 < address
      → address < 0x0a0000ff
      → Allowed host containers
          (run (iptables delete (dnat chain host_port (text_of c.network.ip) container_port)))
  -- the bridge and the address translation, where no container is running
  base_nat :
      any is_running containers ≡ false
      → Allowed host containers (run (iptables delete (masquerade_from bridge_subnet)))
  base_nat_bridge :
      any is_running containers ≡ false
      → Allowed host containers (run (iptables delete (masquerade_to bridge_name)))
  base_show :
      any is_running containers ≡ false → Allowed host containers (run (link_show bridge_name))
  base_down :
      any is_running containers ≡ false → Allowed host containers (run (link_down bridge_name))
  base_delete :
      any is_running containers ≡ false
      → Allowed host containers (run (link_delete_bridge bridge_name))

-- What the tests of the code mean.
all-IsHex : (cs : List ℕ) → all is_hex_digit cs ≡ true → All IsHex cs
all-IsHex [] h = tt
all-IsHex (c ∷ cs) h = (hex c (ground (arith, h)), all-IsHex cs (ground (arith, h)))
  where
    hex : (c : ℕ) → is_hex_digit c ≡ true → IsHex c
    hex c h = elim (Bool-cases (leb b'0' c && leb c b'9')) [
      | inl e ↦ inl (ground (arith, e), ground (arith, e))
      | inr e ↦ inr (ground (arith, e, h), ground (arith, e, h))
    ]

pub is_container_id-IsId : (name : String) → is_container_id name ≡ true → IsId name
unfolding is_container_id
is_container_id-IsId name h = (ground (arith, h), all-IsHex (codes name) (ground (arith, h)))

below-rest :
    (base target : List String)
    → is_below base target ≡ true
    → same_path base target ≡ false
    → (rest : List String) × (last : String) × (target ≡ base ++ (rest ++ last ∷ []))
      × (basename target ≡ last)
below-rest [] [] h k = absurd cc
below-rest [] (part ∷ []) h k = ([], part, refl, refl)
below-rest [] (part ∷ next ∷ target) h k =
    let (rest, last, e, f) = below-rest [] (next ∷ target) refl refl in
    (part ∷ rest, last, ap (λ t. part ∷ t) e, f)
below-rest (name ∷ base) [] h k = absurd cc
below-rest (name ∷ base) (part ∷ target) h k =
    let (rest, last, e, f) = below-rest base target (ground (arith, h)) (ground (arith, h, k)) in
    let same : name ≡ part = ground (arith, h, eq_iff name part) in
    (rest, last, rw same (ap (λ t. part ∷ t) e), tail part target base rest last e f)
  where
    tail :
        (part : String) (target base rest : List String) (last : String)
        → target ≡ base ++ (rest ++ last ∷ [])
        → basename target ≡ last
        → basename (part ∷ target) ≡ last
    tail part [] base rest last e f = absurd (filled base rest last e)
      where
        filled : (base rest : List String) (last : String) → [] ≡ base ++ (rest ++ last ∷ []) → ⊥
        filled [] [] last e = cc
        filled [] (r ∷ rest) last e = cc
        filled (b ∷ base) rest last e = cc
    tail part (next ∷ target) base rest last e f = f

pub is_safe_cgroup-Below :
    (os : Os) (host : Host) (path : String) → is_safe_cgroup os host path ≡ true → Below host path
unfolding is_safe_cgroup
is_safe_cgroup-Below os host path h =
    let base = host.realpath mini_docker_cgroup in
    let target = host.realpath path in
    let (rest, last, e, f) = below-rest base target (ground (arith, h)) (ground (arith, h)) in
    (rest, last, e, is_container_id-IsId last (ap is_container_id (sym f) ∙ ground (arith, h)))

-- An address of the bridge's network for a container.
abbrev pub InBridge : Host → String → Type 0
InBridge host text =
    (address : ℕ) × (host.ip_address text ≡ some address)
    × (0x0a000001 < address)
    × (address < 0x0a0000ff)

pub is_bridge_container_ip-InBridge :
    (os : Os) (host : Host) (text : String)
    → is_bridge_container_ip os host text ≡ true
    → InBridge host text
unfolding is_bridge_container_ip
is_bridge_container_ip-InBridge os host text = elim (Option-cases (host.ip_address text)) [
  | inl e ↦ λ h. absurd (ground (arith, e, h))
  | inr (a, e) ↦ λ h. (a, e, ground (arith, e, h), ground (arith, e, h))
]

pub is_owned_veth_name-eq :
    (veth id : String)
    → is_owned_veth_name veth id ≡ true
    → (veth ≡ veth_host_name id) ⊎ (veth ≡ veth_alternate_name id)
unfolding is_owned_veth_name
is_owned_veth_name-eq veth id h = elim (Bool-cases (str_eq veth (veth_host_name id))) [
  | inl e ↦ inl ((eq_iff veth (veth_host_name id)).0 e)
  | inr e ↦ inr ((eq_iff veth (veth_alternate_name id)).0 (ground (arith, e, h)))
]

-- What the split of the containers by their identifiers keeps.
pub partition-In :
    (c : ContainerConfig) (cs : List ContainerConfig) → In c (partition cs).0 → In c cs × IsId c.id
unfolding partition
partition-In c [] = λ i. absurd i
partition-In c (d ∷ cs) = elim (Bool-cases (is_container_id d.id)) [
  | inl e ↦ rw e (elim [
    | inl same ↦ (inl same, is_container_id-IsId c.id (ap (λ d. is_container_id d.id) same ∙ e))
    | inr i ↦ let (inside, id) = partition-In c cs i in (inr inside, id)
  ])
  | inr e ↦ rw e (λ i. let (inside, id) = partition-In c cs i in (inr inside, id))
]

pub partition-idle :
    (cs : List ContainerConfig)
    → any is_running (partition cs).0 ≡ false
    → any is_failed (partition cs).1 ≡ false
    → any is_running cs ≡ false
unfolding partition
partition-idle [] = λ r f. refl
partition-idle (d ∷ cs) = elim (Bool-cases (is_container_id d.id)) [
  | inl e ↦ rw e (λ r f. ground (arith, r, partition-idle cs (ground (arith, r)) f))
  | inr e ↦ rw e (λ r f. absurd cc)
]

pub partition-unknown :
    (name : String) (cs : List ContainerConfig)
    → is_container_id name ≡ true
    → contains (ids_of (partition cs).0) name ≡ false
    → contains (ids_of cs) name ≡ false
unfolding partition
partition-unknown name [] valid = λ h. refl
partition-unknown name (d ∷ cs) valid = elim (Bool-cases (is_container_id d.id)) [
  | inl e ↦ rw e (λ h. ground (arith, h, partition-unknown name cs valid (ground (arith, h))))
  | inr e ↦ rw e (λ h. ground (arith, other d.id name e valid, partition-unknown name cs valid h))
]
  where
    other :
        (id name : String)
        → is_container_id id ≡ false
        → is_container_id name ≡ true
        → str_eq id name ≡ false
    other id name e valid = elim (Bool-cases (str_eq id name)) [
      | inl h ↦ let same = (eq_iff id name).0 h in absurd cc
      | inr h ↦ h
    ]

ruleset makes_rules = (Makes-pure, Makes-if, Makes-bind)

unchecked-Makes :
    (P : Call → Type 0) (os : Os) (command : Command)
    → P (run command)
    → Makes P (run_unchecked os command)
unfolding run_unchecked
unchecked-Makes P os command p =
    Makes-bind P _ _ (Makes-log P _ _ p)
      (elim [ none ↦ Makes-raise P os_error | some code ↦ Makes-pure P code ])

module _ (os : Os) (host : Host) (containers : List ContainerConfig) (dry_run : Bool) where
  -- A call that is allowed, and not made by a dry run.
  abbrev pub Justified : Call → Type 0
  Justified call = (dry_run ≡ false) × Allowed host containers call

  abbrev P : Call → Type 0
  P call = Justified call

  pub port-Makes :
      (c : ContainerConfig) (host_port container_port : ℕ)
      → dry_run ≡ false
      → Idle containers c
      → InBridge host (text_of c.network.ip)
      → Makes P (remove_port_forwarding os host_port container_port (text_of c.network.ip))
  unfolding remove_port_forwarding run_tolerant
  port-Makes c hp cp live idle (address, e, low, high) =
      let to : (chain : Chain)
          → P (run (iptables delete (dnat chain hp (text_of c.network.ip) cp))) =
        λ chain. (live, own_port c chain hp cp address idle e low high) in
      let first = to prerouting in
      let second = to output in search (makes_rules, unchecked-Makes P os, first, second) depth 9

  pub veth-Makes :
      (c : ContainerConfig) (veth : String)
      → dry_run ≡ false
      → Idle containers c
      → ((veth ≡ veth_host_name c.id) ⊎ (veth ≡ veth_alternate_name c.id))
      → Makes P (delete_veth os veth)
  unfolding delete_veth
  veth-Makes c veth live idle o =
      search (makes_rules, unchecked-Makes P os, live, own_veth c veth idle o) depth 9

  pub nat-Makes :
      dry_run ≡ false → any is_running containers ≡ false → Makes P (remove_nat os bridge_subnet)
  unfolding remove_nat
  nat-Makes live r =
      let from : P (run (iptables delete (masquerade_from bridge_subnet))) = (live, base_nat r) in
      let to : P (run (iptables delete (masquerade_to bridge_name))) = (live, base_nat_bridge r) in
      search (makes_rules, unchecked-Makes P os, from, to) depth 9

  pub bridge-Makes :
      dry_run ≡ false → any is_running containers ≡ false → Makes P (delete_bridge os bridge_name)
  unfolding delete_bridge
  bridge-Makes live r =
      let show : P (run (link_show bridge_name)) = (live, base_show r) in
      let down : P (run (link_down bridge_name)) = (live, base_down r) in
      let gone : P (run (link_delete_bridge bridge_name)) = (live, base_delete r) in
      search (makes_rules, unchecked-Makes P os, show, down, gone) depth 12
