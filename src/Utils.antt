-- ===== src/Utils.antt =====
-- mini_docker/utils.py: the liveness of a process, and free addresses.
pub mod Text
pub mod Addresses
pub mod Words
pub mod Names
use mini_docker.Base.{
  ℕ, zero, suc, ◌+◌, String, ◌<>◌, Bool, true, false, ◌&&◌, ◌||◌, Option, none, some, List, [], ◌∷◌,
  ◌==◌, if◌then◌else◌, starts_with, codes, contains, str_eq, Dict,
}
use mini_docker.Errors.{Result, ok, err, runtime_error}
use mini_docker.Metadata.Config.{ContainerConfig}
use mini_docker.World.{
  Os, Call, probe, Killed, delivered, no_such_process, not_permitted, kill_error, ConfigFile,
  absent, unreadable, foreign, written,
}
use mini_docker.Utils.Text.{words, decimal}

-- `line.split()[1].upper() == "Z"`; a line of one word raises, and the exception is passed over.
abbrev is_zombie_line : String → Bool
is_zombie_line line = elim (words (codes line)) [
  | _ ∷ (c ∷ []) ∷ _ ↦ c == b'Z' || c == b'z'
  | _ ↦ false
]

-- The loop over /proc/<pid>/status, which ends at the first line of the state.
unfoldable pub is_zombie : List String → Bool
is_zombie [] = false
is_zombie (line ∷ lines) =
    let rest = is_zombie lines in if starts_with line "State:" then is_zombie_line line else rest

-- A permission error means that there is a process; `os.kill` with another error, that there is
-- none.
unfoldable pub is_process_alive : Os → List Call → Option ℕ → Bool
unfolding is_zombie
is_process_alive os calls none = false
is_process_alive os calls (some pid) =
    if pid == 0
    then false
    else if (elim (os.proc_status calls pid) [ none ↦ false | some lines ↦ is_zombie lines ])
    then false
    else (elim (os.kill calls pid probe) [
      | delivered ↦ true
      | no_such_process ↦ false
      | not_permitted ↦ true
      | kill_error ↦ false
    ])

-- The address of a configuration file, where `config["network"]["ip"]` is there and not empty.
abbrev pub used_ip : ConfigFile → Option String
used_ip (foreign name ip) = ip
used_ip (written config) = config.network.ip
used_ip _ = none

-- The set of the addresses that the configuration files name; an empty one is left out.
unfoldable pub used_ips : Dict ConfigFile → List String
used_ips [] = []
used_ips ((id, file) ∷ files) =
    let rest = used_ips files in
    elim (used_ip file) [ none ↦ rest | some ip ↦ if str_eq ip "" then rest else ip ∷ rest ]

abbrev pub address : ℕ → String
address i = "10.0.0." <> decimal i

-- The loop over `range(i, i + left)`.
unfoldable pub first_free : List String → ℕ → ℕ → Result String
first_free used i zero = err runtime_error
first_free used i (suc left) =
    let rest = first_free used (i + 1) left in
    if contains used (address i) then rest else ok (address i)

unfoldable pub get_available_ip : Dict ConfigFile → Result String
unfolding used_ips first_free
get_available_ip files = first_free (used_ips files) 2 253
