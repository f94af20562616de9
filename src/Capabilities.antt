-- ===== src/Capabilities.antt =====
-- mini_docker/capabilities.py. Sets of capabilities are lists without an order; names are ASCII.
pub mod Digits
pub mod Kept
use Prim.Native.Nat.{bit_and, bit_or}
use mini_docker.Base.{
  ℕ, zero, suc, ◌+◌, ◌-◌, ◌/◌, ◌%◌, ◌^◌, String, Bool, true, false, not, ◌&&◌, ◌||◌, Option, none,
  some, List, [], ◌∷◌, ◌++◌, ◌==◌, leb, if◌then◌else◌, codes, filter, Dict,
}
use mini_docker.Seccomp.Filter.{member, add}

abbrev pub cap_last_cap : ℕ
cap_last_cap = 40

-- `CAPABILITIES`
unfoldable pub capabilities : Dict ℕ
capabilities =
    ("CAP_CHOWN", 0)
    ∷ ("CAP_DAC_OVERRIDE", 1)
    ∷ ("CAP_DAC_READ_SEARCH", 2)
    ∷ ("CAP_FOWNER", 3)
    ∷ ("CAP_FSETID", 4)
    ∷ ("CAP_KILL", 5)
    ∷ ("CAP_SETGID", 6)
    ∷ ("CAP_SETUID", 7)
    ∷ ("CAP_SETPCAP", 8)
    ∷ ("CAP_LINUX_IMMUTABLE", 9)
    ∷ ("CAP_NET_BIND_SERVICE", 10)
    ∷ ("CAP_NET_BROADCAST", 11)
    ∷ ("CAP_NET_ADMIN", 12)
    ∷ ("CAP_NET_RAW", 13)
    ∷ ("CAP_IPC_LOCK", 14)
    ∷ ("CAP_IPC_OWNER", 15)
    ∷ ("CAP_SYS_MODULE", 16)
    ∷ ("CAP_SYS_RAWIO", 17)
    ∷ ("CAP_SYS_CHROOT", 18)
    ∷ ("CAP_SYS_PTRACE", 19)
    ∷ ("CAP_SYS_PACCT", 20)
    ∷ ("CAP_SYS_ADMIN", 21)
    ∷ ("CAP_SYS_BOOT", 22)
    ∷ ("CAP_SYS_NICE", 23)
    ∷ ("CAP_SYS_RESOURCE", 24)
    ∷ ("CAP_SYS_TIME", 25)
    ∷ ("CAP_SYS_TTY_CONFIG", 26)
    ∷ ("CAP_MKNOD", 27)
    ∷ ("CAP_LEASE", 28)
    ∷ ("CAP_AUDIT_WRITE", 29)
    ∷ ("CAP_AUDIT_CONTROL", 30)
    ∷ ("CAP_SETFCAP", 31)
    ∷ ("CAP_MAC_OVERRIDE", 32)
    ∷ ("CAP_MAC_ADMIN", 33)
    ∷ ("CAP_SYSLOG", 34)
    ∷ ("CAP_WAKE_ALARM", 35)
    ∷ ("CAP_BLOCK_SUSPEND", 36)
    ∷ ("CAP_AUDIT_READ", 37)
    ∷ ("CAP_PERFMON", 38)
    ∷ ("CAP_BPF", 39)
    ∷ ("CAP_CHECKPOINT_RESTORE", 40)
    ∷ []

abbrev pub default_container_caps : List ℕ
default_container_caps = 0 ∷ 1 ∷ 3 ∷ 4 ∷ 5 ∷ 6 ∷ 7 ∷ 8 ∷ 10 ∷ 18 ∷ 27 ∷ 29 ∷ 31 ∷ []

abbrev pub minimal_caps : List ℕ
minimal_caps = 0 ∷ 6 ∷ 7 ∷ []

-- The word and the mask: `(cap >> 5, 1 << (cap & 31))`.
abbrev pub cap_to_mask : ℕ → ℕ × ℕ
cap_to_mask cap = (cap / 32, 2 ^ (cap % 32))

-- The two words of one field of the data; there is no third.
abbrev pub Words : Type 0
Words = ℕ × ℕ

-- `data[idx].field |= mask`
abbrev pub set_bit : ℕ → Words → Words
set_bit cap (low, high) =
    let (idx, mask) = cap_to_mask cap in
    if idx == 0 then (bit_or low mask, high) else (low, bit_or high mask)

-- `data[idx].field & mask`, as a test.
abbrev pub has_bit : ℕ → Words → Bool
has_bit cap (low, high) =
    let (idx, mask) = cap_to_mask cap in not (bit_and (if idx == 0 then low else high) mask == 0)

-- The loop over the set of one field.
unfoldable pub set_bits : List ℕ → Words → Words
set_bits [] words = words
set_bits (cap ∷ caps) words =
    set_bits caps (if leb cap cap_last_cap then set_bit cap words else words)

-- The fields of the two `CapData`.
pub record CapData : Type 0 where
  pub effective : Words
  pub permitted : Words
  pub inheritable : Words

-- What `set_capabilities` passes to `capset`; a set that is not given is an empty one.
unfoldable pub set_capabilities : List ℕ → List ℕ → List ℕ → CapData
unfolding set_bits
set_capabilities effective permitted inheritable = record {
  effective = set_bits effective (0, 0);
  permitted = set_bits permitted (0, 0);
  inheritable = set_bits inheritable (0, 0);
}

-- The numbers from `cap` on, as many as are left.
abbrev pub range_from : ℕ → ℕ → List ℕ
range_from cap zero = []
range_from cap (suc left) = cap ∷ range_from (cap + 1) left

-- The loop of `get_capabilities`, for one field.
unfoldable pub read_bits : Words → List ℕ
read_bits words = filter (λ cap. has_bit cap words) (range_from 0 (cap_last_cap + 1))

-- `get_capabilities`, from the data that `capget` gives.
unfoldable pub get_capabilities : CapData → List ℕ × List ℕ × List ℕ
unfolding read_bits
get_capabilities words =
    (read_bits words.effective, read_bits words.permitted, read_bits words.inheritable)

unfoldable pub drop_capabilities_except : List ℕ → CapData
unfolding set_capabilities
drop_capabilities_except keep = set_capabilities keep keep []

abbrev pub upper : List ℕ → List ℕ
upper [] = []
upper (c ∷ cs) = (if leb b'a' c && leb c b'z' then c - 32 else c) ∷ upper cs

-- `name.startswith("CAP_")`
abbrev pub is_prefixed : List ℕ → Bool
is_prefixed (c ∷ a ∷ p ∷ u ∷ _) = c == b'C' && a == b'A' && p == b'P' && u == b'_'
is_prefixed _ = false

abbrev pub same_text : List ℕ → List ℕ → Bool
same_text [] [] = true
same_text (c ∷ cs) (d ∷ ds) = c == d && same_text cs ds
same_text _ _ = false

abbrev pub find_number : List ℕ → Dict ℕ → Option ℕ
find_number name [] = none
find_number name ((known, number) ∷ rest) =
    if same_text (codes known) name then some number else find_number name rest

unfoldable pub cap_name_to_number : String → Option ℕ
unfolding capabilities
cap_name_to_number name =
    let text = upper (codes name) in
    find_number (if is_prefixed text then text else codes "CAP_" ++ text) capabilities

unfoldable pub parse_capability_list : List String → List ℕ → List ℕ
parse_capability_list [] result = result
parse_capability_list (name ∷ names) result =
    parse_capability_list names
      (elim (cap_name_to_number name) [ none ↦ result | some number ↦ add number result ])

-- The class `Capabilities`, by its set.
unfoldable pub init_caps : Bool → List ℕ
init_caps use_default = if use_default then default_container_caps else []

unfoldable pub add_cap : List ℕ → String → List ℕ
add_cap caps cap = elim (cap_name_to_number cap) [ none ↦ caps | some number ↦ add number caps ]

abbrev pub discard_number : ℕ → List ℕ → List ℕ
discard_number n [] = []
discard_number n (m ∷ ms) = let rest = discard_number n ms in if m == n then rest else m ∷ rest

unfoldable pub remove_cap : List ℕ → String → List ℕ
remove_cap caps cap = elim (cap_name_to_number cap) [
  | none ↦ caps
  | some number ↦ discard_number number caps
]

-- `__contains__`
unfoldable pub contains_cap : List ℕ → String → Bool
contains_cap caps cap = elim (cap_name_to_number cap) [
  | none ↦ false
  | some number ↦ member caps number
]

-- The data of `Capabilities.apply`.
unfoldable pub apply_caps : List ℕ → CapData
unfolding drop_capabilities_except
apply_caps caps = drop_capabilities_except caps
