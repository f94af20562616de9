-- ===== src/Utils/Addresses.antt =====
-- The free addresses of `get_available_ip` in mini_docker/utils.py.
use mini_docker.Base.{
  ℕ, zero, suc, ◌+◌, String, ◌<>◌, ◌≡◌, inl, inr, refl, sym, ap, ◌∙◌, Bool, true, false, ◌||◌,
  Option, none, some, List, [], ◌∷◌, arith, contains, ◌==◌, ==_iff, ◌≤◌, ◌<◌, Dict, Bool-cases,
  str_eq, eq_iff, if◌then◌else◌,
}
use Prim.Native.Char.{Char}
use Prim.Native.String.append.{cons}
use mini_docker.Utils.Text.{decimal}
use mini_docker.Errors.{Result, ok, err, runtime_error}
use mini_docker.World.{ConfigFile, absent, unreadable, foreign, written}
use mini_docker.Utils.{used_ip, used_ips, address, first_free, get_available_ip}

-- Every address from `low` on and below `high` is in the set.
abbrev pub AllUsed : (String → Bool) → ℕ → ℕ → Type 0
AllUsed used low high = (j : ℕ) → low ≤ j → j < high → used (address j) ≡ true

-- The first address of the range that is not in the set, or an error if all are.
abbrev pub FirstFree : (String → Bool) → ℕ → ℕ → Result String → Type 0
FirstFree used low high (ok ip) =
    (i : ℕ) × (low ≤ i) × (i < high) × (ip ≡ address i) × (used ip ≡ false) × AllUsed used low i
FirstFree used low high (err e) = (e ≡ runtime_error) × AllUsed used low high

AllUsed-suc :
    (used : String → Bool) (low high : ℕ)
    → used (address low) ≡ true
    → AllUsed used (low + 1) high
    → AllUsed used low high
AllUsed-suc used low high h rest j l u = elim (Bool-cases (low == j)) [
  | inl e ↦ ap (λ n. used (address n)) (sym ((==_iff low j).0 e)) ∙ h
  | inr e ↦ rest j (ground arith) u
]

FirstFree-suc :
    (used : String → Bool) (low high : ℕ) (r : Result String)
    → used (address low) ≡ true
    → FirstFree used (low + 1) high r
    → FirstFree used low high r
FirstFree-suc used low high (ok ip) h (i, l, u, e, f, a) =
    (i, omega arith, u, e, f, AllUsed-suc used low i h a)
FirstFree-suc used low high (err e) h (p, a) = (p, AllUsed-suc used low high h a)

first_free_lem :
    (names : List String) (used : String → Bool)
    → ((i : ℕ) → contains names (address i) ≡ used (address i))
    → (low left high : ℕ) → high ≡ low + left
    → FirstFree used low high (first_free names low left)
unfolding first_free
first_free_lem names used same low zero high e = (refl, λ j l u. absurd (omega arith))
first_free_lem names used same low (suc left) high e =
    elim (Bool-cases (contains names (address low))) [
      | inl h ↦ rw h (
          FirstFree-suc used low high _ (sym (same low) ∙ h)
            (first_free_lem names used same (low + 1) left high (omega arith)))
      | inr h ↦
          rw h
            (low, omega arith, omega arith, refl, sym (same low) ∙ h, λ j l u. absurd (omega arith))
    ]

-- The field `ip` of the network in a configuration file is this text.
abbrev pub names_ip : String → ConfigFile → Bool
names_ip ip absent = false
names_ip ip unreadable = false
names_ip ip (foreign name none) = false
names_ip ip (foreign name (some other)) = str_eq other ip
names_ip ip (written config) = elim config.network.ip [
  | none ↦ false
  | some other ↦ str_eq other ip
]

-- Some file names the address.
abbrev pub is_named : Dict ConfigFile → String → Bool
is_named [] ip = false
is_named ((id, file) ∷ files) ip = names_ip ip file || is_named files ip

named_by-used :
    (file : ConfigFile) (ip : String)
    → names_ip ip file ≡ (elim (used_ip file) [ none ↦ false | some other ↦ str_eq other ip ])
named_by-used absent ip = refl
named_by-used unreadable ip = refl
named_by-used (foreign name none) ip = refl
named_by-used (foreign name (some other)) ip = refl
named_by-used (written config) ip = refl

collected :
    (found : Option String) (rest : List String) (ip : String)
    → str_eq ip "" ≡ false
    → contains
        (elim found [ none ↦ rest | some other ↦ if str_eq other "" then rest else other ∷ rest ])
        ip
      ≡ ((elim found [ none ↦ false | some other ↦ str_eq other ip ]) || contains rest ip)
collected none rest ip h = refl
collected (some other) rest ip h = ground (arith, eq_iff other "", eq_iff other ip, eq_iff ip "", h)

-- The set of addresses has exactly those that some file names.
used_ips-named :
    (files : Dict ConfigFile) (ip : String)
    → str_eq ip "" ≡ false
    → contains (used_ips files) ip ≡ is_named files ip
unfolding used_ips
used_ips-named [] ip h = refl
used_ips-named ((id, file) ∷ files) ip h =
    collected (used_ip file) (used_ips files) ip h
    ∙ rw (used_ips-named files ip h, named_by-used file ip) refl

address-filled : (i : ℕ) → str_eq (address i) "" ≡ false
address-filled i = elim (Bool-cases (str_eq (address i) "")) [
  | inl h ↦
      let e = sym (cons (Char.char 49 tt) "0.0.0." (decimal i)) ∙ (eq_iff (address i) "").0 h in
      let texts : Prim.Native.String.◌∷◌ (Char.char 49 tt) ("0.0.0." <> decimal i) ≡ "" = e in
      absurd cc
  | inr h ↦ h
]

-- `get_available_ip` returns the first of the addresses 10.0.0.2 to 10.0.0.254 that no
-- configuration file names, and raises `RuntimeError` if all of them are named.
pub get_available_ip_lem :
    (files : Dict ConfigFile) → FirstFree (is_named files) 2 255 (get_available_ip files)
unfolding get_available_ip
get_available_ip_lem files =
    first_free_lem (used_ips files) (is_named files)
      (λ i. used_ips-named files (address i) (address-filled i)) 2 253 255 refl
