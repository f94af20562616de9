-- ===== src/Seccomp/Total.antt =====
-- The filter fits: at most 250 system calls can be permitted, and a jump reaches 255.
use mini_docker.Base.{
  inl, ◌⊎◌, sym, ◌∙◌, String, Dict, contains, lookup, Option-cases, eq_iff, ==_iff, ltb→lt, ℕ, suc,
  ◌≤◌, ◌<◌, ◌≡◌, refl, Bool, true, false, some, List, [], ◌∷◌, arith, ltb, ◌==◌, if◌then◌else◌,
  length, all, Bool-cases, inr,
}
use mini_docker.Seccomp.Numbers.{
  member_self, permitted, member-insert_sorted, member-sorted, member-allowed_numbers,
}
use mini_docker.Seccomp.Syscalls.{syscalls}
use mini_docker.Seccomp.Whitelist.{absolutely_forbidden_syscalls}
use mini_docker.Seccomp.Filter.{member, add, add_name, allowed_numbers, insert_sorted, sorted}

-- No number stands twice.
abbrev pub NodupNumbers : List ℕ → Type 0
NodupNumbers [] = Unit
NodupNumbers (n ∷ s) = (member s n ≡ false) × NodupNumbers s

abbrev remove : ℕ → List ℕ → List ℕ
remove n [] = []
remove n (m ∷ s) = if m == n then s else m ∷ remove n s

length-remove : (n : ℕ) (s : List ℕ) → member s n ≡ true → length s ≡ suc (length (remove n s))
length-remove n [] h = cc
length-remove n (m ∷ s) h = ground (arith, length-remove n s)

member-remove :
    (n m : ℕ) (s : List ℕ) → (n == m) ≡ false → member s m ≡ true → member (remove n s) m ≡ true
member-remove n m [] h k = k
member-remove n m (i ∷ s) h k = ground (arith, member-remove n m s)

-- A set whose members stand in a list is no longer than the list.
pub length-le_of_subset :
    (s t : List ℕ)
    → NodupNumbers s
    → ((n : ℕ) → member s n ≡ true → member t n ≡ true)
    → length s ≤ length t
length-le_of_subset [] t u h = omega arith
length-le_of_subset (n ∷ s) t (fresh, u) h = omega (
  arith,
  length-remove n t (h n (ground arith)),
  length-le_of_subset s (remove n t) u (λ m k. keep m k (Bool-cases (n == m))),
)
  where
    keep :
        (m : ℕ)
        → member s m ≡ true
        → ((n == m) ≡ true) ⊎ ((n == m) ≡ false)
        → member (remove n t) m ≡ true
    keep m k (inl e) = cc (member_self m s n k (ground arith), fresh)
    keep m k (inr e) = member-remove n m t e (h m (ground arith))

add-NodupNumbers : (n : ℕ) (s : List ℕ) → NodupNumbers s → NodupNumbers (add n s)
unfolding add
add-NodupNumbers n s u = ground arith

add_name-NodupNumbers :
    (name : String) (s : List ℕ) → NodupNumbers s → NodupNumbers (add_name name s)
unfolding add_name
add_name-NodupNumbers name s u = elim (Option-cases (lookup name syscalls)) [
  | inl e ↦ rw (e, add_name) (ground arith)
  | inr (n, e) ↦ rw (e, add_name) (ground (arith, add-NodupNumbers n s u))
]

allowed_numbers-NodupNumbers :
    (names : List String) (s : List ℕ) → NodupNumbers s → NodupNumbers (allowed_numbers names s)
unfolding allowed_numbers
allowed_numbers-NodupNumbers [] s u = u
allowed_numbers-NodupNumbers (name ∷ names) s u =
    allowed_numbers-NodupNumbers names (add_name name s) (add_name-NodupNumbers name s u)

insert_sorted-NodupNumbers :
    (n : ℕ) (s : List ℕ) → member s n ≡ false → NodupNumbers s → NodupNumbers (insert_sorted n s)
insert_sorted-NodupNumbers n [] h u = (refl, tt)
insert_sorted-NodupNumbers n (m ∷ s) h (fresh, u) =
    ground (arith, insert_sorted-NodupNumbers n s, member-insert_sorted n m s)

pub sorted-NodupNumbers : (s : List ℕ) → NodupNumbers s → NodupNumbers (sorted s)
unfolding sorted
sorted-NodupNumbers [] u = tt
sorted-NodupNumbers (n ∷ s) (fresh, u) =
    insert_sorted-NodupNumbers n (sorted s) (member-sorted n s ∙ fresh) (sorted-NodupNumbers s u)

-- The numbers that some whitelist permits.
abbrev permitted_numbers : Dict ℕ → List ℕ
permitted_numbers [] = []
permitted_numbers ((name, n) ∷ table) =
    let rest = permitted_numbers table in
    if contains absolutely_forbidden_syscalls name then rest else n ∷ rest

member-permitted_numbers :
    (table : Dict ℕ) (name : String) (n : ℕ)
    → lookup name table ≡ some n
    → contains absolutely_forbidden_syscalls name ≡ false
    → member (permitted_numbers table) n ≡ true
member-permitted_numbers [] name n h k = cc
member-permitted_numbers ((j, m) ∷ table) name n h k =
    ground (arith, member-permitted_numbers table name n, eq_iff j name)

permitted-member :
    (names : List String) (n : ℕ)
    → permitted names n ≡ true
    → member (permitted_numbers syscalls) n ≡ true
permitted-member [] n h = cc
permitted-member (name ∷ names) n h = elim (Option-cases (lookup name syscalls)) [
  | inl e ↦ ground (arith, permitted-member names n)
  | inr (m, e) ↦ ground (arith, permitted-member names n, member-permitted_numbers syscalls name n)
]

table_size : length (permitted_numbers syscalls) ≡ 250
unfolding syscalls absolutely_forbidden_syscalls
table_size = refl

table_range : all (λ n. ltb n 4294967296) (permitted_numbers syscalls) ≡ true
unfolding syscalls absolutely_forbidden_syscalls
table_range = refl

all-member : (p : ℕ → Bool) (s : List ℕ) (n : ℕ) → all p s ≡ true → member s n ≡ true → p n ≡ true
all-member p [] n h k = cc
all-member p (m ∷ s) n h k = elim (Bool-cases (m == n)) [
  | inl e ↦ rw (← (==_iff m n).0 e) (ground arith)
  | inr e ↦ ground (arith, all-member p s n)
]

-- The numbers that the filter tests, in their order.
abbrev pub tested : List String → List ℕ
tested names = sorted (allowed_numbers names [])

pub member-tested : (names : List String) (n : ℕ) → member (tested names) n ≡ permitted names n
member-tested names n =
    member-sorted n (allowed_numbers names []) ∙ ground (arith, member-allowed_numbers names [] n)

pub length-tested : (names : List String) → length (tested names) ≤ 250
length-tested names = omega (
  arith,
  table_size,
  length-le_of_subset (tested names) (permitted_numbers syscalls)
      (sorted-NodupNumbers _ (allowed_numbers-NodupNumbers names [] tt))
      (λ n h. permitted-member names n (sym (member-tested names n) ∙ h)),
)

pub tested-lt : (names : List String) (n : ℕ) → member (tested names) n ≡ true → n < 4294967296
tested-lt names n h = ltb→lt n 4294967296 (
    all-member (λ n. ltb n 4294967296) (permitted_numbers syscalls) n table_range
      (permitted-member names n (sym (member-tested names n) ∙ h)))
