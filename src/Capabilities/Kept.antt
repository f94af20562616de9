-- ===== src/Capabilities/Kept.antt =====
-- What the kernel is told to keep, and the set of the class `Capabilities`.
use mini_docker.Base.{
  ℕ, zero, suc, ◌+◌, ◌%◌, ◌^◌, ◌≤◌, ◌≡◌, refl, ap, ◌∙◌, String, Bool, true, false, not, ◌&&◌, ◌||◌,
  ◌⊎◌, ◌++◌, Option, Dict, In, all, codes, drop, none, some, List, [], ◌∷◌, arith, ◌==◌, leb, ltb,
  leb→le, if◌then◌else◌, filter, Bool-cases, Option-cases, inl, inr, ==_iff,
}
use mini_docker.Seccomp.Filter.{member}
use mini_docker.Seccomp.Numbers.{member-add}
use mini_docker.Capabilities.{
  cap_last_cap, Words, set_bit, has_bit, set_bits, set_capabilities, range_from, read_bits,
  get_capabilities, drop_capabilities_except, cap_name_to_number, add_cap, remove_cap, contains_cap,
  discard_number, capabilities, find_number, is_prefixed, upper,
}
use mini_docker.Capabilities.Digits.{test-or, zero-and}

has_bit-set_bit :
    (c d : ℕ) (w : Words) → c ≤ 40 → d ≤ 40 → has_bit c (set_bit d w) ≡ (has_bit c w || d == c)
has_bit-set_bit c d (low, high) p q =
    ground (arith, test-or low (d % 32) (c % 32), test-or high (d % 32) (c % 32))

-- One round of the loop.
has_bit-round :
    (c d : ℕ) (w : Words)
    → c ≤ 40
    → has_bit c (if leb d cap_last_cap then set_bit d w else w) ≡ (has_bit c w || d == c)
has_bit-round c d w p = elim (Bool-cases (leb d 40)) [
  | inl h ↦ rw h (has_bit-set_bit c d w p (leb→le d 40 h))
  | inr h ↦ rw h (apart (has_bit c w) (ground arith))
]
  where
    apart : (b : Bool) → (d == c) ≡ false → b ≡ (b || d == c)
    apart b e = ground arith

or_assoc : (a b c : Bool) → ((a || b) || c) ≡ (a || (b || c))
or_assoc true b c = refl
or_assoc false b c = refl

has_bit-set_bits :
    (c : ℕ) (caps : List ℕ) (w : Words)
    → c ≤ 40
    → has_bit c (set_bits caps w) ≡ (has_bit c w || member caps c)
unfolding set_bits
has_bit-set_bits c [] w p = or_false (has_bit c w)
  where
    or_false : (b : Bool) → b ≡ (b || false)
    or_false true = refl
    or_false false = refl
has_bit-set_bits c (d ∷ caps) w p =
    has_bit-set_bits c caps (if leb d cap_last_cap then set_bit d w else w) p
    ∙ ap (λ b. b || member caps c) (has_bit-round c d w p)
    ∙ or_assoc (has_bit c w) (d == c) (member caps c)

-- The numbers of a filtered range.
member-filter_range :
    (test : ℕ → Bool) (c from left : ℕ)
    → member (filter test (range_from from left)) c ≡ (leb from c && ltb c (from + left) && test c)
member-filter_range test c from zero = ground arith
member-filter_range test c from (suc left) =
    ground (arith, ==_iff from c, ap test, member-filter_range test c (from + 1) left)

no_bits : (c : ℕ) → c ≤ 40 → has_bit c (0, 0) ≡ false
no_bits c p = ground (arith, zero-and (2 ^ (c % 32)))

-- Reading the words gives back the capabilities of the set.
read_bits-set_bits :
    (caps : List ℕ) (c : ℕ)
    → member (read_bits (set_bits caps (0, 0))) c ≡ (leb c cap_last_cap && member caps c)
unfolding read_bits
read_bits-set_bits caps c =
    member-filter_range (λ cap. has_bit cap (set_bits caps (0, 0))) c 0 41
    ∙ elim (Bool-cases (leb c 40)) [
      | inl h ↦
          rw (has_bit-set_bits c caps (0, 0) (leb→le c 40 h), no_bits c (leb→le c 40 h))
            (ground arith)
      | inr h ↦ ground arith
    ]

-- What the kernel is told to keep of this capability.
abbrev pub KeepsOnly : List ℕ → ℕ → Type 0
KeepsOnly keep c =
    let (effective, permitted, inheritable) = get_capabilities (drop_capabilities_except keep) in
    (member effective c ≡ (leb c cap_last_cap && member keep c))
    × (member permitted c ≡ (leb c cap_last_cap && member keep c))
    × (member inheritable c ≡ false)

-- The capabilities that `drop_capabilities_except` passes to the kernel, read back as
-- `get_capabilities` does, are those of the set that are at most the last one, in the effective and
-- in the permitted field, and none in the inheritable one.
pub drop_capabilities_except_lem : (keep : List ℕ) (c : ℕ) → KeepsOnly keep c
unfolding get_capabilities drop_capabilities_except set_capabilities
drop_capabilities_except_lem keep c = (read_bits-set_bits keep c, read_bits-set_bits keep c, refl)

member-discard_number :
    (n m : ℕ) (caps : List ℕ) → member (discard_number n caps) m ≡ (member caps m && not (n == m))
member-discard_number n m [] = refl
member-discard_number n m (c ∷ caps) =
    ground (arith, member-discard_number n m caps, ==_iff c n, ==_iff n m, ==_iff c m)

-- Two names of one capability.
abbrev same_cap : String → String → Bool
same_cap name other = elim (cap_name_to_number name) [
  | none ↦ false
  | some n ↦ elim (cap_name_to_number other) [ none ↦ false | some m ↦ n == m ]
]

contains_named :
    (caps : List ℕ) (name other : String)
    → (contains_cap (add_cap caps name) other ≡ (contains_cap caps other || same_cap name other))
      × (contains_cap (remove_cap caps name) other
          ≡ (contains_cap caps other && not (same_cap name other)))
unfolding contains_cap add_cap remove_cap
contains_named caps name other = elim (Option-cases (cap_name_to_number name)) [
  | inl e ↦ elim (Option-cases (cap_name_to_number other)) [
    | inl f ↦ rw (e, f, contains_cap, add_cap, remove_cap, same_cap) (refl, refl)
    | inr (m, f) ↦
        rw (e, f, contains_cap, add_cap, remove_cap, same_cap) (ground arith, ground arith)
  ]
  | inr (n, e) ↦ elim (Option-cases (cap_name_to_number other)) [
    | inl f ↦ rw (e, f, contains_cap, add_cap, remove_cap, same_cap) (refl, refl)
    | inr (m, f) ↦
        rw (e, f, contains_cap, add_cap, remove_cap, same_cap)
          (rw (e, add_cap, remove_cap)
            (ground (arith, member-add m n caps), member-discard_number n m caps))
  ]
]

-- A name spells the name of a capability in letters of any case, with the prefix or without.
abbrev pub Spells : String → String → Type 0
Spells name cap =
    (upper (codes name) ≡ codes cap) ⊎ (codes "CAP_" ++ upper (codes name) ≡ codes cap)

abbrev is_number : ℕ → Option ℕ → Bool
is_number n none = false
is_number n (some m) = m == n

-- Of the table: each name has the prefix once, and is found with its own number.
abbrev is_regular : String × ℕ → Bool
is_regular (key, n) =
    is_number n (find_number (codes key) capabilities)
    && (is_prefixed (codes key) && not (is_prefixed (drop 4 (codes key))))

capabilities-regular : all is_regular capabilities ≡ true
unfolding capabilities
capabilities-regular = refl

all-In :
    (entries : Dict ℕ) (entry : String × ℕ)
    → all is_regular entries ≡ true
    → In entry entries
    → is_regular entry ≡ true
all-In [] entry h i = absurd i
all-In (e ∷ entries) entry h (inl same) = rw same (ground (arith, h))
all-In (e ∷ entries) entry h (inr i) = all-In entries entry (ground (arith, h)) i

-- The look-up of a text in capitals.
abbrev number_in : Dict ℕ → List ℕ → Option ℕ
number_in table text = find_number (if is_prefixed text then text else codes "CAP_" ++ text) table

is_number-eq : (n : ℕ) (found : Option ℕ) → is_number n found ≡ true → found ≡ some n
is_number-eq n none h = absurd cc
is_number-eq n (some m) h = ap some ((==_iff m n).0 h)

parts : (a b c : Bool) → (a && (b && not c)) ≡ true → (a ≡ true) × (b ≡ true) × (c ≡ false)
parts a b c h = (ground (arith, h), ground (arith, h), ground (arith, h))

number_in-eq :
    (table : Dict ℕ) (text key : List ℕ) (n : ℕ)
    → is_number n (find_number key table) ≡ true
    → is_prefixed key ≡ true
    → is_prefixed (drop 4 key) ≡ false
    → (text ≡ key) ⊎ (codes "CAP_" ++ text ≡ key)
    → number_in table text ≡ some n
number_in-eq table text key n found first once (inl e) =
    rw (e, first) (is_number-eq n (find_number key table) found)
number_in-eq table text key n found first once (inr e) =
    let short : is_prefixed text ≡ false = ap (λ t. is_prefixed (drop 4 t)) e ∙ once in
    rw (short, e) (is_number-eq n (find_number key table) found)

-- A spelling of a capability of the table is read as its number.
cap_name_to_number-Spells :
    (name key : String) (n : ℕ)
    → In (key, n) capabilities
    → Spells name key
    → cap_name_to_number name ≡ some n
unfolding cap_name_to_number
cap_name_to_number-Spells name key n i spells =
    let (found, first, once) = parts _ _ _ (all-In capabilities (key, n) capabilities-regular i) in
    number_in-eq capabilities (upper (codes name)) (codes key) n found first once spells

-- For two capabilities of the table and spellings of their names, in letters of any case and with
-- the prefix CAP_ or without: after `add` of the one the set contains the other if it did, or if
-- they have the same number; after `remove` of the one it contains the other if it did, and they
-- have different numbers.
pub contains_cap_lem :
    (caps : List ℕ) (name other key other_key : String) (n m : ℕ)
    → In (key, n) capabilities
    → Spells name key
    → In (other_key, m) capabilities
    → Spells other other_key
    → (contains_cap caps other ≡ member caps m)
      × (contains_cap (add_cap caps name) other ≡ (member caps m || n == m))
      × (contains_cap (remove_cap caps name) other ≡ (member caps m && not (n == m)))
unfolding contains_cap
contains_cap_lem caps name other key other_key n m i s j t =
    let e = cap_name_to_number-Spells name key n i s in
    let f = cap_name_to_number-Spells other other_key m j t in
    let (added, removed) = contains_named caps name other in
    let same : same_cap name other ≡ (n == m) = rw (e, f, same_cap) refl in
    let has : contains_cap caps other ≡ member caps m = rw (f, contains_cap) refl in
    (has, added ∙ (rw (has, same) refl), removed ∙ (rw (has, same) refl))
