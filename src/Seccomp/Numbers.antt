-- ===== src/Seccomp/Numbers.antt =====
-- The set of numbers that a whitelist stands for.
use mini_docker.Base.{
  ℕ, String, ◌≡◌, refl, ◌∙◌, Bool, true, false, not, ◌&&◌, ◌||◌, none, some, List, [], ◌∷◌, arith,
  ◌==◌, contains, lookup, any, Option-cases, inl, inr,
}
use mini_docker.Seccomp.Filter.{member, add, add_name, allowed_numbers, insert_sorted, sorted}
use mini_docker.Seccomp.Syscalls.{syscalls}
use mini_docker.Seccomp.Whitelist.{absolutely_forbidden_syscalls}

-- `name` has the number `nr` in the table.
abbrev pub has_number : ℕ → String → Bool
has_number nr name = elim (lookup name syscalls) [ none ↦ false | some n ↦ n == nr ]

-- One of the names has the number and is not forbidden.
abbrev pub permitted : List String → ℕ → Bool
permitted names nr =
    any (λ name. not (contains absolutely_forbidden_syscalls name) && has_number nr name) names

pub member_self : (n : ℕ) (s : List ℕ) (m : ℕ) → member s n ≡ true → n ≡ m → member s m ≡ true
member_self n s m h e = cc

pub member-add : (m n : ℕ) (s : List ℕ) → member (add n s) m ≡ (n == m || member s m)
unfolding add
member-add m n s = ground (arith, member_self n s m)

pub member-insert_sorted :
    (n m : ℕ) (s : List ℕ) → member (insert_sorted n s) m ≡ (n == m || member s m)
member-insert_sorted n m [] = refl
member-insert_sorted n m (k ∷ s) = ground (arith, member-insert_sorted n m s)

pub member-sorted : (m : ℕ) (s : List ℕ) → member (sorted s) m ≡ member s m
unfolding sorted
member-sorted m [] = refl
member-sorted m (n ∷ s) = ground (arith, member-insert_sorted n m (sorted s), member-sorted m s)

member-add_name :
    (name : String) (acc : List ℕ) (nr : ℕ)
    → member (add_name name acc) nr
      ≡ (not (contains absolutely_forbidden_syscalls name) && has_number nr name || member acc nr)
unfolding add_name
member-add_name name acc nr = elim (Option-cases (lookup name syscalls)) [
  | inl e ↦ rw (e, add_name) (ground arith)
  | inr (n, e) ↦ rw (e, add_name) (ground (arith, member-add nr n acc))
]

pub member-allowed_numbers :
    (names : List String) (acc : List ℕ) (nr : ℕ)
    → member (allowed_numbers names acc) nr ≡ (permitted names nr || member acc nr)
unfolding allowed_numbers add_name
member-allowed_numbers [] acc nr = refl
member-allowed_numbers (name ∷ names) acc nr =
    member-allowed_numbers names (add_name name acc) nr
    ∙ ground (arith, member-add_name name acc nr)
