-- ===== src/Metadata/Order.antt =====
-- The order of `list_containers` in mini_docker/metadata.py.
use mini_docker.Base.{
  ℕ, ◌≡◌, ◌≤◌, refl, List, [], ◌∷◌, arith, ltb, ◌==◌, filter, Bool-cases, inl, inr, All,
}
use mini_docker.Metadata.Config.{ContainerConfig}
use mini_docker.Metadata.Store.{insert_newest, newest_first}

-- Each is at least as new as those after it.
abbrev pub IsNewestFirst : List ContainerConfig → Type 0
IsNewestFirst [] = Unit
IsNewestFirst (c ∷ cs) = All (λ d. d.created_at ≤ c.created_at) cs × IsNewestFirst cs

-- Those that were created at one time, in their order.
abbrev pub created_then : ℕ → List ContainerConfig → List ContainerConfig
created_then t cs = filter (λ c. c.created_at == t) cs

AllAtMost : ℕ → List ContainerConfig → Type 0
AllAtMost t = All (λ d. d.created_at ≤ t)

AllAtMost-le : (s t : ℕ) (cs : List ContainerConfig) → s ≤ t → AllAtMost s cs → AllAtMost t cs
unfolding AllAtMost
AllAtMost-le s t [] l a = tt
AllAtMost-le s t (c ∷ cs) l (m, a) = (omega arith, AllAtMost-le s t cs l a)

AllAtMost-insert :
    (t : ℕ) (c : ContainerConfig) (cs : List ContainerConfig)
    → c.created_at ≤ t
    → AllAtMost t cs
    → AllAtMost t (insert_newest c cs)
unfolding AllAtMost
AllAtMost-insert t c [] l a = (l, tt)
AllAtMost-insert t c (d ∷ ds) l (m, a) = elim (Bool-cases (ltb c.created_at d.created_at)) [
  | inl h ↦ rw h (m, AllAtMost-insert t c ds l a)
  | inr h ↦ rw h (l, (m, a))
]

insert-IsNewestFirst :
    (c : ContainerConfig) (cs : List ContainerConfig)
    → IsNewestFirst cs
    → IsNewestFirst (insert_newest c cs)
unfolding AllAtMost
insert-IsNewestFirst c [] s = (tt, tt)
insert-IsNewestFirst c (d ∷ ds) (a, s) = elim (Bool-cases (ltb c.created_at d.created_at)) [
  | inl h ↦ rw h (AllAtMost-insert d.created_at c ds (ground arith) a, insert-IsNewestFirst c ds s)
  | inr h ↦
      rw h ((ground arith, AllAtMost-le d.created_at c.created_at ds (ground arith) a), (a, s))
]

created_then-insert :
    (t : ℕ) (c : ContainerConfig) (cs : List ContainerConfig)
    → created_then t (insert_newest c cs) ≡ created_then t (c ∷ cs)
created_then-insert t c [] = refl
created_then-insert t c (d ∷ ds) = ground (arith, created_then-insert t c ds)

newest_first-IsNewestFirst : (cs : List ContainerConfig) → IsNewestFirst (newest_first cs)
unfolding newest_first
newest_first-IsNewestFirst [] = tt
newest_first-IsNewestFirst (c ∷ cs) =
    insert-IsNewestFirst c (newest_first cs) (newest_first-IsNewestFirst cs)

created_then-newest_first :
    (t : ℕ) (cs : List ContainerConfig) → created_then t (newest_first cs) ≡ created_then t cs
unfolding newest_first
created_then-newest_first t [] = refl
created_then-newest_first t (c ∷ cs) =
    ground (arith, created_then-insert t c (newest_first cs), created_then-newest_first t cs)

-- Sorting the containers puts the newest first, and keeps for each time of creation exactly the
-- containers that were created then, in the order they had.
pub newest_first_lem :
    (cs : List ContainerConfig)
    → IsNewestFirst (newest_first cs)
      × ((t : ℕ) → created_then t (newest_first cs) ≡ created_then t cs)
newest_first_lem cs = (newest_first-IsNewestFirst cs, λ t. created_then-newest_first t cs)
