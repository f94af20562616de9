-- ===== src/Cli/Options.antt =====
-- The limits, users and volumes that mini_docker/cli.py reads from texts.
use mini_docker.Base.{
  ℕ, ◌+◌, ◌*◌, ◌≤◌, ◌<◌, ◌≡◌, ◌⊎◌, refl, Bool, true, not, ltb, Option, none, some, List, [], ◌∷◌,
  ◌++◌, arith, ◌==◌, codes, all, Bool-cases, inl, inr,
}
use mini_docker.Cli.{parse_cpu_limit_percent, parse_volume}
use mini_docker.Utils.Text.{ℤ, pos, negsuc, split}

-- What may come of a percentage: a quota, which is the percentage of the period rounded down, or
-- an error.
abbrev pub Quota : ℤ → ℕ → Option (Option ℕ) → Type 0
Quota percent period (some (some quota)) =
    (n : ℕ) × (percent ≡ pos n)
    × (1 ≤ n)
    × (n ≤ 100)
    × (quota * 100 ≤ n * period)
    × (n * period < (quota + 1) * 100)
Quota percent period (some none) = ⊥
Quota percent period none =
    ((n : ℕ) × (percent ≡ pos n) × ((n < 1) ⊎ (100 < n))) ⊎ ((n : ℕ) × (percent ≡ negsuc n))

-- A percentage is accepted only from 1 to 100, and its quota is then that percentage of the
-- period, rounded down; it is refused only if it is below 1 or above 100.
pub parse_cpu_limit_percent_lem :
    (percent : ℤ) (period : ℕ)
    → Quota percent period (parse_cpu_limit_percent (some percent) period)
unfolding parse_cpu_limit_percent
parse_cpu_limit_percent_lem (negsuc n) period = inr (n, refl)
parse_cpu_limit_percent_lem (pos n) period = elim (Bool-cases (ltb n 1)) [
  | inl e ↦ rw e (inl (n, refl, inl (ground (arith, e))))
  | inr e ↦ elim (Bool-cases (ltb 100 n)) [
    | inl f ↦ rw (e, f) (inl (n, refl, inr (ground (arith, f))))
    | inr f ↦ rw (e, f) (n, refl, ground (arith, e), ground (arith, f), omega arith, omega arith)
  ]
]

-- A part of a volume has no colon.
abbrev pub is_part : List ℕ → Bool
is_part text = all (λ c. not (c == b':')) text

split-part :
    (part rest : List ℕ)
    → is_part part ≡ true
    → split b':' (part ++ b':' ∷ rest) ≡ part ∷ split b':' rest
unfolding split
split-part [] rest h = refl
split-part (c ∷ cs) rest h = elim (Bool-cases (c == b':')) [
  | inl e ↦ absurd (ground (arith, e, h))
  | inr e ↦ rw (e, split-part cs rest (ground (arith, e, h))) refl
]

split-last : (part : List ℕ) → is_part part ≡ true → split b':' part ≡ part ∷ []
unfolding split
split-last [] h = refl
split-last (c ∷ cs) h = elim (Bool-cases (c == b':')) [
  | inl e ↦ absurd (ground (arith, e, h))
  | inr e ↦ rw (e, split-last cs (ground (arith, e, h))) refl
]

-- A volume that is written as host:container:mode, with no further colon, is read back, and
-- without a mode it is one that can be written to.
pub parse_volume_lem :
    (host container mode : List ℕ)
    → is_part host ≡ true
    → is_part container ≡ true
    → is_part mode ≡ true
    → (parse_volume (host ++ b':' ∷ (container ++ b':' ∷ mode)) ≡ some (host, container, mode))
      × (parse_volume (host ++ b':' ∷ container) ≡ some (host, container, codes "rw"))
unfolding parse_volume
parse_volume_lem host container mode h c m = (
  rw (split-part host (container ++ b':' ∷ mode) h, split-part container mode c, split-last mode m)
      refl,
  rw (split-part host container h, split-last container c) refl,
)
