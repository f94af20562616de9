-- ===== src/Cli.antt =====
-- mini_docker/cli.py: the arguments of `run` and `create` that are texts. Texts are ASCII, as code
-- points; `none` is a `ValueError`.
pub mod Options
use Prim.Native.Nat.{compare}
use mini_docker.Base.{
  ℕ, zero, suc, ◌+◌, ◌-◌, ◌*◌, ◌/◌, Bool, true, false, not, ◌&&◌, ◌||◌, Option, none, some, List,
  [], ◌∷◌, ◌++◌, ◌==◌, ltb, if◌then◌else◌, codes, length, take, drop, all, contains,
}
use mini_docker.Capabilities.{upper, same_text}
use mini_docker.Utils.Text.{ℤ, pos, negsuc, int, strip, split, is_digit, int_digits}

-- `text.endswith(suffix)`
abbrev pub ends_with : List ℕ → List ℕ → Bool
ends_with text suffix =
    not (ltb (length text) (length suffix))
    && same_text (drop (length text - length suffix) text) suffix

-- `text[:-len(suffix)]`
abbrev pub without_suffix : List ℕ → List ℕ → List ℕ
without_suffix text suffix = take (length text - length suffix) text

abbrev pub times : ℤ → ℕ → ℤ
times (pos n) m = pos (n * m)
times (negsuc n) zero = pos 0
times (negsuc n) (suc m) = negsuc (suc n * suc m - 1)

-- The multipliers, the longer suffixes first; `sorted` is stable.
abbrev pub multipliers : List (List ℕ × ℕ)
multipliers =
    (codes "KB", 1024)
    ∷ (codes "MB", 1024 * 1024)
    ∷ (codes "GB", 1024 * 1024 * 1024)
    ∷ (codes "B", 1)
    ∷ (codes "K", 1024)
    ∷ (codes "M", 1024 * 1024)
    ∷ (codes "G", 1024 * 1024 * 1024)
    ∷ []

abbrev pub scaled : Option ℤ → ℕ → Option ℤ → Option ℤ
scaled none multiplier otherwise = otherwise
scaled (some value) multiplier otherwise = some (times value multiplier)

-- The loop over the suffixes: the first that fits decides, and where what is before it is no
-- number, the whole text is tried.
unfoldable pub try_suffixes : List (List ℕ × ℕ) → List ℕ → Option ℤ
try_suffixes [] text = int text
try_suffixes ((suffix, multiplier) ∷ rest) text =
    let others = try_suffixes rest text in
    if ends_with text suffix
    then scaled (int (without_suffix text suffix)) multiplier (int text)
    else others

unfoldable pub parse_memory_limit : List ℕ → Option ℤ
unfolding try_suffixes
parse_memory_limit [] = some (pos 0)
parse_memory_limit (c ∷ cs) = try_suffixes multipliers (strip (upper (c ∷ cs)))

-- `none` inside is no limit.
unfoldable pub parse_cpu_limit_percent : Option ℤ → ℕ → Option (Option ℕ)
parse_cpu_limit_percent none period_us = some none
parse_cpu_limit_percent (some (negsuc n)) period_us = none
parse_cpu_limit_percent (some (pos percent)) period_us =
    if ltb percent 1 || ltb 100 percent then none else some (some (percent * period_us / 100))

-- `text.isdigit()` and `int(text)`
abbrev pub number_of : List ℕ → Option ℕ
number_of [] = none
number_of (c ∷ cs) = if all is_digit (c ∷ cs) then int_digits false 0 (c ∷ cs) else none

abbrev pub has_colon : List ℕ → Bool
has_colon [] = false
has_colon (c ∷ cs) = c == b':' || has_colon cs

-- `text.split(":", 1)`, where there is a colon.
abbrev pub before_colon : List ℕ → List ℕ
before_colon [] = []
before_colon (c ∷ cs) = let rest = before_colon cs in if c == b':' then [] else c ∷ rest

abbrev pub after_colon : List ℕ → List ℕ
after_colon [] = []
after_colon (c ∷ cs) = let rest = after_colon cs in if c == b':' then cs else rest

-- The user and the group; `getpwnam` looks a name up.
unfoldable pub parse_user : (List ℕ → Option (ℕ × ℕ)) → List ℕ → Option ℕ × Option ℕ
parse_user getpwnam [] = (none, none)
parse_user getpwnam (c ∷ cs) =
    let text = c ∷ cs in
    if has_colon text
    then (number_of (before_colon text), number_of (after_colon text))
    else (elim (number_of text) [
      | some uid ↦ (some uid, none)
      | none ↦ elim (getpwnam text) [ none ↦ (none, none) | some (uid, gid) ↦ (some uid, some gid) ]
    ])

abbrev pub volume_parts : List (List ℕ) → Option (List ℕ × List ℕ × List ℕ)
volume_parts (host ∷ container ∷ []) = some (host, container, codes "rw")
volume_parts (host ∷ container ∷ mode ∷ []) = some (host, container, mode)
volume_parts _ = none

unfoldable pub parse_volume : List ℕ → Option (List ℕ × List ℕ × List ℕ)
parse_volume text = volume_parts (split b':' text)
