-- ===== src/Utils/Text.antt =====
-- Python's `str.split`, `str.strip`, `int` and decimal text, for ASCII texts as code points.
use mini_docker.Base.{
  ℕ, zero, suc, ◌+◌, ◌*◌, ◌-◌, ◌/◌, ◌%◌, String, ◌<>◌, Bool, false, ◌&&◌, ◌||◌, Option, none, some,
  List, [], ◌∷◌, ◌==◌, ltb, leb, if◌then◌else◌,
}

-- The white space that `str.split()` and `str.strip()` look for.
abbrev pub is_space : ℕ → Bool
is_space c = leb 9 c && leb c 13 || leb 28 c && leb c 32

abbrev pub flush : List ℕ → List (List ℕ) → List (List ℕ)
flush [] words = words
flush (c ∷ word) words = (c ∷ word) ∷ words

-- The word that a text begins with, and those after it.
abbrev split_words : List ℕ → List ℕ × List (List ℕ)
split_words [] = ([], [])
split_words (c ∷ cs) =
    let (word, words) = split_words cs in
    if is_space c then ([], flush word words) else (c ∷ word, words)

-- `s.split()`
unfoldable pub words : List ℕ → List (List ℕ)
words s = let (word, more) = split_words s in flush word more

abbrev pub prepend : ℕ → List (List ℕ) → List (List ℕ)
prepend c [] = (c ∷ []) ∷ []
prepend c (part ∷ parts) = (c ∷ part) ∷ parts

-- `s.split(sep)`
unfoldable pub split : ℕ → List ℕ → List (List ℕ)
split sep [] = [] ∷ []
split sep (c ∷ cs) = let parts = split sep cs in if c == sep then [] ∷ parts else prepend c parts

abbrev pub lstrip : List ℕ → List ℕ
lstrip [] = []
lstrip (c ∷ cs) = let rest = lstrip cs in if is_space c then rest else c ∷ cs

abbrev pub rstrip : List ℕ → List ℕ
rstrip [] = []
rstrip (c ∷ cs) = elim (rstrip cs) [ [] ↦ if is_space c then [] else c ∷ [] | d ∷ ds ↦ c ∷ d ∷ ds ]

-- `s.strip()`
unfoldable pub strip : List ℕ → List ℕ
strip s = rstrip (lstrip s)

abbrev pub is_digit : ℕ → Bool
is_digit c = leb b'0' c && leb c b'9'

-- The digits of `int(s)`, where one underscore may stand between two digits. The flag says that
-- the last character was a digit.
unfoldable pub int_digits : Bool → ℕ → List ℕ → Option ℕ
int_digits after_digit n [] = if after_digit then some n else none
int_digits after_digit n (c ∷ cs) =
    let more = int_digits (is_digit c) (if is_digit c then n * 10 + (c - 48) else n) cs in
    if is_digit c || c == b'_' && after_digit then more else none

pub data ℤ : Type 0 where
  -- 0, 1, ..., and -1, -2, ...
  pos negsuc : ℕ → ℤ

abbrev negate : Option ℕ → Option ℤ
negate none = none
negate (some zero) = some (pos 0)
negate (some (suc n)) = some (negsuc n)

abbrev keep : Option ℕ → Option ℤ
keep none = none
keep (some n) = some (pos n)

abbrev signed : List ℕ → Option ℤ
signed [] = none
signed (c ∷ cs) =
    if c == b'-'
    then negate (int_digits false 0 cs)
    else if c == b'+'
    then keep (int_digits false 0 cs)
    else keep (int_digits false 0 (c ∷ cs))

-- `int(s)`; `none` is its `ValueError`.
unfoldable pub int : List ℕ → Option ℤ
unfolding int_digits strip
int s = signed (strip s)

abbrev digit : ℕ → String
digit d =
    if d == 0
    then "0"
    else if d == 1
    then "1"
    else if d == 2
    then "2"
    else if d == 3
    then "3"
    else if d == 4
    then "4"
    else if d == 5
    then "5"
    else if d == 6
    then "6"
    else if d == 7
    then "7"
    else if d == 8
    then "8"
    else "9"

decimal_fuel : ℕ → ℕ → String → String
decimal_fuel zero n acc = acc
decimal_fuel (suc fuel) n acc =
    let text = digit (n % 10) <> acc in
    let more = decimal_fuel fuel (n / 10) text in if ltb n 10 then text else more

-- `str(n)`; `n + 1` digits are enough.
unfoldable pub decimal : ℕ → String
unfolding decimal_fuel
decimal n = decimal_fuel (n + 1) n ""
