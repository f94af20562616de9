-- ===== src/Capabilities/Digits.antt =====
-- The binary digits of `&` and `|`, for the masks of mini_docker/capabilities.py.
use Prim.Native.Nat.{min, max, digits, bit_and, bit_or, bit_and-bitwise, bit_or-bitwise}
use native.Mathlib.Nat.{pow-suc, le_refl}
use mini_docker.Base.{
  ℕ, zero, suc, ◌+◌, ◌*◌, ◌/◌, ◌%◌, ◌^◌, ◌≤◌, ◌≡◌, refl, sym, ap, ◌∙◌, not, ◌||◌, ◌==◌, arith,
  if◌then◌else◌,
}

-- Digits that are not there are left out at no loss.
module _ (rest : ℕ → ℕ) (op : ℕ → ℕ → ℕ) where
  digits-same : (i j a b : ℕ) → a ≤ i → a ≤ j → digits rest op i a b ≡ digits rest op j a b
  digits-same i j zero b p q = no_digit i ∙ sym (no_digit j)
    where
      no_digit : (n : ℕ) → digits rest op n zero b ≡ rest b
      no_digit zero = refl
      no_digit (suc n) = refl
  digits-same zero j (suc a) b p q = omega arith
  digits-same (suc i) zero (suc a) b p q = omega arith
  digits-same (suc i) (suc j) (suc a) b p q =
      omega (arith, digits-same i j (suc a / 2) (b / 2) (omega arith) (omega arith))

or_split : (a b : ℕ) → bit_or a b ≡ bit_or (a / 2) (b / 2) * 2 + max (a % 2) (b % 2)
or_split zero b = omega (arith, bit_or-bitwise 0 b, bit_or-bitwise 0 (b / 2))
or_split (suc a) b = omega (
  arith,
  bit_or-bitwise (suc a) b,
  bit_or-bitwise (suc a / 2) (b / 2),
  digits-same (λ y. y) max a (suc a / 2) (suc a / 2) (b / 2) (omega arith) (le_refl _),
)

and_split : (a b : ℕ) → bit_and a b ≡ bit_and (a / 2) (b / 2) * 2 + min (a % 2) (b % 2)
and_split zero b = omega (arith, bit_and-bitwise 0 b, bit_and-bitwise 0 (b / 2))
and_split (suc a) b = omega (
  arith,
  bit_and-bitwise (suc a) b,
  bit_and-bitwise (suc a / 2) (b / 2),
  digits-same (λ y. 0) min a (suc a / 2) (suc a / 2) (b / 2) (omega arith) (le_refl _),
)

-- The digit of the value 2 to the k.
digit_at : ℕ → ℕ → ℕ
digit_at zero w = w % 2
digit_at (suc k) w = digit_at k (w / 2)

digit_at-or : (k a b : ℕ) → digit_at k (bit_or a b) ≡ max (digit_at k a) (digit_at k b)
unfolding digit_at
digit_at-or zero a b = omega (arith, or_split a b)
digit_at-or (suc k) a b =
    ap (digit_at k) (omega (arith, or_split a b)) ∙ digit_at-or k (a / 2) (b / 2)

pub zero-and : (b : ℕ) → bit_and 0 b ≡ 0
zero-and b = bit_and-bitwise 0 b

and-zero : (n a : ℕ) → a ≤ n → bit_and a 0 ≡ 0
and-zero zero zero h = omega (arith, bit_and-bitwise 0 0)
and-zero zero (suc a) h = omega arith
and-zero (suc n) a h = omega (arith, and_split a 0, and-zero n (a / 2) (omega arith))

-- A word and a mask have something in common if the word has the digit of the mask.
and-mask : (k w : ℕ) → (bit_and w (2 ^ k) == 0) ≡ (digit_at k w == 0)
unfolding digit_at
and-mask zero w = ground (arith, and_split w 1, and-zero (w / 2) (w / 2) (le_refl _))
and-mask (suc k) w = ground (arith, and_split w (2 ^ suc k), pow-suc 2 k, and-mask k (w / 2))

digit_at-zero : (k : ℕ) → digit_at k 0 ≡ 0
unfolding digit_at
digit_at-zero zero = refl
digit_at-zero (suc k) = digit_at-zero k

half : (j : ℕ) → 2 ^ suc j / 2 ≡ 2 ^ j
half j = omega (arith, pow-suc 2 j)

digit_at-mask : (k j : ℕ) → digit_at k (2 ^ j) ≡ (if j == k then 1 else 0)
unfolding digit_at
digit_at-mask zero zero = refl
digit_at-mask zero (suc j) = ground (arith, pow-suc 2 j)
digit_at-mask (suc k) zero = ground (arith, digit_at-zero k)
digit_at-mask (suc k) (suc j) = ap (digit_at k) (half j) ∙ ground (arith, digit_at-mask k j)

-- After a mask is added, a word has what it had, and the mask.
pub test-or :
    (w j k : ℕ)
    → not (bit_and (bit_or w (2 ^ j)) (2 ^ k) == 0) ≡ (not (bit_and w (2 ^ k) == 0) || j == k)
test-or w j k =
    ground (
      arith,
      and-mask k (bit_or w (2 ^ j)),
      and-mask k w,
      digit_at-or k w (2 ^ j),
      digit_at-mask k j,
    )
