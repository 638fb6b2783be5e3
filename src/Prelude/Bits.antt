-- ===== src/Prelude/Bits.antt =====
-- Shifts and masks as arithmetic, and checks of every value of a small range.
use Prim.Native.Nat.{
  ℕ, zero, suc, ◌+◌, ◌*◌, ◌/◌, ◌≤◌, ◌<◌, min, max, digits, bit_and, bit_or, bit_and-bitwise,
  bit_or-bitwise,
}
use mathlib.Core.Path.{◌≡◌, refl, ◌∙◌}
use mathlib.Core.Bool.{Bool, true, ◌&&◌}
use native.Mathlib.Omega.{arith}

unfoldable pub all_below : ℕ → (ℕ → Bool) → Bool
all_below zero p = true
all_below (suc n) p = p n && all_below n p

pub below_all : (n : ℕ) (p : ℕ → Bool) (x : ℕ) → all_below n p ≡ true → x < n → p x ≡ true
unfolding all_below
below_all zero p x h l = absurd (omega arith)
below_all (suc n) p x h l = ground (arith, below_all n p x)

-- `x` shifted by `k` digits
abbrev pub shifted : ℕ → ℕ → ℕ
shifted zero x = x
shifted (suc k) x = 2 * shifted k x

or_zero : (n a : ℕ) → a ≤ n → digits (λ b. b) max n a 0 ≡ a
or_zero zero a l = omega arith
or_zero (suc n) zero l = refl
or_zero (suc n) (suc a) l = omega (arith, or_zero n (suc a / 2) (omega arith))

or_digits :
    (k n a x y : ℕ) → a ≤ n → a ≡ shifted k x → y < shifted k 1 → digits (λ b. b) max n a y ≡ a + y
or_digits zero n a x zero l e h = or_zero n a l ∙ omega arith
or_digits zero n a x (suc y) l e h = absurd (omega arith)
or_digits (suc k) zero a x y l e h = omega arith
or_digits (suc k) (suc n) zero x y l e h = omega arith
or_digits (suc k) (suc n) (suc a) x y l e h =
    omega (arith, or_digits k n (suc a / 2) x (y / 2) (omega arith) (omega arith) (omega arith))

-- The digits of `y` are below those of `a`.
pub bit_or-shifted : (k a x y : ℕ) → a ≡ shifted k x → y < shifted k 1 → bit_or a y ≡ a + y
bit_or-shifted k a x y e h = (λ i. bit_or-bitwise a y i) ∙ or_digits k a a x y (omega arith) e h

low_digits :
    (k n a x y : ℕ) → y ≤ n → a ≡ shifted k x → y < shifted k 1 → digits (λ b. b) max n y a ≡ y + a
low_digits zero zero a x y l e h = omega arith
low_digits zero (suc n) a x zero l e h = omega arith
low_digits zero (suc n) a x (suc y) l e h = absurd (omega arith)
low_digits (suc k) zero a x y l e h = omega arith
low_digits (suc k) (suc n) a x zero l e h = omega arith
low_digits (suc k) (suc n) a x (suc y) l e h =
    omega (arith, low_digits k n (a / 2) x (suc y / 2) (omega arith) (omega arith) (omega arith))

-- The same with the low digits first.
pub bit_or-low : (k a x y : ℕ) → a ≡ shifted k x → y < shifted k 1 → bit_or y a ≡ y + a
bit_or-low k a x y e h = (λ i. bit_or-bitwise y a i) ∙ low_digits k y a x y (omega arith) e h

and_zero : (n a : ℕ) → digits (λ b. 0) min n a 0 ≡ 0
and_zero zero a = refl
and_zero (suc n) zero = refl
and_zero (suc n) (suc a) = omega (arith, and_zero n (suc a / 2))

and_digits :
    (k n a m x y : ℕ)
    → a ≤ n
    → a ≡ shifted k x + y
    → y < shifted k 1
    → m + 1 ≡ shifted k 1
    → digits (λ b. 0) min n a m ≡ y
and_digits zero n a zero x y l e h em = and_zero n a ∙ omega arith
and_digits zero n a (suc m) x y l e h em = absurd (omega arith)
and_digits (suc k) zero a m x y l e h em = omega arith
and_digits (suc k) (suc n) zero m x y l e h em = omega arith
and_digits (suc k) (suc n) (suc a) m x y l e h em = omega (
  arith,
  and_digits k n (suc a / 2) (m / 2) x (y / 2) (omega arith) (omega arith) (omega arith)
      (omega arith),
)

-- The mask `m` of the lowest `k` digits.
pub bit_and-shifted :
    (k a m x y : ℕ) → a ≡ shifted k x + y → y < shifted k 1 → m + 1 ≡ shifted k 1 → bit_and a m ≡ y
bit_and-shifted k a m x y e h em =
    (λ i. bit_and-bitwise a m i) ∙ and_digits k a a m x y (omega arith) e h em
