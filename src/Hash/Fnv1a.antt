-- ===== src/Hash/Fnv1a.antt =====
-- hash/fnv1a.c: the hash of Fowler, Noll and Vo, variant 1a, in both widths. A byte is a number.
use Prim.Native.Nat.{bit_xor}
use c_reusables.Prelude.{ℕ, ◌*◌, ◌%◌, ◌^◌, ◌≡◌, refl, List, [], ◌∷◌, ◌++◌}

-- `fnv1a_32`; the prime is `FNV1A_PRIME_32`.
unfoldable pub fnv1a_32 : ℕ → List ℕ → ℕ
fnv1a_32 fnv1a [] = fnv1a
fnv1a_32 fnv1a (byte ∷ bytes) = fnv1a_32 (bit_xor fnv1a byte * 16777619 % 2 ^ 32) bytes

-- `fnv1a_64`; the prime is `FNV1A_PRIME_64`.
unfoldable pub fnv1a_64 : ℕ → List ℕ → ℕ
fnv1a_64 fnv1a [] = fnv1a
fnv1a_64 fnv1a (byte ∷ bytes) = fnv1a_64 (bit_xor fnv1a byte * 1099511628211 % 2 ^ 64) bytes

-- The hash of data in two pieces is the hash of the second from the hash of the first on, in both
-- widths.
pub fnv1a-append :
    (fnv1a : ℕ) (xs ys : List ℕ)
    → (fnv1a_32 fnv1a (xs ++ ys) ≡ fnv1a_32 (fnv1a_32 fnv1a xs) ys)
      × (fnv1a_64 fnv1a (xs ++ ys) ≡ fnv1a_64 (fnv1a_64 fnv1a xs) ys)
unfolding fnv1a_32 fnv1a_64
fnv1a-append fnv1a xs ys = (low fnv1a xs ys, high fnv1a xs ys)
  where
    low : (h : ℕ) (xs ys : List ℕ) → fnv1a_32 h (xs ++ ys) ≡ fnv1a_32 (fnv1a_32 h xs) ys
    low h [] ys = refl
    low h (x ∷ xs) ys = low (bit_xor h x * 16777619 % 2 ^ 32) xs ys

    high : (h : ℕ) (xs ys : List ℕ) → fnv1a_64 h (xs ++ ys) ≡ fnv1a_64 (fnv1a_64 h xs) ys
    high h [] ys = refl
    high h (x ∷ xs) ys = high (bit_xor h x * 1099511628211 % 2 ^ 64) xs ys
