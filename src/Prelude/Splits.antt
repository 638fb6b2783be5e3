-- ===== src/Prelude/Splits.antt =====
-- Prefixes and suffixes of lists, and memory as a list of cells.
use Prim.Native.Nat.{ℕ, zero, suc, ◌+◌, ◌-◌, ◌≤◌}
use mathlib.Core.Path.{◌≡◌, refl, sym, ap, ◌∙◌}
use mathlib.Core.List.{List, [], ◌∷◌, ◌++◌}
use mathlib.Core.Option.{Option, none, some}
use native.Mathlib.Omega.{arith}
use c_reusables.Prelude.Tests.{leb, if◌then◌else◌}
use c_reusables.Prelude.Lists.{length, take, drop, length-take}

module _ {ℓ} {A : Type ℓ} where
  pub take-append_le : (n : ℕ) (xs ys : List A) → n ≤ length xs → take n (xs ++ ys) ≡ take n xs
  take-append_le zero xs ys h = refl
  take-append_le (suc n) [] ys h = absurd (omega arith)
  take-append_le (suc n) (x ∷ xs) ys h = rw (take-append_le n xs ys (omega arith))

  pub take-append_ge :
      (n : ℕ) (xs ys : List A) (m : ℕ) → n ≡ length xs + m → take n (xs ++ ys) ≡ xs ++ take m ys
  take-append_ge n [] ys m h = ap (λ t. take t ys) (omega arith)
  take-append_ge zero (x ∷ xs) ys m h = absurd (omega arith)
  take-append_ge (suc n) (x ∷ xs) ys m h = rw (take-append_ge n xs ys m (omega arith))

  pub drop-append_ge :
      (n : ℕ) (xs ys : List A) (m : ℕ) → n ≡ length xs + m → drop n (xs ++ ys) ≡ drop m ys
  drop-append_ge n [] ys m h = ap (λ t. drop t ys) (omega arith)
  drop-append_ge zero (x ∷ xs) ys m h = absurd (omega arith)
  drop-append_ge (suc n) (x ∷ xs) ys m h = drop-append_ge n xs ys m (omega arith)

  pub take-take : (n m : ℕ) (xs : List A) → n ≤ m → take n (take m xs) ≡ take n xs
  take-take zero m xs h = refl
  take-take (suc n) zero xs h = absurd (omega arith)
  take-take (suc n) (suc m) [] h = refl
  take-take (suc n) (suc m) (x ∷ xs) h = rw (take-take n m xs (omega arith))

  pub take-drop : (n m k : ℕ) (xs : List A) → k ≡ m + n → take n (drop m xs) ≡ drop m (take k xs)
  take-drop n zero k xs h = ap (λ t. take t xs) (omega arith)
  take-drop n (suc m) zero xs h = absurd (omega arith)
  take-drop zero (suc m) (suc k) [] h = refl
  take-drop (suc n) (suc m) (suc k) [] h = refl
  take-drop n (suc m) (suc k) (x ∷ xs) h = take-drop n m k xs (omega arith)

  pub take_all : (n : ℕ) (xs : List A) → length xs ≤ n → take n xs ≡ xs
  take_all zero [] h = refl
  take_all zero (x ∷ xs) h = absurd (omega arith)
  take_all (suc n) [] h = refl
  take_all (suc n) (x ∷ xs) h = rw (take_all n xs (omega arith))

  pub drop_all : (n : ℕ) (xs : List A) → length xs ≤ n → drop n xs ≡ []
  drop_all zero [] h = refl
  drop_all zero (x ∷ xs) h = absurd (omega arith)
  drop_all (suc n) [] h = refl
  drop_all (suc n) (x ∷ xs) h = drop_all n xs (omega arith)

  -- A write of these cells from an offset on, if they fit into the block.
  unfoldable pub overlay : List A → ℕ → List A → Option (List A)
  overlay cells off xs =
      if leb (off + length xs) (length cells)
      then some (take off cells ++ (xs ++ drop (off + length xs) cells))
      else none

  -- `memmove`, if both ranges are in the block.
  unfoldable pub memmove : List A → ℕ → ℕ → ℕ → Option (List A)
  unfolding overlay
  memmove cells dst src n =
      if leb (src + n) (length cells) then overlay cells dst (take n (drop src cells)) else none

module _ {ℓ} {A : Type ℓ} where
  pub drop-drop : (n m k : ℕ) (xs : List A) → k ≡ m + n → drop n (drop m xs) ≡ drop k xs
  drop-drop n zero k xs h = ap (λ t. drop t xs) (omega arith)
  drop-drop n (suc m) zero xs h = absurd (omega arith)
  drop-drop zero (suc m) (suc k) [] h = refl
  drop-drop (suc n) (suc m) (suc k) [] h = refl
  drop-drop n (suc m) (suc k) (x ∷ xs) h = drop-drop n m k xs (omega arith)

  -- A piece of a list, `w` elements from an offset on.
  abbrev pub piece : ℕ → ℕ → List A → List A
  piece w off xs = take w (drop off xs)

  pub piece-take :
      (w off n : ℕ) (xs : List A) → off + w ≤ n → piece w off (take n xs) ≡ piece w off xs
  piece-take w off n xs h =
      take-drop w off (off + w) (take n xs) refl
      ∙ ap (drop off) (take-take (off + w) n xs h)
      ∙ sym (take-drop w off (off + w) xs refl)

  -- The pieces of a list with another list inserted in it.
  pub piece-before :
      (w off at : ℕ) (c xs : List A)
      → off + w ≤ at
      → at ≤ length c
      → piece w off (take at c ++ (xs ++ drop at c)) ≡ piece w off c
  piece-before w off at c xs h l =
      take-drop w off (off + w) (take at c ++ (xs ++ drop at c)) refl
      ∙ ap (drop off)
          (take-append_le (off + w) (take at c) (xs ++ drop at c) (omega (arith, length-take at c)))
      ∙ sym (take-drop w off (off + w) (take at c) refl)
      ∙ piece-take w off at c h

  pub piece_self :
      (at w : ℕ) (c xs : List A)
      → length xs ≡ w
      → at ≤ length c
      → piece w at (take at c ++ (xs ++ drop at c)) ≡ xs
  piece_self at w c xs e l =
      ap (take w)
        (drop-append_ge at (take at c) (xs ++ drop at c) 0 (omega (arith, length-take at c)))
      ∙ take-append_le w xs (drop at c) (omega arith)
      ∙ take_all w xs (omega arith)

  pub piece-after :
      (w off at n : ℕ) (c xs : List A)
      → length xs ≡ n
      → at ≤ off
      → at ≤ length c
      → piece w (off + n) (take at c ++ (xs ++ drop at c)) ≡ piece w off c
  piece-after w off at n c xs e h l = ap (take w) (
      drop-append_ge (off + n) (take at c) (xs ++ drop at c) (off + n - at)
        (omega (arith, length-take at c))
      ∙ drop-append_ge (off + n - at) xs (drop at c) (off - at) (omega arith)
      ∙ drop-drop (off - at) at off c (omega arith))
