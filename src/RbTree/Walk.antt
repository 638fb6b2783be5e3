-- ===== src/RbTree/Walk.antt =====
-- data/rbtree.c: where `rbtree_lookup_path` ends, by the red-black rules.
use Prim.Native.Nat.{Ordering}
use c_reusables.Prelude.{ℕ, ◌<◌, ◌≡◌, refl, ◌⊎◌, inl, inr, arith, []}
use c_reusables.RbTree.Tree.{Color, red, black, Tree, node, TreePath, Walk, hit, miss, lookup_path}
use c_reusables.RbTree.Balance.{
  Rb, rb_null, rb_red, rb_black, Above, top, red_left, red_right, black_left, black_right, IsRbTree,
}

pub Ordering-cases : (o : Ordering) → (o ≡ Ordering.lt) ⊎ ((o ≡ Ordering.eq) ⊎ (o ≡ Ordering.gt))
Ordering-cases Ordering.lt = inl refl
Ordering-cases Ordering.eq = inr (inl refl)
Ordering-cases Ordering.gt = inr (inr refl)

-- A subtree of this colour and black height fits at the end of the path.
pub data Fits {ℓ} {K : Type ℓ} : Color → ℕ → TreePath K → Type ℓ where
  fits_black : {d : Color} {h : ℕ} {path : TreePath K} → Above d h path → Fits black h path
  fits_red : {h : ℕ} {path : TreePath K} → Above black h path → Fits red h path

-- The walk ended at a node of a red-black tree, or where a subtree of black height 1 fits.
pub data IsWalked {ℓ} {K : Type ℓ} : Walk K → Type ℓ where
  walked_hit :
      {c : Color} {h : ℕ} {l r : Tree K} {k : K} {path : TreePath K}
      → Rb c h (node c l k r)
      → Fits c h path
      → IsWalked (hit c l k r path)
  walked_miss : {d : Color} {path : TreePath K} → Above d 1 path → IsWalked (miss path)

module _ {ℓ} {K : Type ℓ} where
  Fits-any : (c : Color) {h : ℕ} {path : TreePath K} → Above black h path → Fits c h path
  Fits-any red u = fits_red u
  Fits-any black u = fits_black u

  pub Rb-pos : {c : Color} {h : ℕ} {t : Tree K} → Rb c h t → 0 < h
  Rb-pos rb_null = omega arith
  Rb-pos (rb_red l r) = Rb-pos l
  Rb-pos (rb_black l r) = omega arith

module _ {ℓ} {K : Type ℓ} (cmp : K → K → Ordering) (key : K) where
  lookup_path-IsWalked :
      {c : Color} {h : ℕ} {t : Tree K} {path : TreePath K}
      → Rb c h t
      → Fits c h path
      → IsWalked (lookup_path cmp key t path)
  unfolding lookup_path
  lookup_path-IsWalked rb_null (fits_black u) = walked_miss u
  lookup_path-IsWalked (rb_red {k} l r) (fits_red u) = elim (Ordering-cases (cmp key k)) [
    | inl e ↦ rw (e, lookup_path) (lookup_path-IsWalked l (fits_black (red_left r u)))
    | inr (inl e) ↦ rw (e, lookup_path) (walked_hit (rb_red l r) (fits_red u))
    | inr (inr e) ↦ rw (e, lookup_path) (lookup_path-IsWalked r (fits_black (red_right l u)))
  ]
  lookup_path-IsWalked (rb_black {c} {d} {k} l r) (fits_black u) =
      elim (Ordering-cases (cmp key k)) [
        | inl e ↦ rw (e, lookup_path) (lookup_path-IsWalked l (Fits-any c (black_left r u)))
        | inr (inl e) ↦ rw (e, lookup_path) (walked_hit (rb_black l r) (fits_black u))
        | inr (inr e) ↦ rw (e, lookup_path) (lookup_path-IsWalked r (Fits-any d (black_right l u)))
      ]

  -- From the root of a red-black tree.
  pub root-IsWalked : {t : Tree K} → IsRbTree t → IsWalked (lookup_path cmp key t [])
  root-IsWalked (h, r) = lookup_path-IsWalked r (fits_black top)
