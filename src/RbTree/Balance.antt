-- ===== src/RbTree/Balance.antt =====
-- data/rbtree.c: the red-black rules, for whole trees and for paths.
use c_reusables.Prelude.{ℕ, suc, ◌≡◌, Option, some, [], ◌∷◌}
use c_reusables.RbTree.Tree.{Color, red, black, Tree, null, node, left_of, right_of, TreePath, plug}

-- A subtree by its root's colour and its black height, counted as `rbtree_verify_recurse` does.
pub data Rb {ℓ} {K : Type ℓ} : Color → ℕ → Tree K → Type ℓ where
  rb_null : Rb black 1 null
  rb_red : {h : ℕ} {l r : Tree K} {k : K} → Rb black h l → Rb black h r → Rb red h (node red l k r)
  rb_black :
      {c d : Color} {h : ℕ} {l r : Tree K} {k : K}
      → Rb c h l
      → Rb d h r
      → Rb black (suc h) (node black l k r)

-- A path below which a subtree of this black height fits; the colour is the parent's, and `red`
-- stands for the root too, since both ask for a black child.
pub data Above {ℓ} {K : Type ℓ} : Color → ℕ → TreePath K → Type ℓ where
  top : {h : ℕ} → Above red h []
  red_left :
      {h : ℕ} {k : K} {s : Tree K} {up : TreePath K}
      → Rb black h s
      → Above black h up
      → Above red h (left_of red k s ∷ up)
  red_right :
      {h : ℕ} {k : K} {s : Tree K} {up : TreePath K}
      → Rb black h s
      → Above black h up
      → Above red h (right_of red s k ∷ up)
  black_left :
      {c d : Color} {h : ℕ} {k : K} {s : Tree K} {up : TreePath K}
      → Rb c h s
      → Above d (suc h) up
      → Above black h (left_of black k s ∷ up)
  black_right :
      {c d : Color} {h : ℕ} {k : K} {s : Tree K} {up : TreePath K}
      → Rb c h s
      → Above d (suc h) up
      → Above black h (right_of black s k ∷ up)

module _ {ℓ} {K : Type ℓ} where
  -- The tree as a whole: a black root, no red child of a red node, one black height.
  abbrev pub IsRbTree : Tree K → Type ℓ
  IsRbTree t = (h : ℕ) × Rb black h t

  -- A function of the model that ends, without following `NULL`, in a red-black tree.
  abbrev pub Balances : Option (Tree K) → Type ℓ
  Balances o = (t : Tree K) × (o ≡ some t) × IsRbTree t

  -- A black subtree fits below any parent, and the path then closes to a red-black tree.
  pub plug-IsRbTree :
      {c : Color} {h : ℕ} {t : Tree K} (path : TreePath K)
      → Rb black h t
      → Above c h path
      → IsRbTree (plug t path)
  unfolding plug
  plug-IsRbTree _ r top = (_, r)
  plug-IsRbTree _ r (black_left s u) = plug-IsRbTree _ (rb_black r s) u
  plug-IsRbTree _ r (black_right s u) = plug-IsRbTree _ (rb_black s r) u
  plug-IsRbTree _ r (red_left s (black_left s' u)) = plug-IsRbTree _ (rb_black (rb_red r s) s') u
  plug-IsRbTree _ r (red_left s (black_right s' u)) = plug-IsRbTree _ (rb_black s' (rb_red r s)) u
  plug-IsRbTree _ r (red_right s (black_left s' u)) = plug-IsRbTree _ (rb_black (rb_red s r) s') u
  plug-IsRbTree _ r (red_right s (black_right s' u)) = plug-IsRbTree _ (rb_black s' (rb_red s r)) u

  -- Below a black parent a subtree of either colour fits.
  pub plug_black-IsRbTree :
      {c : Color} {h : ℕ} {t : Tree K} {path : TreePath K}
      → Rb c h t
      → Above black h path
      → IsRbTree (plug t path)
  unfolding plug
  plug_black-IsRbTree r (black_left s u) = plug-IsRbTree _ (rb_black r s) u
  plug_black-IsRbTree r (black_right s u) = plug-IsRbTree _ (rb_black s r) u
