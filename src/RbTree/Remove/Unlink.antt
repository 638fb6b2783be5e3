-- ===== src/RbTree/Remove/Unlink.antt =====
-- data/rbtree.c: `rbtree_remove` under the red-black rules.
use Prim.Native.Nat.{Ordering}
use c_reusables.Prelude.{ℕ, suc, ◌≡◌, refl, [], ◌++◌, some, none, arith, Option}
use c_reusables.RbTree.Tree.{Color, red, black, Tree, node, TreePath, Walk, hit, miss, lookup_path}
use c_reusables.RbTree.Balance.{
  Rb, rb_null, rb_red, rb_black, Above, red_left, red_right, black_left, black_right, Balances,
  IsRbTree, plug_black-IsRbTree,
}
use c_reusables.RbTree.Walk.{Fits, fits_black, fits_red, IsWalked, walked_hit, root-IsWalked}
use c_reusables.RbTree.Remove.{Bottom, leftmost, swap_with_successor, unlink, remove}
use c_reusables.RbTree.Remove.Balance.{remove_fixup-Balances}

-- A node at the bottom with one child at most, of black height `h`, and a path that wants a node
-- of this colour over such a child.
data Hangs {ℓ} {K : Type ℓ} : Color → Tree K → TreePath K → Type ℓ where
  hangs_red :
      {h : ℕ} {child : Tree K} {path : TreePath K}
      → Rb black h child
      → Above black h path
      → Hangs red child path
  hangs_black :
      {c d : Color} {h : ℕ} {child : Tree K} {path : TreePath K}
      → Rb c h child
      → Above d (suc h) path
      → Hangs black child path

module _ {ℓ} {K : Type ℓ} where
  -- Without the node the path is closed again to a red-black tree.
  unlink-Balances :
      {c : Color} {child : Tree K} {path : TreePath K}
      → Hangs c child path
      → Balances (unlink (record { color = c; child = child; path = path }))
  unfolding unlink
  unlink-Balances (hangs_red r u) = (_, refl, plug_black-IsRbTree r u)
  unlink-Balances (hangs_black r u) = remove_fixup-Balances _ r u (omega arith)

  -- Going down to the leftmost node, with the rest of the path appended.
  leftmost-Hangs :
      {c : Color} {h : ℕ} {l r : Tree K} {k : K} (q rest : TreePath K)
      → Rb c h (node c l k r)
      → Fits c h (q ++ rest)
      → Hangs
          (leftmost c l k r q).color
          (leftmost c l k r q).right
          ((leftmost c l k r q).path ++ rest)
  unfolding leftmost
  leftmost-Hangs q rest (rb_red rb_null r) (fits_red u) = hangs_red r u
  leftmost-Hangs q rest (rb_red (rb_black x y) r) (fits_red u) =
      leftmost-Hangs _ rest (rb_black x y) (fits_black (red_left r u))
  leftmost-Hangs q rest (rb_black rb_null r) (fits_black u) = hangs_black r u
  leftmost-Hangs q rest (rb_black (rb_red x y) r) (fits_black u) =
      leftmost-Hangs _ rest (rb_red x y) (fits_red (black_left r u))
  leftmost-Hangs q rest (rb_black (rb_black x y) r) (fits_black u) =
      leftmost-Hangs _ rest (rb_black x y) (fits_black (black_left r u))

  -- After the exchange with the successor the node hangs at the bottom, and the rules hold as before.
  abbrev HangsThere : Bottom K → Type ℓ
  HangsThere b = Hangs b.color b.child b.path

  swap-Hangs :
      {c : Color} {h : ℕ} {l r : Tree K} {k : K} (path : TreePath K)
      → Rb c h (node c l k r)
      → Fits c h path
      → HangsThere (swap_with_successor c l r path)
  unfolding swap_with_successor
  swap-Hangs path (rb_red l rb_null) (fits_red u) = hangs_red l u
  swap-Hangs path (rb_red (rb_black a b) (rb_black rb_null z)) (fits_red u) =
      hangs_black z (red_right (rb_black a b) u)
  swap-Hangs path (rb_red l (rb_black (rb_red x y) z)) (fits_red u) =
      leftmost-Hangs [] _ (rb_black (rb_red x y) z) (fits_black (red_right l u))
  swap-Hangs path (rb_red l (rb_black (rb_black x y) z)) (fits_red u) =
      leftmost-Hangs [] _ (rb_black (rb_black x y) z) (fits_black (red_right l u))
  swap-Hangs path (rb_black l rb_null) (fits_black u) = hangs_black l u
  swap-Hangs path (rb_black rb_null (rb_red rb_null z)) (fits_black u) =
      hangs_black (rb_red rb_null z) u
  swap-Hangs path (rb_black (rb_red a b) (rb_red rb_null z)) (fits_black u) =
      hangs_red z (black_right (rb_red a b) u)
  swap-Hangs path (rb_black (rb_black a b) (rb_red rb_null z)) (fits_black u) =
      hangs_red z (black_right (rb_black a b) u)
  swap-Hangs path (rb_black l (rb_red (rb_black x y) z)) (fits_black u) =
      leftmost-Hangs [] _ (rb_red (rb_black x y) z) (fits_red (black_right l u))
  swap-Hangs path (rb_black (rb_red a b) (rb_black rb_null z)) (fits_black u) =
      hangs_black z (black_right (rb_red a b) u)
  swap-Hangs path (rb_black (rb_black a b) (rb_black rb_null z)) (fits_black u) =
      hangs_black z (black_right (rb_black a b) u)
  swap-Hangs path (rb_black l (rb_black (rb_red x y) z)) (fits_black u) =
      leftmost-Hangs [] _ (rb_black (rb_red x y) z) (fits_black (black_right l u))
  swap-Hangs path (rb_black l (rb_black (rb_black x y) z)) (fits_black u) =
      leftmost-Hangs [] _ (rb_black (rb_black x y) z) (fits_black (black_right l u))

  -- From a red-black tree `rbtree_remove` follows no `NULL`, ends, and leaves a red-black tree.
  pub remove-IsRbTree :
      (cmp : K → K → Ordering) (key : K) (t : Tree K)
      → IsRbTree t
      → (r : Option K × Tree K) × (remove cmp key t ≡ some r) × IsRbTree r.1
  unfolding remove
  remove-IsRbTree cmp key t h = go (lookup_path cmp key t []) refl (root-IsWalked cmp key h)
    where
      go :
          (w : Walk K)
          → lookup_path cmp key t [] ≡ w
          → IsWalked w
          → (r : Option K × Tree K) × (remove cmp key t ≡ some r) × IsRbTree r.1
      go (miss p) e w = ((none, t), rw (e, remove), h)
      go (hit c l k r p) e (walked_hit rt fits) =
          let (t', runs, good) = unlink-Balances (swap-Hangs p rt fits) in
          ((some k, t'), rw (e, remove, runs), good)
