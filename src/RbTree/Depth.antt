-- ===== src/RbTree/Depth.antt =====
-- data/rbtree.h: the fixed array of the path, against the depth of a red-black tree.
use Prim.Native.Nat.{Ordering, max}
use native.Mathlib.Nat.{pow-suc, pow-le-pow_right}
use c_reusables.Prelude.{
  ℕ, ◌+◌, ◌*◌, ◌^◌, ◌≤◌, ◌<◌, inl, inr, [], ◌∷◌, length, arith, Bool-cases, leb, leb→le,
}
use c_reusables.RbTree.Tree.{
  Color, red, black, Tree, null, node, left_of, right_of, TreePath, Walk, hit, miss, lookup_path,
}
use c_reusables.RbTree.Balance.{Rb, rb_null, rb_red, rb_black, IsRbTree}
use c_reusables.RbTree.Walk.{Ordering-cases}

-- `RBTREE_NODE* stack[2 * 8 * sizeof(void*)]` with pointers of 8 bytes.
abbrev pub stack_capacity : ℕ
stack_capacity = 2 * 8 * 8

-- A red root adds one node to the longest path.
abbrev allowance : Color → ℕ
allowance red = 1
allowance black = 0

allowance-le : (c : Color) → allowance c ≤ 1
allowance-le red = omega arith
allowance-le black = omega arith

black_height_bound : (h : ℕ) → 2 ^ h ≤ 2 ^ 61 → h ≤ 61
black_height_bound h le = elim (Bool-cases (leb h 61)) [
  | inl small ↦ leb→le h 61 small
  | inr big ↦
      let above : 62 ≤ h = ground arith in
      absurd (omega (arith, pow-le-pow_right {n = 2} (omega arith) above))
]

module _ {ℓ} {K : Type ℓ} where
  unfoldable pub size : Tree K → ℕ
  size null = 0
  size (node c l k r) = size l + size r + 1

  unfoldable pub depth : Tree K → ℕ
  depth null = 0
  depth (node c l k r) = max (depth l) (depth r) + 1

  -- The nodes that a walk has put on the path.
  unfoldable pub on_path : Walk K → ℕ
  on_path (hit c l k r path) = length path + 1
  on_path (miss path) = length path

  depth-le : {c : Color} {h : ℕ} {t : Tree K} → Rb c h t → depth t + 2 ≤ 2 * h + allowance c
  unfolding depth
  depth-le rb_null = omega arith
  depth-le (rb_red l r) = omega (arith, depth-le l, depth-le r)
  depth-le (rb_black {c} {d} l r) =
      omega (arith, depth-le l, depth-le r, allowance-le c, allowance-le d)

  pow-le-size : {c : Color} {h : ℕ} {t : Tree K} → Rb c h t → 2 ^ h ≤ 2 * size t + 2
  unfolding size
  pow-le-size rb_null = omega arith
  pow-le-size (rb_red l r) = omega (arith, pow-le-size l, pow-le-size r)
  pow-le-size (rb_black {h} l r) = omega (arith, pow-suc 2 h, pow-le-size l, pow-le-size r)

  depth_bound : (t : Tree K) → IsRbTree t → size t < 2 ^ 60 → depth t + 2 ≤ stack_capacity
  depth_bound t (h, r) small =
      omega (arith, depth-le r, black_height_bound h (omega (arith, pow-le-size r)))

  on_path-le :
      (cmp : K → K → Ordering) (key : K) (t : Tree K) (path : TreePath K)
      → on_path (lookup_path cmp key t path) ≤ length path + depth t
  unfolding lookup_path on_path depth
  on_path-le cmp key null path = omega arith
  on_path-le cmp key (node c l k r) path = elim (Ordering-cases (cmp key k)) [
    | inl e ↦ rw (e, lookup_path) (omega (arith, on_path-le cmp key l (left_of c k r ∷ path)))
    | inr (inl e) ↦ rw (e, lookup_path) (omega arith)
    | inr (inr e) ↦
        rw (e, lookup_path) (omega (arith, on_path-le cmp key r (right_of c l k ∷ path)))
  ]

  -- In a red-black tree with fewer than 2 ^ 60 nodes a walk from the root leaves room for two more
  -- nodes in the array of the path.
  pub walk_fits :
      (cmp : K → K → Ordering) (key : K) (t : Tree K)
      → IsRbTree t
      → size t < 2 ^ 60
      → on_path (lookup_path cmp key t []) + 2 ≤ stack_capacity
  walk_fits cmp key t good small = omega (arith, depth_bound t good small, on_path-le cmp key t [])
