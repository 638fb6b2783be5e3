-- ===== src/RbTree/Verify.antt =====
-- data/rbtree.c: `rbtree_verify`, the check that the tests run after each operation.
use c_reusables.Prelude.{
  ℕ, suc, ◌+◌, ◌≡◌, refl, ◌↔◌, Bool, true, false, ◌&&◌, inl, inr, Bool-cases, Option, some, none,
  Status, ok, failed, if◌then◌else◌, ◌==◌, ◌>>=◌, arith,
}
use c_reusables.RbTree.Tree.{Color, red, black, Tree, null, node, is_red}
use c_reusables.RbTree.Balance.{Rb, rb_null, rb_red, rb_black, IsRbTree}

-- 1 for a black node, which adds to the black height.
abbrev weight : Color → ℕ
weight red = 0
weight black = 1

abbrev is_red_color : Color → Bool
is_red_color red = true
is_red_color black = false

module _ {ℓ} {K : Type ℓ} where
  -- `rbtree_verify_recurse`: the black height, or `none` for -1.
  unfoldable pub verify_recurse : Tree K → Option ℕ
  verify_recurse null = some 1
  verify_recurse (node c l k r) =
      let left = verify_recurse l in
      let right = verify_recurse r in
      if is_red_color c && is_red l then none else do
        hl ← left
        if is_red_color c && is_red r
            then none
            else do hr ← right; if hl == hr then some (hl + weight c) else none

  -- `rbtree_verify`.
  unfoldable pub verify : Tree K → Status
  verify t = if is_red t then failed else elim (verify_recurse t) [ none ↦ failed | some _ ↦ ok ]

  root_color : Tree K → Color
  root_color null = black
  root_color (node c l k r) = c

  is_red-root_color : (t : Tree K) → is_red t ≡ is_red_color (root_color t)
  unfolding is_red root_color
  is_red-root_color null = refl
  is_red-root_color (node red l k r) = refl
  is_red-root_color (node black l k r) = refl

  black_root : (t : Tree K) → is_red t ≡ false → root_color t ≡ black
  unfolding is_red root_color
  black_root null e = refl
  black_root (node red l k r) e = cc
  black_root (node black l k r) e = refl

  verify_recurse_complete :
      {c : Color} {h : ℕ} {t : Tree K}
      → Rb c h t
      → (verify_recurse t ≡ some h) × (is_red t ≡ is_red_color c)
  unfolding verify_recurse is_red
  verify_recurse_complete rb_null = (refl, refl)
  verify_recurse_complete (rb_red l r) =
      let (a, b) = verify_recurse_complete l in
      let (c, d) = verify_recurse_complete r in ground arith
  verify_recurse_complete (rb_black l r) =
      let (a, b) = verify_recurse_complete l in
      let (c, d) = verify_recurse_complete r in ground arith

  -- What a node's check tells of its children.
  verify-node :
      (c : Color) (l r : Tree K) (k : K) (h : ℕ)
      → verify_recurse (node c l k r) ≡ some h
      → (g : ℕ) × (verify_recurse l ≡ some g)
        × (verify_recurse r ≡ some g)
        × (h ≡ g + weight c)
        × ((is_red_color c && is_red l) ≡ false)
        × ((is_red_color c && is_red r) ≡ false)
  unfolding verify_recurse
  verify-node c l r k h e = ground arith

  verify_recurse_sound : (t : Tree K) (h : ℕ) → verify_recurse t ≡ some h → Rb (root_color t) h t
  unfolding root_color
  verify_recurse_sound null h e =
      let one : h ≡ 1 = unfold verify_recurse in ground arith in rw one rb_null
  verify_recurse_sound (node red l k r) h e =
      let (g, el, er, eh, rl, rr) = verify-node red l r k h e in
      let same : h ≡ g = omega arith in
      rw same (
        rb_red (rw (black_root l rl) at (verify_recurse_sound l g el))
          (rw (black_root r rr) at (verify_recurse_sound r g er)))
  verify_recurse_sound (node black l k r) h e =
      let (g, el, er, eh, rl, rr) = verify-node black l r k h e in
      let more : h ≡ suc g = omega arith in
      rw more (rb_black (verify_recurse_sound l g el) (verify_recurse_sound r g er))

  verify-ok :
      (t : Tree K) → verify t ≡ ok → (is_red t ≡ false) × ((h : ℕ) × (verify_recurse t ≡ some h))
  unfolding verify
  verify-ok t e = elim (Bool-cases (is_red t)) [
    | inl a ↦ absurd (ground (arith, a))
    | inr a ↦ (a, ground arith)
  ]

  -- `rbtree_verify` returns 0 exactly on the trees that keep the red-black rules.
  pub verify_iff : (t : Tree K) → (verify t ≡ ok) ↔ IsRbTree t
  unfolding verify
  verify_iff t = (
    λ e.
        let (a, b) = verify-ok t e in
        (b.0, rw (black_root t a) at (verify_recurse_sound t b.0 b.1)),
    λ (h, r). let (a, b) = verify_recurse_complete r in rw (b, a),
  )
