-- ===== src/LinkedList/Chain.antt =====
-- data/list.h: a chain of nodes through one field.
use c_reusables.Prelude.{
  ℕ, zero, suc, ◌≡◌, ◌≢◌, ◌≤◌, ◌+◌, refl, sym, ◌∙◌, ap, true, false, ◌↔◌, List, [], ◌∷◌, ◌++◌,
  reverse, reverse-append, append_assoc, append-nil, length, All, All-append, ◌==◌, ==_iff, arith,
}
use mathlib.Core.List.{reverse-cons, reverse-reverse}
use c_reusables.LinkedList.{update, walk_my_list}

-- From `a` the field leads through `xs` to `b`.
abbrev pub Chain : (ℕ → ℕ) → ℕ → List ℕ → ℕ → Type 0
Chain f a [] b = f a ≡ b
Chain f a (x ∷ xs) b = (f a ≡ x) × Chain f x xs b

abbrev pub Avoids : ℕ → List ℕ → Type 0
Avoids x xs = All (λ y. x ≢ y) xs

abbrev pub Distinct : List ℕ → Type 0
Distinct [] = Unit
Distinct (x ∷ xs) = Avoids x xs × Distinct xs

abbrev pub last_of : ℕ → List ℕ → ℕ
last_of a [] = a
last_of a (x ∷ xs) = last_of x xs

abbrev pub first_of : List ℕ → ℕ → ℕ
first_of [] b = b
first_of (x ∷ xs) b = x

pub update_self : (f : ℕ → ℕ) (at v : ℕ) → update f at v at ≡ v
update_self f at v = ground arith

pub update_ne : (f : ℕ → ℕ) (at v q : ℕ) → at ≢ q → update f at v q ≡ f q
update_ne f at v q h = ground arith

-- A write to a node that the chain does not pass through.
pub Chain-update :
    (f : ℕ → ℕ) (at v a : ℕ) (xs : List ℕ) (b : ℕ)
    → Avoids at (a ∷ xs)
    → Chain f a xs b
    → Chain (update f at v) a xs b
Chain-update f at v a [] b (h, _) c = update_ne f at v a h ∙ c
Chain-update f at v a (x ∷ xs) b (h, hs) (c, cs) =
    (update_ne f at v a h ∙ c, Chain-update f at v x xs b hs cs)

pub Avoids-last : (a x : ℕ) (xs ys : List ℕ) → Avoids a (x ∷ (xs ++ ys)) → a ≢ last_of x xs
Avoids-last a x [] ys h = h.0
Avoids-last a x (y ∷ xs) ys h = Avoids-last a y xs ys h.1

pub Avoids-parts : (x : ℕ) (xs ys : List ℕ) → Avoids x (xs ++ ys) → Avoids x xs × Avoids x ys
Avoids-parts x [] ys h = (tt, h)
Avoids-parts x (y ∷ xs) ys h = let (a, b) = Avoids-parts x xs ys h.1 in ((h.0, a), b)

pub Avoids-first : (a b : ℕ) (xs ys : List ℕ) → Avoids a (b ∷ (xs ++ ys)) → a ≢ first_of ys b
Avoids-first a b xs [] h = h.0
Avoids-first a b xs (y ∷ ys) h = let (_, k) = Avoids-parts a xs (y ∷ ys) h.1 in k.0

pub Chain-first :
    (f : ℕ → ℕ) (a : ℕ) (xs ys : List ℕ) (b : ℕ)
    → Chain f a (xs ++ ys) b
    → f (last_of a xs) ≡ first_of ys b
Chain-first f a [] [] b c = c
Chain-first f a [] (y ∷ ys) b c = c.0
Chain-first f a (x ∷ xs) ys b c = Chain-first f x xs ys b c.1

-- A node of a chain leads to the one behind it.
pub Chain-next :
    (f : ℕ → ℕ) (a : ℕ) (xs : List ℕ) (node : ℕ) (ys : List ℕ) (b : ℕ)
    → Chain f a (xs ++ (node ∷ ys)) b
    → f node ≡ first_of ys b
Chain-next f a [] node ys b c = Chain-first f node [] ys b c.1
Chain-next f a (x ∷ xs) node ys b c = Chain-next f x xs node ys b c.1

-- A fresh node is linked in behind the first part of a chain.
pub Chain-insert :
    (f : ℕ → ℕ) (a : ℕ) (xs ys : List ℕ) (b node : ℕ)
    → Chain f a (xs ++ ys) b
    → Distinct (a ∷ (xs ++ ys))
    → Avoids node (a ∷ (xs ++ ys))
    → Chain (update (update f node (f (last_of a xs))) (last_of a xs) node) a (xs ++ (node ∷ ys)) b
Chain-insert f a [] ys b node c d h = (update_self (update f node (f a)) a node, after ys c d.0 h)
  where
    g : ℕ → ℕ
    g = update (update f node (f a)) a node

    after : (ys : List ℕ) → Chain f a ys b → Avoids a ys → Avoids node (a ∷ ys) → Chain g node ys b
    after [] c k h =
        update_ne (update f node (f a)) a node node (λ e. h.0 (sym e))
        ∙ update_self f node (f a)
        ∙ c
    after (y ∷ ys) c k h = (
      update_ne (update f node (f a)) a node node (λ e. h.0 (sym e))
          ∙ update_self f node (f a)
          ∙ c.0,
      Chain-update (update f node (f a)) a node y ys b k (Chain-update f node (f a) y ys b h.1 c.1),
    )
Chain-insert f a (x ∷ xs) ys b node c d h = (
  update_ne (update f node (f (last_of x xs))) (last_of x xs) node a
        (λ e. Avoids-last a x xs ys d.0 (sym e))
      ∙ update_ne f node (f (last_of x xs)) a (h.0)
      ∙ c.0,
  Chain-insert f x xs ys b node c.1 d.1 h.1,
)

-- A node is taken out behind the first part of a chain.
pub Chain-remove :
    (f : ℕ → ℕ) (a : ℕ) (xs : List ℕ) (node : ℕ) (ys : List ℕ) (b : ℕ)
    → Chain f a (xs ++ (node ∷ ys)) b
    → Distinct (a ∷ (xs ++ (node ∷ ys)))
    → Chain (update f (last_of a xs) (f node)) a (xs ++ ys) b
Chain-remove f a [] node [] b c d = update_self f a (f node) ∙ c.1
Chain-remove f a [] node (y ∷ ys) b c d =
    (update_self f a (f node) ∙ c.1.0, Chain-update f a (f node) y ys b d.0.1 c.1.1)
Chain-remove f a (x ∷ xs) node ys b c d = (
  update_ne f (last_of x xs) (f node) a (λ e. Avoids-last a x xs (node ∷ ys) d.0 (sym e)) ∙ c.0,
  Chain-remove f x xs node ys b c.1 d.1,
)

-- Distinct nodes, in parts and reversed.
pub Avoids-reverse : (x : ℕ) (xs : List ℕ) → Avoids x xs → Avoids x (reverse xs)
Avoids-reverse x [] h = tt
Avoids-reverse x (y ∷ xs) h =
    rw (reverse-cons y xs)
      (All-append (λ z. x ≢ z) (reverse xs) (y ∷ []) (Avoids-reverse x xs h.1) (h.0, tt))

Distinct-snoc : (xs : List ℕ) (y : ℕ) → Distinct xs → Avoids y xs → Distinct (xs ++ (y ∷ []))
Distinct-snoc [] y d h = (tt, tt)
Distinct-snoc (x ∷ xs) y d h =
    (All-append (λ z. x ≢ z) xs (y ∷ []) d.0 ((λ e. h.0 (sym e)), tt), Distinct-snoc xs y d.1 h.1)

pub Distinct-reverse : (xs : List ℕ) → Distinct xs → Distinct (reverse xs)
Distinct-reverse [] d = tt
Distinct-reverse (x ∷ xs) d =
    rw (reverse-cons x xs)
      (Distinct-snoc (reverse xs) x (Distinct-reverse xs d.1) (Avoids-reverse x xs d.0))

pub Distinct-insert :
    (xs ys : List ℕ) (node : ℕ)
    → Distinct (xs ++ ys)
    → Avoids node (xs ++ ys)
    → Distinct (xs ++ (node ∷ ys))
Distinct-insert [] ys node d h = (h, d)
Distinct-insert (x ∷ xs) ys node d h =
    let (a, b) = Avoids-parts x xs ys d.0 in
    (
      All-append (λ z. x ≢ z) xs (node ∷ ys) a ((λ e. h.0 (sym e)), b),
      Distinct-insert xs ys node d.1 h.1,
    )

pub Distinct-remove :
    (xs : List ℕ) (node : ℕ) (ys : List ℕ) → Distinct (xs ++ (node ∷ ys)) → Distinct (xs ++ ys)
Distinct-remove [] node ys d = d.1
Distinct-remove (x ∷ xs) node ys d =
    let (a, b) = Avoids-parts x xs (node ∷ ys) d.0 in
    (All-append (λ z. x ≢ z) xs ys a b.1, Distinct-remove xs node ys d.1)

pub last_of-snoc : (a : ℕ) (xs : List ℕ) (x : ℕ) → last_of a (xs ++ (x ∷ [])) ≡ x
last_of-snoc a [] x = refl
last_of-snoc a (y ∷ xs) x = last_of-snoc y xs x

-- The first of a list is the last of its reverse.
pub last_of-reverse : (b : ℕ) (xs : List ℕ) → last_of b (reverse xs) ≡ first_of xs b
last_of-reverse b [] = refl
last_of-reverse b (x ∷ xs) = rw (reverse-cons x xs) (last_of-snoc b (reverse xs) x)

pub last_of-append : (a : ℕ) (xs ys : List ℕ) → last_of a (xs ++ ys) ≡ last_of (last_of a xs) ys
last_of-append a [] ys = refl
last_of-append a (x ∷ xs) ys = last_of-append x xs ys

pub first_of-reverse : (b : ℕ) (xs : List ℕ) → first_of (reverse xs) b ≡ last_of b xs
first_of-reverse b xs = sym (last_of-reverse b (reverse xs)) ∙ ap (last_of b) (reverse-reverse xs)

pub reverse_around :
    (xs : List ℕ) (node : ℕ) (ys : List ℕ)
    → reverse (xs ++ (node ∷ ys)) ≡ reverse ys ++ (node ∷ reverse xs)
reverse_around xs node ys =
    reverse-append xs (node ∷ ys)
    ∙ ap (λ zs. zs ++ reverse xs) (reverse-cons node ys)
    ∙ append_assoc (reverse ys) (node ∷ []) (reverse xs)

-- The loop over a chain that ends at the list, whose nodes are none of it, visits its nodes in turn.
pub walk-Chain :
    (fuel : ℕ) (f : ℕ → ℕ) (list a : ℕ) (xs : List ℕ)
    → Chain f a xs list
    → Avoids list xs
    → length xs + 1 ≤ fuel
    → walk_my_list fuel f list (f a) ≡ xs
unfolding walk_my_list
walk-Chain zero f list a xs c h enough = absurd (omega arith)
walk-Chain (suc k) f list a [] c h enough = ground arith
walk-Chain (suc k) f list a (x ∷ xs) c h enough = rw (c.0) (
    let other : (x == list) ≡ false = ground (arith, h.0) in
    rw other (ap (λ ys. x ∷ ys) (walk-Chain k f list x xs c.1 h.1 (omega arith))))

-- A chain from the list back to it is empty exactly if it starts at its end.
pub empty-Chain :
    (f : ℕ → ℕ) (list : ℕ) (xs : List ℕ)
    → Chain f list xs list
    → Avoids list xs
    → ((f list == list) ≡ true) ↔ (xs ≡ [])
empty-Chain f list [] c h = (λ _. refl, λ _. (==_iff (f list) list).1 c)
empty-Chain f list (x ∷ xs) c h =
    (λ e. absurd (h.0 (sym ((==_iff (f list) list).0 e) ∙ c.0)), λ e. absurd (ground (arith, e)))

-- The ends of the two parts of a chain differ.
pub last_of_ne :
    (a : ℕ) (xs : List ℕ) (y : ℕ) (ys : List ℕ)
    → Distinct (a ∷ (xs ++ (y ∷ ys)))
    → last_of a xs ≢ last_of y ys
last_of_ne a [] y ys d = Avoids-last a y ys [] (rw (append-nil ys) d.0)
last_of_ne a (x ∷ xs) y ys d = last_of_ne x xs y ys d.1
