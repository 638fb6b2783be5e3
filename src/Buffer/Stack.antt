-- ===== src/Buffer/Stack.antt =====
-- data/buffer.h: the stack of bytes on top of a buffer.
use c_reusables.Prelude.{
  ◌+◌, ◌-◌, ◌^◌, ◌≤◌, ◌<◌, ◌≡◌, refl, sym, ◌∙◌, ap, ap₂, subst, Bool, true, Option, none, some,
  List, ◌++◌, append-nil, map, leb, if◌then◌else◌, length, take, drop, length-take, take-append_le,
  drop-append_ge, take-drop, take_all, drop_all, Status, ok, arith,
}
use c_reusables.Buffer.{wrap, Buffer, append, stack_push, stack_peek, stack_pop}
use c_reusables.Buffer.Growth.{wrap_back}
use c_reusables.Buffer.Valid.{IsValid, contents}
use c_reusables.Buffer.Insert.{IsInserted, Inserted, insert_inserts}
use c_reusables.Buffer.Remove.{remove_removes}

module _ {ℓ} {B : Type ℓ} where
  length-contents : (b : Buffer B) → IsValid b → length (contents b) ≡ b.size
  length-contents b v = omega (arith, length-take b.size b.cells, v.allocated, v.within)

  -- A valid buffer whose bytes are those of another, and then these.
  record IsAppended (xs : List B) (b b' : Buffer B) : Type ℓ where
    valid : IsValid b'
    size : b'.size ≡ b.size + length xs
    bytes : contents b' ≡ contents b ++ map some xs

  appended :
      (xs : List B) (b b' : Buffer B) → IsValid b → IsInserted b.size xs b b' → IsAppended xs b b'
  appended xs b b' v i = record {
    valid = i.valid;
    size = i.size;
    bytes =
        i.contents
        ∙ ap₂ (λ x y. x ++ (map some xs ++ y))
            (take_all b.size (contents b) (omega (arith, length-contents b v)))
            (drop_all b.size (contents b) (omega (arith, length-contents b v)))
        ∙ ap (λ t. contents b ++ t) (append-nil (map some xs));
  }

  Pushed : Bool → List B → Buffer B → Option (Status × Buffer B) → Type ℓ
  Pushed granted xs b none = Unit
  Pushed granted xs b (some (s, b')) = Inserted granted b.size xs b s b'

  pushed :
      (granted : Bool) (xs : List B) (b b' : Buffer B)
      → IsValid b
      → 0 < length xs
      → b.size + length xs ≤ 2 ^ 60
      → stack_push granted xs b ≡ some (ok, b')
      → IsAppended xs b b'
  unfolding stack_push append Pushed Inserted
  pushed granted xs b b' v pos small e =
      let a = insert_inserts granted b.size xs b v (omega arith) pos (omega arith) in
      appended xs b b' v (subst (λ o. Pushed granted xs b o) (sym a.answers ∙ e) a.right)

  base :
      (xs : List B) (b b' : Buffer B)
      → IsAppended xs b b'
      → b'.size < 2 ^ 64
      → wrap (b'.size + (2 ^ 64 - length xs)) ≡ b.size
  base xs b b' p small =
      wrap_back b'.size (length xs) (omega (arith, p.size)) small (omega (arith, p.size))
      ∙ omega (arith, p.size)

  peek_top :
      (xs : List B) (b b' : Buffer B)
      → IsValid b
      → IsAppended xs b b'
      → b'.size < 2 ^ 64
      → stack_peek (length xs) b' ≡ some (map some xs)
  unfolding stack_peek
  peek_top xs b b' v p small =
      let inside : leb (b.size + length xs) (length b'.cells) ≡ true =
        ground (arith, p.size, p.valid.allocated, p.valid.within) in
      rw (base xs b b' p small, inside, if◌then◌else◌)
        (ap some (
          take-drop (length xs) b.size b'.size b'.cells p.size
          ∙ ap (drop b.size) p.bytes
          ∙ drop-append_ge b.size (contents b) (map some xs) 0
              (omega (arith, length-contents b v))))

  -- After a successful push of at least one byte onto a valid stack of at most 2 ^ 60 bytes with them,
  -- a pop of as many bytes gives them, and the bytes are then those from before, whatever `realloc`
  -- answers to the pop.
  pub stack_pop-push :
      (granted granted' : Bool) (xs : List B) (b b' : Buffer B)
      → IsValid b
      → 0 < length xs
      → b.size + length xs ≤ 2 ^ 60
      → stack_push granted xs b ≡ some (ok, b')
      → (b'' : Buffer B) × (stack_pop granted' (length xs) b' ≡ some (map some xs, b''))
        × IsValid b''
        × (contents b'' ≡ contents b)
  unfolding stack_pop
  stack_pop-push granted granted' xs b b' v pos small e =
      let p = pushed granted xs b b' v pos small e in
      let r =
        remove_removes granted' b.size (length xs) b' p.valid (omega (arith, p.size))
          (omega (arith, p.size)) (omega arith) in
      rw
        (
          peek_top xs b b' v p (omega (arith, p.size)),
          base xs b b' p (omega (arith, p.size)),
          r.answers,
        )
        (r.after, refl, r.right.valid, r.right.contents ∙ left p)
    where
      left :
          IsAppended xs b b'
          → take b.size (contents b') ++ drop (b.size + length xs) (contents b') ≡ contents b
      left p =
          ap₂ (λ x y. x ++ y)
            (ap (take b.size) p.bytes
              ∙ take-append_le b.size (contents b) (map some xs)
                  (omega (arith, length-contents b v))
              ∙ take_all b.size (contents b) (omega (arith, length-contents b v)))
            (drop_all (b.size + length xs) (contents b')
              (omega (arith, length-contents b' p.valid, p.size)))
          ∙ append-nil (contents b)
