-- ===== src/Base64/Canonical.antt =====
-- encode/base64.c: what `base64_decode` accepts is the text of its answer.
use Prim.Native.Nat.{bit_or, bit_and}
use c_reusables.Prelude.{
  ℕ, ◌*◌, ◌/◌, ◌%◌, ◌^◌, ◌<◌, ◌≡◌, ◌≢◌, refl, sym, ◌∙◌, ap, ap₂, Bool, true, false, not, ◌&&◌, ◌||◌,
  inl, inr, List, [], ◌∷◌, ltb, ltb→lt, ◌==◌, ==_iff, if◌then◌else◌, set, length-set, get_or,
  get_or-set_self, get_or-set_ne, replicate, all_below, below_all, Bool-cases, arith,
}
use c_reusables.Base64.{
  Base64Options, base64_table_core, encode_table, encode_digit, fill_core, decode_table, last_char,
  Validity, valid, invalid_char, negative_index, validate, tail_passes,
}
use c_reusables.Base64.Loop.{decoded}
use c_reusables.Base64.Digits.{
  IsDialect, core_values, length-fill_core, encode_core, encode_digit_lem, join_two, join_three,
  join_four, join_bytes_two, join_bytes, low_byte,
}
use c_reusables.Base64.Groups.{body, tail_passes_step}

core_forth :
    all_below 128 (λ c.
      let k = get_or core_values c 0 in
      (k == 0xff) || (ltb k 62 && (get_or base64_table_core k 0 == c)))
    ≡ true
unfolding all_below core_values fill_core
core_forth = refl

value_63 : (o : Base64Options) → IsDialect o → get_or (decode_table o) o.ch63 0 ≡ 63
unfolding decode_table core_values
value_63 o d = get_or-set_self (set core_values o.ch62 62) o.ch63 63 0 (
    omega (
      arith,
      d.ch63_ascii,
      length-set core_values o.ch62 62,
      length-fill_core 0 base64_table_core (replicate 256 0xff),
    ))

value_62 : (o : Base64Options) → IsDialect o → get_or (decode_table o) o.ch62 0 ≡ 62
unfolding decode_table core_values
value_62 o d =
    get_or-set_ne (set core_values o.ch62 62) o.ch63 o.ch62 63 0 (λ e. d.different (sym e))
    ∙ get_or-set_self core_values o.ch62 62 0
        (omega (arith, d.ch62_ascii, length-fill_core 0 base64_table_core (replicate 256 0xff)))

value_core :
    (o : Base64Options) (c : ℕ)
    → c ≢ o.ch62
    → c ≢ o.ch63
    → get_or (decode_table o) c 0 ≡ get_or core_values c 0
unfolding decode_table core_values
value_core o c h k =
    get_or-set_ne (set core_values o.ch62 62) o.ch63 c 63 0 (λ e. k (sym e))
    ∙ get_or-set_ne core_values o.ch62 c 62 0 (λ e. h (sym e))

-- The character has the value `k`.
record HasValue (o : Base64Options) (c : ℕ) : Type 0 where
  k : ℕ
  value : get_or (decode_table o) c 0 ≡ k
  small : k < 64
  back : get_or (encode_table o) k 0 ≡ c

==_false : (a b : ℕ) → (a == b) ≡ false → a ≢ b
==_false a b e = ground arith

core_split :
    (k b c : ℕ) → ((k == 0xff) || (ltb k 62 && (b == c))) ≡ true → k ≢ 0xff → (k < 62) × (b ≡ c)
core_split k b c e h = ground arith

-- Each character that has a value is the one of that value.
table_forth :
    (o : Base64Options)
    → IsDialect o
    → (c : ℕ) → c < 128
    → get_or (decode_table o) c 0 ≢ 0xff
    → HasValue o c
table_forth o d c l h = elim (Bool-cases (c == o.ch63)) [
  | inl e ↦
      let q = (==_iff c o.ch63).0 e in
      record {
        k = 63;
        value = ap (λ c. get_or (decode_table o) c 0) q ∙ value_63 o d;
        small = omega arith;
        back = sym q;
      }
  | inr e ↦ elim (Bool-cases (c == o.ch62)) [
    | inl f ↦
        let q = (==_iff c o.ch62).0 f in
        record {
          k = 62;
          value = ap (λ c. get_or (decode_table o) c 0) q ∙ value_62 o d;
          small = omega arith;
          back = sym q;
        }
    | inr f ↦
        let v = value_core o c (==_false c o.ch62 f) (==_false c o.ch63 e) in
        let (small, same) =
          core_split (get_or core_values c 0) (get_or base64_table_core (get_or core_values c 0) 0)
            c
            (below_all 128
              (λ c.
                let k = get_or core_values c 0 in
                (k == 0xff) || (ltb k 62 && (get_or base64_table_core k 0 == c)))
              c core_forth l)
            (λ q. h (v ∙ q)) in
        record {
          k = get_or core_values c 0;
          value = v;
          small = omega (arith, small);
          back = encode_core o (get_or core_values c 0) small ∙ same;
        }
  ]
]

checks :
    (p q : Bool) (r : Validity)
    → (if p then (if q then invalid_char else r) else negative_index) ≡ valid
    → (p ≡ true) × (q ≡ false) × (r ≡ valid)
checks true true r e = absurd (ground (arith, e))
checks true false r e = (refl, refl, e)
checks false q r e = absurd (ground (arith, e))

-- A valid character is the digit of its value.
digit_forth :
    (o : Base64Options)
    → IsDialect o
    → (c : ℕ) (cs : List ℕ) → validate (decode_table o) (c ∷ cs) ≡ valid
    → (get_or (decode_table o) c 0 < 64)
      × ((v : ℕ) → v % 64 ≡ get_or (decode_table o) c 0 → encode_digit o v ≡ c)
      × (validate (decode_table o) cs ≡ valid)
unfolding validate
digit_forth o d c cs e =
    let (ascii, known, rest) =
      checks (ltb c 128) (get_or (decode_table o) c 0 == 0xff) (validate (decode_table o) cs) e in
    let f = table_forth o d c (ltb→lt c 128 ascii) (==_false _ 0xff known) in
    (
      rw (f.value) f.small,
      λ v q. encode_digit_lem o v ∙ ap (λ k. get_or (encode_table o) k 0) (q ∙ f.value) ∙ f.back,
      rest,
    )

mask_two_back : (k : ℕ) → k < 64 → (bit_and k 0x4f == 0) ≡ true → k % 16 ≡ 0
unfolding all_below
mask_two_back k l e =
    let t = below_all 64 (λ k. not (bit_and k 0x4f == 0) || (k % 16 == 0)) k refl l in
    ground (arith, t, e)

mask_three_back : (k : ℕ) → k < 64 → (bit_and k 0xc3 == 0) ≡ true → k % 4 ≡ 0
unfolding all_below
mask_three_back k l e =
    let t = below_all 64 (λ k. not (bit_and k 0xc3 == 0) || (k % 4 == 0)) k refl l in
    ground (arith, t, e)

tail_passes_rest :
    (table : List ℕ) (w x y z : ℕ) (cs : List ℕ)
    → tail_passes table (w ∷ x ∷ y ∷ z ∷ cs) ≡ true
    → tail_passes table cs ≡ true
unfolding tail_passes
tail_passes_rest table w x y z [] e = refl
tail_passes_rest table w x y z (c ∷ cs) e =
    sym (tail_passes_step table w x y z (c ∷ cs) (omega arith)) ∙ e

or_false : (b : Bool) → (b || false) ≡ true → b ≡ true
or_false true e = refl
or_false false e = e

-- What the test of the last character says for each number of left characters.
tail_one : (table : List ℕ) (c : ℕ) → tail_passes table (c ∷ []) ≡ true → ⊥
unfolding tail_passes
tail_one table c t = ground (arith, t)

tail_two :
    (table : List ℕ) (c d : ℕ)
    → tail_passes table (c ∷ d ∷ []) ≡ true
    → (bit_and (get_or table d 0) 0x4f == 0) ≡ true
unfolding tail_passes last_char
tail_two table c d t = or_false (bit_and (get_or table d 0) 0x4f == 0) t

tail_three :
    (table : List ℕ) (c d e : ℕ)
    → tail_passes table (c ∷ d ∷ e ∷ []) ≡ true
    → (bit_and (get_or table e 0) 0xc3 == 0) ≡ true
unfolding tail_passes last_char
tail_three table c d e t = t

-- The bytes that a value is taken apart into are joined to it again.
bytes_of :
    (w : ℕ)
    → w < 2 ^ 24
    → bit_or
        (bit_or (bit_and (w / 2 ^ 16) 0xff * 2 ^ 16) (bit_and (w / 2 ^ 8) 0xff * 2 ^ 8))
        (bit_and w 0xff)
      ≡ w
bytes_of w l =
    rw (low_byte (w / 2 ^ 16), low_byte (w / 2 ^ 8), low_byte w)
      (join_bytes (w / 2 ^ 16 % 256) (w / 2 ^ 8 % 256) (w % 256) (omega arith) (omega arith)
        ∙ omega arith)

bytes_of_two :
    (w : ℕ)
    → w < 2 ^ 24
    → w % 2 ^ 8 ≡ 0
    → bit_or (bit_and (w / 2 ^ 16) 0xff * 2 ^ 16) (bit_and (w / 2 ^ 8) 0xff * 2 ^ 8) ≡ w
bytes_of_two w l z =
    rw (low_byte (w / 2 ^ 16), low_byte (w / 2 ^ 8))
      (join_bytes_two (w / 2 ^ 16 % 256) (w / 2 ^ 8 % 256) (omega arith) ∙ omega arith)

bytes_of_one : (w : ℕ) → w < 2 ^ 24 → w % 2 ^ 16 ≡ 0 → bit_and (w / 2 ^ 16) 0xff * 2 ^ 16 ≡ w
bytes_of_one w l z = rw (low_byte (w / 2 ^ 16)) (omega arith)

-- Validated characters are the characters of the bytes that they are decoded as.
pub body-decoded :
    (o : Base64Options)
    → IsDialect o
    → (chars : List ℕ) → validate (decode_table o) chars ≡ valid
    → tail_passes (decode_table o) chars ≡ true
    → body o (decoded (decode_table o) chars) ≡ chars
unfolding body decoded
body-decoded o d [] v t = refl
body-decoded o d (c ∷ []) v t = absurd (tail_one (decode_table o) c t)
body-decoded o d (c1 ∷ c2 ∷ []) v t =
    let (l1, e1, v1) = digit_forth o d c1 (c2 ∷ []) v in
    let (l2, e2, v2) = digit_forth o d c2 [] v1 in
    let k1 = get_or (decode_table o) c1 0 in
    let k2 = get_or (decode_table o) c2 0 in
    let z = mask_two_back k2 l2 (tail_two (decode_table o) c1 c2 t) in
    let j = join_two k1 k2 l2 in
    let e =
      bytes_of_one (bit_or (k1 * 2 ^ 18) (k2 * 2 ^ 12)) (omega (arith, l1, l2, j))
        (omega (arith, l1, l2, j, z)) in
    ap₂ (λ x y. x ∷ y ∷ []) (e1 _ (omega (arith, l1, l2, j, e)))
      (e2 _ (omega (arith, l1, l2, j, e)))
body-decoded o d (c1 ∷ c2 ∷ c3 ∷ []) v t =
    let (l1, e1, v1) = digit_forth o d c1 (c2 ∷ c3 ∷ []) v in
    let (l2, e2, v2) = digit_forth o d c2 (c3 ∷ []) v1 in
    let (l3, e3, v3) = digit_forth o d c3 [] v2 in
    let k1 = get_or (decode_table o) c1 0 in
    let k2 = get_or (decode_table o) c2 0 in
    let k3 = get_or (decode_table o) c3 0 in
    let z = mask_three_back k3 l3 (tail_three (decode_table o) c1 c2 c3 t) in
    let j = join_three k1 k2 k3 l2 l3 in
    let e =
      bytes_of_two (bit_or (bit_or (k1 * 2 ^ 18) (k2 * 2 ^ 12)) (k3 * 2 ^ 6))
        (omega (arith, l1, l2, l3, j)) (omega (arith, l1, l2, l3, j, z)) in
    ap₂ (λ x (r : List ℕ). x ∷ r) (e1 _ (omega (arith, l1, l2, l3, j, e)))
      (ap₂ (λ x y. x ∷ y ∷ []) (e2 _ (omega (arith, l1, l2, l3, j, e)))
        (e3 _ (omega (arith, l1, l2, l3, j, e))))
body-decoded o d (c1 ∷ c2 ∷ c3 ∷ c4 ∷ cs) v t =
    let (l1, e1, v1) = digit_forth o d c1 (c2 ∷ c3 ∷ c4 ∷ cs) v in
    let (l2, e2, v2) = digit_forth o d c2 (c3 ∷ c4 ∷ cs) v1 in
    let (l3, e3, v3) = digit_forth o d c3 (c4 ∷ cs) v2 in
    let (l4, e4, v4) = digit_forth o d c4 cs v3 in
    let k1 = get_or (decode_table o) c1 0 in
    let k2 = get_or (decode_table o) c2 0 in
    let k3 = get_or (decode_table o) c3 0 in
    let k4 = get_or (decode_table o) c4 0 in
    let j = join_four k1 k2 k3 k4 l2 l3 l4 in
    let e =
      bytes_of (bit_or (bit_or (bit_or (k1 * 2 ^ 18) (k2 * 2 ^ 12)) (k3 * 2 ^ 6)) k4)
        (omega (arith, l1, l2, l3, l4, j)) in
    ap₂ (λ x (r : List ℕ). x ∷ r) (e1 _ (omega (arith, l1, l2, l3, l4, j, e)))
      (ap₂ (λ x (r : List ℕ). x ∷ r) (e2 _ (omega (arith, l1, l2, l3, l4, j, e)))
        (ap₂ (λ x (r : List ℕ). x ∷ r) (e3 _ (omega (arith, l1, l2, l3, l4, j, e)))
          (ap₂ (λ x (r : List ℕ). x ∷ r) (e4 _ (omega (arith, l1, l2, l3, l4, j, e)))
            (body-decoded o d cs v4 (tail_passes_rest (decode_table o) c1 c2 c3 c4 cs t)))))
