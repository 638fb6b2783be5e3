-- ===== src/Base64/Groups.antt =====
-- encode/base64.c: the characters of a text without padding, group by group.
use Prim.Native.Nat.{bit_or, bit_and}
use c_reusables.Prelude.{
  ℕ, suc, ◌+◌, ◌-◌, ◌*◌, ◌/◌, ◌%◌, ◌^◌, ◌<◌, ◌≡◌, ◌≢◌, refl, sym, ◌∙◌, ap, ap₂, true, false, List,
  [], ◌∷◌, ◌++◌, ltb, ◌==◌, ==_iff, if◌then◌else◌, length, get_or, All, all_below, below_all, arith,
}
use c_reusables.Base64.{
  Base64Options, encode_digit, encode_loop, padding, decode_table, last_char, valid, validate,
  tail_passes,
}
use c_reusables.Base64.Loop.{decoded}
use c_reusables.Base64.Digits.{
  IsDialect, encode_digit_back, encode_digit_ascii, encode_digit_ne, join_two, join_three,
  join_four, join_bytes_two, join_bytes, low_byte,
}

-- The characters without the padding.
unfoldable pub body : Base64Options → List ℕ → List ℕ
body o [] = []
body o (a ∷ []) =
    let v = a * 2 ^ 16 in encode_digit o (v / 2 ^ 18) ∷ encode_digit o (v / 2 ^ 12) ∷ []
body o (a ∷ b ∷ []) =
    let v = bit_or (a * 2 ^ 16) (b * 2 ^ 8) in
    encode_digit o (v / 2 ^ 18) ∷ encode_digit o (v / 2 ^ 12) ∷ encode_digit o (v / 2 ^ 6) ∷ []
body o (a ∷ b ∷ c ∷ bytes) =
    let v = bit_or (bit_or (a * 2 ^ 16) (b * 2 ^ 8)) c in
    encode_digit o (v / 2 ^ 18)
    ∷ encode_digit o (v / 2 ^ 12)
    ∷ encode_digit o (v / 2 ^ 6)
    ∷ encode_digit o v
    ∷ body o bytes

-- The padding of a text of so many bytes.
abbrev pub pads : ℕ → ℕ
pads n = if n % 3 == 0 then 0 else 3 - n % 3

digit_same :
    (o : Base64Options) (p v : ℕ) → encode_digit (record o { pad = p }) v ≡ encode_digit o v
unfolding encode_digit
digit_same o p v = refl

pads_step : (n : ℕ) → pads (suc (suc (suc n))) ≡ pads n
pads_step n = ground arith

no_pads : (o : Base64Options) → padding o 0 ≡ []
unfolding padding
no_pads o = ground arith

-- The padding is all that its option changes.
pub encode_loop-body :
    (o : Base64Options) (p : ℕ) (bytes : List ℕ)
    → encode_loop (record o { pad = p }) bytes
      ≡ body o bytes ++ padding (record o { pad = p }) (pads (length bytes))
unfolding encode_loop body encode_digit
encode_loop-body o p [] = sym (no_pads (record o { pad = p }))
encode_loop-body o p (a ∷ []) = refl
encode_loop-body o p (a ∷ b ∷ []) = refl
encode_loop-body o p (a ∷ b ∷ c ∷ bytes) =
    let v = bit_or (bit_or (a * 2 ^ 16) (b * 2 ^ 8)) c in
    ap
      (λ cs.
        encode_digit o (v / 2 ^ 18)
        ∷ encode_digit o (v / 2 ^ 12)
        ∷ encode_digit o (v / 2 ^ 6)
        ∷ encode_digit o v
        ∷ cs)
      (rw (pads_step (length bytes)) (encode_loop-body o p bytes))

pub length-body :
    (o : Base64Options) (bytes : List ℕ) → length (body o bytes) ≡ (length bytes * 4 + 2) / 3
unfolding body
length-body o [] = refl
length-body o (a ∷ []) = refl
length-body o (a ∷ b ∷ []) = refl
length-body o (a ∷ b ∷ c ∷ bytes) = omega (arith, length-body o bytes)

-- The value of a decoded group.
group_value :
    (o : Base64Options)
    → IsDialect o
    → (v : ℕ) → v < 2 ^ 24
    → bit_or
        (bit_or
          (bit_or
            (get_or (decode_table o) (encode_digit o (v / 2 ^ 18)) 0 * 2 ^ 18)
            (get_or (decode_table o) (encode_digit o (v / 2 ^ 12)) 0 * 2 ^ 12))
          (get_or (decode_table o) (encode_digit o (v / 2 ^ 6)) 0 * 2 ^ 6))
        (get_or (decode_table o) (encode_digit o v) 0)
      ≡ v
group_value o d v h =
    rw
      (
        encode_digit_back o d (v / 2 ^ 18),
        encode_digit_back o d (v / 2 ^ 12),
        encode_digit_back o d (v / 2 ^ 6),
        encode_digit_back o d v,
      )
      (join_four (v / 2 ^ 18 % 64) (v / 2 ^ 12 % 64) (v / 2 ^ 6 % 64) (v % 64) (omega arith)
          (omega arith) (omega arith)
        ∙ omega arith)

group_value_three :
    (o : Base64Options)
    → IsDialect o
    → (v : ℕ) → v < 2 ^ 24
    → v % 2 ^ 6 ≡ 0
    → bit_or
        (bit_or
          (get_or (decode_table o) (encode_digit o (v / 2 ^ 18)) 0 * 2 ^ 18)
          (get_or (decode_table o) (encode_digit o (v / 2 ^ 12)) 0 * 2 ^ 12))
        (get_or (decode_table o) (encode_digit o (v / 2 ^ 6)) 0 * 2 ^ 6)
      ≡ v
group_value_three o d v h z =
    rw
      (
        encode_digit_back o d (v / 2 ^ 18),
        encode_digit_back o d (v / 2 ^ 12),
        encode_digit_back o d (v / 2 ^ 6),
      )
      (join_three (v / 2 ^ 18 % 64) (v / 2 ^ 12 % 64) (v / 2 ^ 6 % 64) (omega arith) (omega arith)
        ∙ omega arith)

group_value_two :
    (o : Base64Options)
    → IsDialect o
    → (v : ℕ) → v < 2 ^ 24
    → v % 2 ^ 12 ≡ 0
    → bit_or
        (get_or (decode_table o) (encode_digit o (v / 2 ^ 18)) 0 * 2 ^ 18)
        (get_or (decode_table o) (encode_digit o (v / 2 ^ 12)) 0 * 2 ^ 12)
      ≡ v
group_value_two o d v h z =
    rw (encode_digit_back o d (v / 2 ^ 18), encode_digit_back o d (v / 2 ^ 12))
      (join_two (v / 2 ^ 18 % 64) (v / 2 ^ 12 % 64) (omega arith) ∙ omega arith)

-- A byte of a group
byte_of : (w v x : ℕ) → w ≡ v → v % 256 ≡ x → bit_and w 0xff ≡ x
byte_of w v x e k = ap (λ w. bit_and w 0xff) e ∙ low_byte v ∙ k

-- The text is decoded as the bytes.
pub decoded-body :
    (o : Base64Options)
    → IsDialect o
    → (bytes : List ℕ) → All (λ b. b < 256) bytes
    → decoded (decode_table o) (body o bytes) ≡ bytes
unfolding decoded body
decoded-body o d [] h = refl
decoded-body o d (a ∷ []) h =
    let v = a * 2 ^ 16 in
    let e = group_value_two o d v (omega (arith, h.0)) (omega arith) in
    ap (λ x. x ∷ []) (byte_of _ (v / 2 ^ 16) a (ap (λ w. w / 2 ^ 16) e) (omega (arith, h.0)))
decoded-body o d (a ∷ b ∷ []) h =
    let v = bit_or (a * 2 ^ 16) (b * 2 ^ 8) in
    let j = join_bytes_two a b h.1.0 in
    let e = group_value_three o d v (omega (arith, h.0, h.1.0, j)) (omega (arith, j)) in
    ap₂ (λ x y. x ∷ y ∷ [])
      (byte_of _ (v / 2 ^ 16) a (ap (λ w. w / 2 ^ 16) e) (omega (arith, h.0, h.1.0, j)))
      (byte_of _ (v / 2 ^ 8) b (ap (λ w. w / 2 ^ 8) e) (omega (arith, h.0, h.1.0, j)))
decoded-body o d (a ∷ b ∷ c ∷ bytes) h =
    let v = bit_or (bit_or (a * 2 ^ 16) (b * 2 ^ 8)) c in
    let j = join_bytes a b c h.1.0 h.1.1.0 in
    let e = group_value o d v (omega (arith, h.0, h.1.0, h.1.1.0, j)) in
    ap₂ (λ x (r : List ℕ). x ∷ r)
      (byte_of _ (v / 2 ^ 16) a (ap (λ w. w / 2 ^ 16) e) (omega (arith, h.0, h.1.0, h.1.1.0, j)))
      (ap₂ (λ x (r : List ℕ). x ∷ r)
        (byte_of _ (v / 2 ^ 8) b (ap (λ w. w / 2 ^ 8) e) (omega (arith, h.0, h.1.0, h.1.1.0, j)))
        (ap₂ (λ x (r : List ℕ). x ∷ r) (byte_of _ v c e (omega (arith, h.0, h.1.0, h.1.1.0, j)))
          (decoded-body o d bytes h.1.1.1)))

valid_digit :
    (o : Base64Options)
    → IsDialect o
    → (v : ℕ) (cs : List ℕ) → validate (decode_table o) cs ≡ valid
    → validate (decode_table o) (encode_digit o v ∷ cs) ≡ valid
unfolding validate
valid_digit o d v cs e =
    let ascii : ltb (encode_digit o v) 128 ≡ true = ground (arith, encode_digit_ascii o d v) in
    let known : (get_or (decode_table o) (encode_digit o v) 0 == 0xff) ≡ false =
      rw (encode_digit_back o d v) (ground arith) in
    rw (ascii, if◌then◌else◌) (rw (known, if◌then◌else◌) e)

validate_empty : (table : List ℕ) → validate table [] ≡ valid
unfolding validate
validate_empty table = refl

pub validate-body :
    (o : Base64Options)
    → IsDialect o
    → (bytes : List ℕ) → validate (decode_table o) (body o bytes) ≡ valid
unfolding body
validate-body o d [] = validate_empty (decode_table o)
validate-body o d (a ∷ []) =
    valid_digit o d _ _ (valid_digit o d _ _ (validate_empty (decode_table o)))
validate-body o d (a ∷ b ∷ []) =
    valid_digit o d _ _
      (valid_digit o d _ _ (valid_digit o d _ _ (validate_empty (decode_table o))))
validate-body o d (a ∷ b ∷ c ∷ bytes) =
    valid_digit o d _ _
      (valid_digit o d _ _ (valid_digit o d _ _ (valid_digit o d _ _ (validate-body o d bytes))))

last_char_step :
    (w x y z : ℕ) (cs : List ℕ) → 0 < length cs → last_char (w ∷ x ∷ y ∷ z ∷ cs) ≡ last_char cs
unfolding last_char
last_char_step w x y z [] l = absurd (omega arith)
last_char_step w x y z (c ∷ cs) l = refl

pub tail_passes_step :
    (table : List ℕ) (w x y z : ℕ) (cs : List ℕ)
    → 0 < length cs
    → tail_passes table (w ∷ x ∷ y ∷ z ∷ cs) ≡ tail_passes table cs
unfolding tail_passes
tail_passes_step table w x y z cs l =
    let e : (length (w ∷ x ∷ y ∷ z ∷ cs) % 4) ≡ (length cs % 4) = omega arith in
    rw (e, last_char_step w x y z cs l) refl

-- Multiples of 16 and of 4 pass the masks.
mask_two : (k : ℕ) → k < 4 → bit_and (k * 16) 0x4f ≡ 0
unfolding all_below
mask_two k l = (==_iff _ _).0 (below_all 4 (λ k. bit_and (k * 16) 0x4f == 0) k refl l)

mask_three : (k : ℕ) → k < 16 → bit_and (k * 4) 0xc3 ≡ 0
unfolding all_below
mask_three k l = (==_iff _ _).0 (below_all 16 (λ k. bit_and (k * 4) 0xc3 == 0) k refl l)

pub tail_passes-body :
    (o : Base64Options)
    → IsDialect o
    → (bytes : List ℕ) → All (λ b. b < 256) bytes
    → tail_passes (decode_table o) (body o bytes) ≡ true
unfolding body tail_passes last_char
tail_passes-body o d [] h = refl
tail_passes-body o d (a ∷ []) h =
    let e : a * 2 ^ 16 / 2 ^ 12 % 64 ≡ a % 4 * 16 = omega arith in
    rw (encode_digit_back o d (a * 2 ^ 16 / 2 ^ 12), e, mask_two (a % 4) (omega arith)) refl
tail_passes-body o d (a ∷ b ∷ []) h =
    let e : bit_or (a * 2 ^ 16) (b * 2 ^ 8) / 2 ^ 6 % 64 ≡ b % 16 * 4 =
      omega (arith, join_bytes_two a b h.1.0) in
    rw
      (
        encode_digit_back o d (bit_or (a * 2 ^ 16) (b * 2 ^ 8) / 2 ^ 6),
        e,
        mask_three (b % 16) (omega arith),
      )
      refl
tail_passes-body o d (a ∷ b ∷ c ∷ []) h = refl
tail_passes-body o d (a ∷ b ∷ c ∷ x ∷ bytes) h =
    let v = bit_or (bit_or (a * 2 ^ 16) (b * 2 ^ 8)) c in
    tail_passes_step (decode_table o) (encode_digit o (v / 2 ^ 18)) (encode_digit o (v / 2 ^ 12))
      (encode_digit o (v / 2 ^ 6)) (encode_digit o v) (body o (x ∷ bytes))
      (omega (arith, length-body o (x ∷ bytes)))
    ∙ tail_passes-body o d (x ∷ bytes) h.1.1.1

-- No text ends in padding.
pub last_char-body :
    (o : Base64Options)
    → IsDialect o
    → (b : ℕ) (bytes : List ℕ) → last_char (body o (b ∷ bytes)) ≢ o.pad
unfolding body last_char
last_char-body o d a [] = encode_digit_ne o d _
last_char-body o d a (b ∷ []) = encode_digit_ne o d _
last_char-body o d a (b ∷ c ∷ []) = encode_digit_ne o d _
last_char-body o d a (b ∷ c ∷ x ∷ bytes) =
    let v = bit_or (bit_or (a * 2 ^ 16) (b * 2 ^ 8)) c in
    rw
      (last_char_step (encode_digit o (v / 2 ^ 18)) (encode_digit o (v / 2 ^ 12))
        (encode_digit o (v / 2 ^ 6)) (encode_digit o v) (body o (x ∷ bytes))
        (omega (arith, length-body o (x ∷ bytes))))
      (last_char-body o d x bytes)
