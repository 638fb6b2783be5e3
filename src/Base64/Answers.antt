-- ===== src/Base64/Answers.antt =====
-- encode/base64.c: each answer of `base64_decode` in terms of `base64_encode`.
use c_reusables.Prelude.{
  ℕ, ◌≤◌, ◌<◌, ◌≡◌, ◌≢◌, ◌%◌, ◌^◌, subst, not, refl, sym, ◌∙◌, ap, Bool, true, false, ◌&&◌, inl,
  inr, append-nil, some, List, [], ◌∷◌, get_or, ltb, ◌==◌, ◌⊎◌, if◌then◌else◌, length, All,
  Bool-cases, arith,
}
use c_reusables.Base64.{
  Base64Options, Answer, size_needed, text, written, invalid, no_space, outside, Validity, valid,
  invalid_char, negative_index, encode_loop, padding, strip_padding, drop_pad, drop_last, last_char,
  decode_size, decode_table, written_or_outside, validate, tail_passes, decode_stripped,
  base64_decode,
}
use c_reusables.Base64.Loop.{decoded, decode_loop-decoded}
use c_reusables.Base64.Digits.{IsDialect}
use c_reusables.Base64.Groups.{body, encode_loop-body, length-body, validate-body, tail_passes-body}
use c_reusables.Base64.Canonical.{body-decoded}

-- What an answer of `base64_decode` for a buffer says of the characters.
abbrev pub Right : Base64Options → List ℕ → ℕ → Answer → Type 0
Right o chars n (written size out) =
    (encode_loop (record o { pad = 0 }) out ≡ chars)
    × (length out ≤ n)
    × (size ≡ length out)
    × (size < 2 ^ 31)
Right o chars n no_space =
    (bytes : List ℕ) × (encode_loop (record o { pad = 0 }) bytes ≡ chars) × (n < length bytes)
Right o chars n invalid =
    (bytes : List ℕ) → All (λ b. b < 256) bytes → encode_loop (record o { pad = 0 }) bytes ≢ chars
Right o chars n (size_needed k) = ⊥
Right o chars n (text size out terminated) = ⊥
Right o chars n outside = ⊥

unpadded :
    (o : Base64Options) (bytes : List ℕ) → encode_loop (record o { pad = 0 }) bytes ≡ body o bytes
unfolding padding
unpadded o bytes = encode_loop-body o 0 bytes ∙ append-nil (body o bytes)

left_negative :
    (p q : Bool) (r : Validity)
    → p ≡ true
    → (if p then (if q then invalid_char else r) else negative_index) ≡ negative_index
    → r ≡ negative_index
left_negative true true r h e = absurd (ground (arith, e))
left_negative true false r h e = e
left_negative false q r h e = absurd (ground (arith, h))

validate_ascii :
    (table chars : List ℕ) → All (λ c. c < 128) chars → validate table chars ≢ negative_index
unfolding validate
validate_ascii table [] h e = ground (arith, e)
validate_ascii table (c ∷ cs) h e = validate_ascii table cs h.1 (
    left_negative (ltb c 128) (get_or table c 0 == 0xff) (validate table cs) (ground (arith, h.0))
      e)

validity_cases : (r : Validity) → (r ≡ valid) ⊎ ((r ≡ invalid_char) ⊎ (r ≡ negative_index))
validity_cases valid = inl refl
validity_cases invalid_char = inr (inl refl)
validity_cases negative_index = inr (inr refl)

valid_apart : (r : Validity) → r ≡ valid → r ≡ invalid_char → ⊥
valid_apart r e k = let q = sym e ∙ k in ground (arith, q)

bool_apart : (b : Bool) → b ≡ true → b ≡ false → ⊥
bool_apart b e k = ground (arith, e, k)

-- The number of bytes that validated characters are decoded as.
length-decoded :
    (o : Base64Options)
    → IsDialect o
    → (chars : List ℕ) → validate (decode_table o) chars ≡ valid
    → tail_passes (decode_table o) chars ≡ true
    → length (decoded (decode_table o) chars) ≡ decode_size (length chars)
length-decoded o d chars v t =
    let e = ap length (body-decoded o d chars v t) in
    let l = length-body o (decoded (decode_table o) chars) in omega (arith, e, l)

decode_stripped-Right :
    (o : Base64Options)
    → IsDialect o
    → (chars : List ℕ) (n : ℕ) → All (λ c. c < 128) chars
    → length chars < 2 ^ 31
    → Right o chars n (decode_stripped o chars (some n))
unfolding decode_stripped
decode_stripped-Right o d chars n h short =
    elim (validity_cases (validate (decode_table o) chars)) [
      | inl v ↦
          rw (decode_stripped, v)
            (elim (Bool-cases (tail_passes (decode_table o) chars)) [
              | inl t ↦
                  let back =
                    unpadded o (decoded (decode_table o) chars) ∙ body-decoded o d chars v t in
                  let size = length-decoded o d chars v t in
                  rw (t, if◌then◌else◌)
                    (elim (Bool-cases (ltb n (decode_size (length chars)))) [
                      | inl f ↦
                          rw (f, if◌then◌else◌) (decoded (decode_table o) chars, back, over f size)
                      | inr f ↦
                          rw (f, if◌then◌else◌)
                            (subst (λ r. Right o chars n (written_or_outside r))
                              (sym (
                                decode_loop-decoded (decode_table o) chars 0 (length chars)
                                  (omega arith) (omega arith)))
                              (back, fits f size, omega (arith, size), omega (arith, size)))
                    ])
              | inr t ↦
                  rw (t, if◌then◌else◌)
                    (λ bytes b e.
                      bool_apart (tail_passes (decode_table o) chars)
                        (ap (tail_passes (decode_table o)) (sym e ∙ unpadded o bytes)
                          ∙ tail_passes-body o d bytes b)
                        t)
            ])
      | inr (inl v) ↦
          rw (decode_stripped, v)
            (λ bytes b e.
              valid_apart (validate (decode_table o) chars)
                (ap (validate (decode_table o)) (sym e ∙ unpadded o bytes)
                  ∙ validate-body o d bytes)
                v)
      | inr (inr v) ↦ absurd (validate_ascii (decode_table o) chars h v)
    ]
  where
    over : {l k : ℕ} → ltb n k ≡ true → l ≡ k → n < l
    over f e = ground (arith, f, e)

    fits : {l k : ℕ} → ltb n k ≡ false → l ≡ k → l ≤ n
    fits f e = ground (arith, f, e)

length-drop_last : (chars : List ℕ) → length (drop_last chars) ≤ length chars
unfolding drop_last
length-drop_last [] = omega arith
length-drop_last (c ∷ []) = omega arith
length-drop_last (c ∷ d ∷ cs) = omega (arith, length-drop_last (d ∷ cs))

length-drop_pad : (pad : ℕ) (chars : List ℕ) → length (drop_pad pad chars) ≤ length chars
length-drop_pad pad chars = ground (arith, length-drop_last chars)

length-strip_padding :
    (o : Base64Options) (chars : List ℕ) → length (strip_padding o chars) ≤ length chars
unfolding strip_padding
length-strip_padding o chars =
    elim (Bool-cases (not (o.pad == 0) && (ltb 0 (length chars) && (length chars % 4 == 0)))) [
      | inl e ↦
          rw (e, if◌then◌else◌)
            (omega
              (arith, length-drop_pad o.pad (drop_pad o.pad chars), length-drop_pad o.pad chars))
      | inr e ↦ rw (e, if◌then◌else◌) (omega arith)
    ]

All-drop_last : (chars : List ℕ) → All (λ c. c < 128) chars → All (λ c. c < 128) (drop_last chars)
unfolding drop_last
All-drop_last [] h = tt
All-drop_last (c ∷ []) h = tt
All-drop_last (c ∷ d ∷ cs) h = (h.0, All-drop_last (d ∷ cs) h.1)

All-drop_pad :
    (pad : ℕ) (chars : List ℕ) → All (λ c. c < 128) chars → All (λ c. c < 128) (drop_pad pad chars)
All-drop_pad pad chars h = elim (Bool-cases (last_char chars == pad)) [
  | inl e ↦ rw (e, if◌then◌else◌) (All-drop_last chars h)
  | inr e ↦ rw (e, if◌then◌else◌) h
]

All-strip_padding :
    (o : Base64Options) (chars : List ℕ)
    → All (λ c. c < 128) chars
    → All (λ c. c < 128) (strip_padding o chars)
unfolding strip_padding
All-strip_padding o chars h =
    elim (Bool-cases (not (o.pad == 0) && (ltb 0 (length chars) && (length chars % 4 == 0)))) [
      | inl e ↦
          rw (e, if◌then◌else◌)
            (All-drop_pad o.pad (drop_pad o.pad chars) (All-drop_pad o.pad chars h))
      | inr e ↦ rw (e, if◌then◌else◌) h
    ]

-- For less than 2 ^ 31 characters, all of ASCII, and a buffer of `n` bytes, in a dialect of
-- different ASCII characters none of which is the padding, `base64_decode` leaves neither its table
-- nor its input, and answers in terms of the characters without their padding: with bytes that fit
-- and that are encoded, without padding, as exactly these, and it returns their number, which is
-- below 2 ^ 31; with -ENOBUFS if they are the text of more than `n` bytes; and with -EINVAL only if
-- they are the text of no bytes.
pub base64_decode-Right :
    (o : Base64Options) (chars : List ℕ) (n : ℕ)
    → IsDialect o
    → All (λ c. c < 128) chars
    → length chars < 2 ^ 31
    → Right o (strip_padding o chars) n (base64_decode chars (some n) (some o))
unfolding base64_decode
base64_decode-Right o chars n d h short =
    let ascii : (ltb o.ch62 128 && ltb o.ch63 128) ≡ true =
      ground (arith, d.ch62_ascii, d.ch63_ascii) in
    rw (base64_decode, ascii, if◌then◌else◌)
      (decode_stripped-Right o d (strip_padding o chars) n (All-strip_padding o chars h)
        (omega (arith, length-strip_padding o chars)))
