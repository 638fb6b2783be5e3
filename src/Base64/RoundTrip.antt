-- ===== src/Base64/RoundTrip.antt =====
-- encode/base64.c: `base64_decode` reads back what `base64_encode` writes.
use c_reusables.Prelude.{
  ℕ, zero, suc, ◌+◌, ◌*◌, ◌/◌, ◌%◌, ◌^◌, ◌≤◌, ◌<◌, ◌≡◌, ◌≢◌, refl, ◌∙◌, ap, true, false, not, ◌&&◌,
  ◌⊎◌, inl, inr, Option, none, some, ◌>>=◌, List, [], ◌∷◌, ◌++◌, append-nil, append_assoc, subst,
  take, take_all, ltb, ◌==◌, ==_iff, if◌then◌else◌, length, Bool-cases, length-append,
  length-replicate, replicate, All, arith,
}
use c_reusables.Base64.{
  Base64Options, Answer, size_needed, text, written, invalid, no_space, outside, encode_loop,
  encode_size, padding, base64_encode, last_char, drop_last, drop_pad, strip_padding, decode_size,
  decode_table, written_or_outside, decode_stripped, base64_decode,
}
use c_reusables.Base64.Loop.{decode_loop-decoded}
use c_reusables.Base64.Digits.{IsDialect}
use c_reusables.Base64.Groups.{
  body, pads, encode_loop-body, length-body, decoded-body, validate-body, tail_passes-body,
  last_char-body,
}

-- The characters that the caller knows of: as many as the returned number.
abbrev pub text_of : Answer → Option (List ℕ)
text_of (size_needed n) = none
text_of (text size chars terminated) = some (take size chars)
text_of (written size bytes) = none
text_of invalid = none
text_of no_space = none
text_of outside = none

length-padding : (o : Base64Options) (n : ℕ) → length (padding o n) ≡ (if o.pad == 0 then 0 else n)
unfolding padding
length-padding o n = ground (arith, length-replicate n o.pad)

-- The number of characters that are written is the size that is computed, for less than 3 * 2 ^ 30 - 2
-- bytes.
pub length-encode_loop :
    (o : Base64Options) (bytes : List ℕ)
    → length bytes + 2 < 3 * 2 ^ 30
    → length (encode_loop o bytes) ≡ encode_size o (length bytes)
unfolding encode_size
length-encode_loop o bytes small =
    ap length (encode_loop-body o o.pad bytes)
    ∙ length-append (body o bytes) (padding o (pads (length bytes)))
    ∙ ground (arith, length-body o bytes, length-padding o (pads (length bytes)))

encode_loop-short :
    (o : Base64Options) (bytes : List ℕ)
    → length bytes + 2 < 3 * 2 ^ 29
    → length (encode_loop o bytes) < 2 ^ 31
unfolding encode_size
encode_loop-short o bytes small =
    let e = length-encode_loop o bytes (omega arith) in ground (arith, e)

last_char-snoc : (xs : List ℕ) (c : ℕ) → last_char (xs ++ (c ∷ [])) ≡ c
unfolding last_char
last_char-snoc [] c = refl
last_char-snoc (x ∷ []) c = refl
last_char-snoc (x ∷ y ∷ xs) c = last_char-snoc (y ∷ xs) c

drop_last-snoc : (xs : List ℕ) (c : ℕ) → drop_last (xs ++ (c ∷ [])) ≡ xs
unfolding drop_last
drop_last-snoc [] c = refl
drop_last-snoc (x ∷ []) c = refl
drop_last-snoc (x ∷ y ∷ xs) c = ap (λ zs. x ∷ zs) (drop_last-snoc (y ∷ xs) c)

drop_pad-snoc : (pad : ℕ) (xs : List ℕ) → drop_pad pad (xs ++ (pad ∷ [])) ≡ xs
drop_pad-snoc pad xs =
    let e : (last_char (xs ++ (pad ∷ [])) == pad) ≡ true = (==_iff _ _).1 (last_char-snoc xs pad) in
    rw (e, if◌then◌else◌) (drop_last-snoc xs pad)

drop_pad_none : (pad : ℕ) (xs : List ℕ) → last_char xs ≢ pad → drop_pad pad xs ≡ xs
drop_pad_none pad xs h =
    let e : (last_char xs == pad) ≡ false = ground (arith, h) in rw (e, if◌then◌else◌) refl

strip_none : (o : Base64Options) (xs : List ℕ) → last_char xs ≢ o.pad → strip_padding o xs ≡ xs
unfolding strip_padding
strip_none o xs h =
    elim (Bool-cases (not (o.pad == 0) && (ltb 0 (length xs) && (length xs % 4 == 0)))) [
      | inl e ↦ rw (e, if◌then◌else◌) (rw (drop_pad_none o.pad xs h) (drop_pad_none o.pad xs h))
      | inr e ↦ rw (e, if◌then◌else◌) refl
    ]

strip_two :
    (o : Base64Options) (xs zs : List ℕ)
    → o.pad ≢ 0
    → length zs % 4 ≡ 0
    → 0 < length zs
    → drop_pad o.pad (drop_pad o.pad zs) ≡ xs
    → strip_padding o zs ≡ xs
unfolding strip_padding
strip_two o xs zs h k l e =
    let t : (not (o.pad == 0) && (ltb 0 (length zs) && (length zs % 4 == 0))) ≡ true =
      ground (arith, h) in
    rw (t, if◌then◌else◌) e

strip_replicate :
    (o : Base64Options) (xs : List ℕ) (k : ℕ)
    → o.pad ≢ 0
    → last_char xs ≢ o.pad
    → k < 3
    → (k ≡ 0) ⊎ ((length xs + k) % 4 ≡ 0)
    → strip_padding o (xs ++ replicate k o.pad) ≡ xs
strip_replicate o xs zero z h l c = rw (append-nil xs) (strip_none o xs h)
strip_replicate o xs (suc zero) z h l (inl e) = absurd (omega arith)
strip_replicate o xs (suc zero) z h l (inr e) =
    strip_two o xs (xs ++ (o.pad ∷ [])) z (omega (arith, length-append xs (o.pad ∷ [])))
      (omega (arith, length-append xs (o.pad ∷ [])))
      (rw (drop_pad-snoc o.pad xs) (drop_pad_none o.pad xs h))
strip_replicate o xs (suc (suc zero)) z h l (inl e) = absurd (omega arith)
strip_replicate o xs (suc (suc zero)) z h l (inr e) =
    strip_two o xs (xs ++ (o.pad ∷ o.pad ∷ [])) z
      (omega (arith, length-append xs (o.pad ∷ o.pad ∷ [])))
      (omega (arith, length-append xs (o.pad ∷ o.pad ∷ [])))
      (subst (λ zs. drop_pad o.pad (drop_pad o.pad zs) ≡ xs)
        (append_assoc xs (o.pad ∷ []) (o.pad ∷ []))
        (rw (drop_pad-snoc o.pad (xs ++ (o.pad ∷ []))) (drop_pad-snoc o.pad xs)))
strip_replicate o xs (suc (suc (suc k))) z h l c = absurd (omega arith)

pads_cases : (n l : ℕ) → l ≡ (n * 4 + 2) / 3 → (pads n ≡ 0) ⊎ ((l + pads n) % 4 ≡ 0)
pads_cases n l e = ground arith

pads_small : (n : ℕ) → pads n < 3
pads_small n = ground arith

-- The padding of a text is taken off again, and nothing else.
strip_padded :
    (o : Base64Options) (xs : List ℕ) (n p : ℕ)
    → last_char xs ≢ o.pad
    → length xs ≡ (n * 4 + 2) / 3
    → (p ≡ o.pad) ⊎ (p ≡ 0)
    → strip_padding o (xs ++ padding (record o { pad = p }) (pads n)) ≡ xs
unfolding padding
strip_padded o xs n p h l (inr e) = rw (e, append-nil xs) (strip_none o xs h)
strip_padded o xs n p h l (inl e) = elim (Bool-cases (p == 0)) [
  | inl z ↦ rw (z, if◌then◌else◌, append-nil xs) (strip_none o xs h)
  | inr z ↦
      rw (z, if◌then◌else◌, e)
        (strip_replicate o xs (pads n) (ground (arith, e, z)) h (pads_small n)
          (pads_cases n (length xs) l))
]

-- A text of the bytes, with or without its padding, is stripped to its characters.
strip-encode_loop :
    (o : Base64Options)
    → IsDialect o
    → (p : ℕ) → (p ≡ o.pad) ⊎ (p ≡ 0)
    → (bytes : List ℕ) → strip_padding o (encode_loop (record o { pad = p }) bytes) ≡ body o bytes
unfolding strip_padding encode_loop body
strip-encode_loop o d p c [] = ground arith
strip-encode_loop o d p c (b ∷ bytes) = rw (encode_loop-body o p (b ∷ bytes)) (
    strip_padded o (body o (b ∷ bytes)) (length (b ∷ bytes)) p (last_char-body o d b bytes)
      (length-body o (b ∷ bytes)) c)

-- The returned size is the number of characters.
all_taken :
    (o : Base64Options) (bytes : List ℕ)
    → length bytes + 2 < 3 * 2 ^ 29
    → take (length (encode_loop o bytes) % 2 ^ 32) (encode_loop o bytes) ≡ encode_loop o bytes
all_taken o bytes small =
    take_all (length (encode_loop o bytes) % 2 ^ 32) (encode_loop o bytes)
      (omega (arith, encode_loop-short o bytes small))

decode_stripped-body :
    (o : Base64Options) (bytes : List ℕ) (out_size : ℕ)
    → IsDialect o
    → All (λ b. b < 256) bytes
    → length bytes < 3 * 2 ^ 29
    → length bytes ≤ out_size
    → decode_stripped o (body o bytes) (some out_size) ≡ written (length bytes) bytes
unfolding decode_stripped
decode_stripped-body o bytes out_size d v small k =
    let enough : ltb out_size (decode_size (length (body o bytes))) ≡ false =
      ground (arith, length-body o bytes) in
    rw (decode_stripped, validate-body o d bytes)
      (rw (tail_passes-body o d bytes v, if◌then◌else◌)
        (rw (enough, if◌then◌else◌)
          (ap written_or_outside (
              decode_loop-decoded (decode_table o) (body o bytes) 0 (length (body o bytes))
                (omega arith) (omega (arith, length-body o bytes))
              ∙ ap some (decoded-body o d bytes v))
            ∙ ap (λ n. written n bytes) (omega arith))))

-- For less than 3 * 2 ^ 29 - 2 bytes, whose text is shorter than 2 ^ 31 characters: as many characters
-- as `base64_encode` returns, from what it writes into a buffer of at least the size that it
-- computes, padded or not, are decoded as the bytes by `base64_decode` with the same two characters
-- and some padding, and it returns their number, if the 64 characters are different and in ASCII and
-- the padding is none of them.
pub base64_decode-encode :
    (o : Base64Options) (p : ℕ) (bytes : List ℕ) (space out_size : ℕ)
    → IsDialect o
    → (p ≡ o.pad) ⊎ (p ≡ 0)
    → All (λ b. b < 256) bytes
    → length bytes + 2 < 3 * 2 ^ 29
    → encode_size (record o { pad = p }) (length bytes) ≤ space
    → length bytes ≤ out_size
    → (do
      chars ← text_of (base64_encode bytes (some space) (some (record o { pad = p })))
      some (base64_decode chars (some out_size) (some o)))
      ≡ some (written (length bytes) bytes)
unfolding base64_encode base64_decode
base64_decode-encode o p bytes space out_size d c v small room k =
    let fits : ltb space (encode_size (record o { pad = p }) (length bytes)) ≡ false =
      ground (arith, room) in
    let ascii : (ltb o.ch62 128 && ltb o.ch63 128) ≡ true =
      ground (arith, d.ch62_ascii, d.ch63_ascii) in
    rw (fits, if◌then◌else◌)
      (rw (ascii, if◌then◌else◌)
        (ap (λ cs. some (decode_stripped o (strip_padding o cs) (some out_size)))
            (all_taken (record o { pad = p }) bytes small)
          ∙ ap (λ cs. some (decode_stripped o cs (some out_size))) (strip-encode_loop o d p c bytes)
          ∙ ap some (decode_stripped-body o bytes out_size d v (omega arith) k)))
