-- ===== src/Base64/Digits.antt =====
-- encode/base64.c: a digit that is encoded is decoded as the same six bits.
use Prim.Native.Nat.{bit_or, bit_and}
use c_reusables.Prelude.{
  ℕ, zero, suc, ◌+◌, ◌*◌, ◌/◌, ◌%◌, ◌^◌, ◌<◌, ◌≡◌, ◌≢◌, refl, sym, ◌∙◌, ap, Bool, true, false, ◌||◌,
  ◌⊎◌, inl, inr, List, [], ◌∷◌, ◌++◌, ltb, ltb→lt, ◌==◌, ==_iff, length, set, length-set, get_or,
  get_or-set_self, get_or-set_ne, replicate, all_below, below_all, bit_or-shifted, bit_and-shifted,
  arith,
}
use c_reusables.Base64.{
  Base64Options, base64_table_core, encode_table, encode_digit, fill_core, decode_table,
}

abbrev pub occurs : ℕ → List ℕ → Bool
occurs c [] = false
occurs c (x ∷ xs) = (x == c) || occurs c xs

-- The 64 characters are different and in ASCII, and the padding is none of them.
pub record IsDialect (options : Base64Options) : Type 0 where
  pub ch62_ascii : options.ch62 < 128
  pub ch63_ascii : options.ch63 < 128
  pub different : options.ch62 ≢ options.ch63
  pub ch62_fresh : occurs options.ch62 base64_table_core ≡ false
  pub ch63_fresh : occurs options.ch63 base64_table_core ≡ false
  pub pad_fresh : occurs options.pad (encode_table options) ≡ false

occurs_ne : (c : ℕ) (xs : List ℕ) (k : ℕ) → occurs c xs ≡ false → k < length xs → get_or xs k 0 ≢ c
occurs_ne c [] k e l = absurd (omega arith)
occurs_ne c (x ∷ xs) zero e l = ground (arith, e)
occurs_ne c (x ∷ xs) (suc k) e l = occurs_ne c xs k (ground (arith, e)) (omega arith)

get_or-append : (xs ys : List ℕ) (k : ℕ) → k < length xs → get_or (xs ++ ys) k 0 ≡ get_or xs k 0
get_or-append [] ys k l = absurd (omega arith)
get_or-append (x ∷ xs) ys zero l = refl
get_or-append (x ∷ xs) ys (suc k) l = get_or-append xs ys k (omega arith)

pub length-fill_core : (i : ℕ) (cs table : List ℕ) → length (fill_core i cs table) ≡ length table
unfolding fill_core
length-fill_core i [] table = refl
length-fill_core i (c ∷ cs) table =
    length-fill_core (i + 1) cs (set table c i) ∙ length-set table c i

unfoldable pub core_values : List ℕ
unfolding fill_core
core_values = fill_core 0 base64_table_core (replicate 256 0xff)

core_back : all_below 62 (λ k. get_or core_values (get_or base64_table_core k 0) 0 == k) ≡ true
unfolding all_below core_values fill_core
core_back = refl

core_ascii : all_below 62 (λ k. ltb (get_or base64_table_core k 0) 128) ≡ true
unfolding all_below
core_ascii = refl

digit_cases : (k : ℕ) → k < 64 → (k < 62) ⊎ ((k ≡ 62) ⊎ (k ≡ 63))
digit_cases k l = ground arith

pub encode_core :
    (o : Base64Options) (k : ℕ)
    → k < 62
    → get_or (encode_table o) k 0 ≡ get_or base64_table_core k 0
encode_core o k l = get_or-append base64_table_core (o.ch62 ∷ o.ch63 ∷ []) k l

-- Each of the 64 values is read back from its character.
table_back :
    (o : Base64Options)
    → IsDialect o
    → (k : ℕ) → k < 64
    → get_or (decode_table o) (get_or (encode_table o) k 0) 0 ≡ k
unfolding decode_table core_values
table_back o d k l = elim (digit_cases k l) [
  | inl small ↦ rw (encode_core o k small) (
      get_or-set_ne (set core_values o.ch62 62) o.ch63 (get_or base64_table_core k 0) 63 0
        (λ e. occurs_ne o.ch63 base64_table_core k d.ch63_fresh small (sym e))
      ∙ get_or-set_ne core_values o.ch62 (get_or base64_table_core k 0) 62 0
          (λ e. occurs_ne o.ch62 base64_table_core k d.ch62_fresh small (sym e))
      ∙ (==_iff _ _).0 (
          below_all 62 (λ k. get_or core_values (get_or base64_table_core k 0) 0 == k) k core_back
            small))
  | inr (inl e) ↦ rw e (
      get_or-set_ne (set core_values o.ch62 62) o.ch63 o.ch62 63 0 (λ e. d.different (sym e))
      ∙ get_or-set_self core_values o.ch62 62 0
          (omega (arith, d.ch62_ascii, length-fill_core 0 base64_table_core (replicate 256 0xff))))
  | inr (inr e) ↦ rw e (
      get_or-set_self (set core_values o.ch62 62) o.ch63 63 0 (
        omega (
          arith,
          d.ch63_ascii,
          length-set core_values o.ch62 62,
          length-fill_core 0 base64_table_core (replicate 256 0xff),
        )))
]

table_ascii :
    (o : Base64Options) → IsDialect o → (k : ℕ) → k < 64 → get_or (encode_table o) k 0 < 128
table_ascii o d k l = elim (digit_cases k l) [
  | inl small ↦
      rw (encode_core o k small)
        (ltb→lt _ _ (below_all 62 (λ k. ltb (get_or base64_table_core k 0) 128) k core_ascii small))
  | inr (inl e) ↦ rw e d.ch62_ascii
  | inr (inr e) ↦ rw e d.ch63_ascii
]

-- A digit is the character of the lowest six bits.
pub encode_digit_lem :
    (o : Base64Options) (v : ℕ) → encode_digit o v ≡ get_or (encode_table o) (v % 64) 0
unfolding encode_digit
encode_digit_lem o v =
    ap (λ k. get_or (encode_table o) k 0)
      (bit_and-shifted 6 (v % 2 ^ 8) 0x3f (v % 256 / 64) (v % 64) (omega arith) (omega arith) refl)

pub encode_digit_back :
    (o : Base64Options)
    → IsDialect o
    → (v : ℕ) → get_or (decode_table o) (encode_digit o v) 0 ≡ v % 64
encode_digit_back o d v = rw (encode_digit_lem o v) (table_back o d (v % 64) (omega arith))

pub encode_digit_ascii : (o : Base64Options) → IsDialect o → (v : ℕ) → encode_digit o v < 128
encode_digit_ascii o d v = rw (encode_digit_lem o v) (table_ascii o d (v % 64) (omega arith))

pub encode_digit_ne : (o : Base64Options) → IsDialect o → (v : ℕ) → encode_digit o v ≢ o.pad
encode_digit_ne o d v =
    rw (encode_digit_lem o v) (occurs_ne o.pad (encode_table o) (v % 64) d.pad_fresh (omega arith))

-- The bits of the bytes and of the digits, joined.
pub join_two : (p q : ℕ) → q < 64 → bit_or (p * 2 ^ 18) (q * 2 ^ 12) ≡ p * 2 ^ 18 + q * 2 ^ 12
join_two p q h = bit_or-shifted 18 (p * 2 ^ 18) p (q * 2 ^ 12) (omega arith) (omega arith)

pub join_three :
    (p q r : ℕ)
    → q < 64
    → r < 64
    → bit_or (bit_or (p * 2 ^ 18) (q * 2 ^ 12)) (r * 2 ^ 6) ≡ p * 2 ^ 18 + q * 2 ^ 12 + r * 2 ^ 6
join_three p q r h k = rw (join_two p q h) (
    bit_or-shifted 12 (p * 2 ^ 18 + q * 2 ^ 12) (p * 2 ^ 6 + q) (r * 2 ^ 6) (omega arith)
      (omega arith))

pub join_four :
    (p q r s : ℕ)
    → q < 64
    → r < 64
    → s < 64
    → bit_or (bit_or (bit_or (p * 2 ^ 18) (q * 2 ^ 12)) (r * 2 ^ 6)) s
      ≡ p * 2 ^ 18 + q * 2 ^ 12 + r * 2 ^ 6 + s
join_four p q r s h k l = rw (join_three p q r h k) (
    bit_or-shifted 6 (p * 2 ^ 18 + q * 2 ^ 12 + r * 2 ^ 6) (p * 2 ^ 12 + q * 2 ^ 6 + r) s
      (omega arith) (omega arith))

pub join_bytes_two : (a b : ℕ) → b < 256 → bit_or (a * 2 ^ 16) (b * 2 ^ 8) ≡ a * 2 ^ 16 + b * 2 ^ 8
join_bytes_two a b h = bit_or-shifted 16 (a * 2 ^ 16) a (b * 2 ^ 8) (omega arith) (omega arith)

pub join_bytes :
    (a b c : ℕ)
    → b < 256
    → c < 256
    → bit_or (bit_or (a * 2 ^ 16) (b * 2 ^ 8)) c ≡ a * 2 ^ 16 + b * 2 ^ 8 + c
join_bytes a b c h k =
    rw (join_bytes_two a b h)
      (bit_or-shifted 8 (a * 2 ^ 16 + b * 2 ^ 8) (a * 2 ^ 8 + b) c (omega arith) (omega arith))

pub low_byte : (v : ℕ) → bit_and v 0xff ≡ v % 256
low_byte v = bit_and-shifted 8 v 0xff (v / 256) (v % 256) (omega arith) (omega arith) refl
