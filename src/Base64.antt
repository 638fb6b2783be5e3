-- ===== src/Base64.antt =====
-- encode/base64.c: Base64 with the two last characters of the alphabet and the padding to choose.
--
-- A byte and a character are numbers below 256, and `char` is signed: a character from 128 up is a
-- negative index. `unsigned` has 32 bits. The input is a list, the output buffer its size or NULL.
-- The input's size is an `unsigned`. The offset of the loop of `base64_decode` wraps around as in
-- C; that of `base64_encode` does not for fewer than 2 ^ 32 - 3 bytes.
pub mod Digits
pub mod Loop
pub mod Groups
pub mod RoundTrip
pub mod Canonical
pub mod Answers
use Prim.Native.Nat.{bit_or, bit_and}
use c_reusables.Prelude.{
  ℕ, zero, suc, ◌+◌, ◌-◌, ◌*◌, ◌/◌, ◌%◌, ◌^◌, Bool, true, false, not, ◌&&◌, ◌||◌, Option, none,
  some, List, [], ◌∷◌, ◌++◌, ◌>>=◌, ltb, leb, ◌==◌, if◌then◌else◌, length, set, get_or, replicate,
}

-- `BASE64_OPTIONS`
pub record Base64Options : Type 0 where
  pub ch62 : ℕ
  pub ch63 : ℕ
  pub pad : ℕ

-- `base64_def_options`: + / =
abbrev pub base64_def_options : Base64Options
base64_def_options = record { ch62 = 43; ch63 = 47; pad = 61 }

abbrev pub base64_table_core : List ℕ
base64_table_core =
    65 ∷ 66 ∷ 67 ∷ 68 ∷ 69 ∷ 70 ∷ 71 ∷ 72 ∷ 73 ∷ 74 ∷ 75 ∷ 76 ∷ 77 ∷ 78 ∷ 79 ∷ 80 ∷ 81 ∷ 82 ∷ 83
    ∷ 84 ∷ 85 ∷ 86 ∷ 87 ∷ 88 ∷ 89 ∷ 90 ∷ 97 ∷ 98 ∷ 99 ∷ 100 ∷ 101 ∷ 102 ∷ 103 ∷ 104 ∷ 105 ∷ 106
    ∷ 107 ∷ 108 ∷ 109 ∷ 110 ∷ 111 ∷ 112 ∷ 113 ∷ 114 ∷ 115 ∷ 116 ∷ 117 ∷ 118 ∷ 119 ∷ 120 ∷ 121 ∷ 122
    ∷ 48 ∷ 49 ∷ 50 ∷ 51 ∷ 52 ∷ 53 ∷ 54 ∷ 55 ∷ 56 ∷ 57 ∷ []

-- What a call returns and writes: the size for a NULL buffer; the text and if a zero follows it,
-- or the bytes, each after the number that is returned; -EINVAL or -ENOBUFS. Or it accesses the
-- table or the input outside its bounds. A returned number is the 32 bits of an `int`, which is
-- that number below 2 ^ 31 and negative from there on.
pub data Answer : Type 0 where
  size_needed : ℕ → Answer
  text : ℕ → List ℕ → Bool → Answer
  written : ℕ → List ℕ → Answer
  invalid : Answer
  no_space : Answer
  outside : Answer

-- `options`, where NULL stands for the default ones
abbrev pub options_or_default : Option Base64Options → Base64Options
options_or_default none = base64_def_options
options_or_default (some options) = options

-- The table of `base64_encode`.
abbrev pub encode_table : Base64Options → List ℕ
encode_table options = base64_table_core ++ (options.ch62 ∷ options.ch63 ∷ [])

-- `table[(uint8_t)(v) & 0x3f]`
unfoldable pub encode_digit : Base64Options → ℕ → ℕ
encode_digit options v = get_or (encode_table options) (bit_and (v % 2 ^ 8) 0x3f) 0

-- Up to `count` characters of padding, none if the option says so.
unfoldable pub padding : Base64Options → ℕ → List ℕ
padding options count = if options.pad == 0 then [] else replicate count options.pad

-- The main loop of `base64_encode`, in triples, with the code for the tail.
unfoldable pub encode_loop : Base64Options → List ℕ → List ℕ
encode_loop options [] = []
encode_loop options (a ∷ []) =
    let v = a * 2 ^ 16 in
    encode_digit options (v / 2 ^ 18) ∷ encode_digit options (v / 2 ^ 12) ∷ padding options 2
encode_loop options (a ∷ b ∷ []) =
    let v = bit_or (a * 2 ^ 16) (b * 2 ^ 8) in
    encode_digit options (v / 2 ^ 18)
    ∷ encode_digit options (v / 2 ^ 12)
    ∷ encode_digit options (v / 2 ^ 6)
    ∷ padding options 1
encode_loop options (a ∷ b ∷ c ∷ bytes) =
    let v = bit_or (bit_or (a * 2 ^ 16) (b * 2 ^ 8)) c in
    encode_digit options (v / 2 ^ 18)
    ∷ encode_digit options (v / 2 ^ 12)
    ∷ encode_digit options (v / 2 ^ 6)
    ∷ encode_digit options v
    ∷ encode_loop options bytes

-- `out_size_needed` of `base64_encode`
unfoldable pub encode_size : Base64Options → ℕ → ℕ
encode_size options in_size =
    let size = (in_size + 2) % 2 ^ 32 / 3 * 4 % 2 ^ 32 in
    if options.pad == 0
    then (if in_size % 3 == 0
        then size
        else if in_size % 3 == 1
        then (size + (2 ^ 32 - 2)) % 2 ^ 32
        else (size + (2 ^ 32 - 1)) % 2 ^ 32)
    else size

-- `base64_encode`; the terminator is written where there is space.
unfoldable pub base64_encode : List ℕ → Option ℕ → Option Base64Options → Answer
base64_encode bytes none options =
    size_needed ((encode_size (options_or_default options) (length bytes) + 1) % 2 ^ 32)
base64_encode bytes (some out_size) options =
    let opts = options_or_default options in
    if ltb out_size (encode_size opts (length bytes))
    then no_space
    else (let out = encode_loop opts bytes in
        text (length out % 2 ^ 32) out (ltb (length out) out_size))

-- `in[in_size - 1]`
unfoldable pub last_char : List ℕ → ℕ
last_char [] = 0
last_char (c ∷ []) = c
last_char (c ∷ d ∷ cs) = last_char (d ∷ cs)

unfoldable pub drop_last : List ℕ → List ℕ
drop_last [] = []
drop_last (c ∷ []) = []
drop_last (c ∷ d ∷ cs) = c ∷ drop_last (d ∷ cs)

abbrev pub drop_pad : ℕ → List ℕ → List ℕ
drop_pad pad chars = if last_char chars == pad then drop_last chars else chars

-- The input without its padding.
unfoldable pub strip_padding : Base64Options → List ℕ → List ℕ
unfolding last_char drop_last
strip_padding options chars =
    if not (options.pad == 0) && (ltb 0 (length chars) && (length chars % 4 == 0))
    then drop_pad options.pad (drop_pad options.pad chars)
    else chars

-- The loop that enters `base64_table_core` into the table.
unfoldable pub fill_core : ℕ → List ℕ → List ℕ → List ℕ
fill_core i [] table = table
fill_core i (c ∷ cs) table = fill_core (i + 1) cs (set table c i)

unfoldable pub decode_table : Base64Options → List ℕ
unfolding fill_core
decode_table options =
    set (set (fill_core 0 base64_table_core (replicate 256 0xff)) options.ch62 62) options.ch63 63

pub data Validity : Type 0 where
  valid : Validity
  invalid_char : Validity
  negative_index : Validity

-- The loop that validates the input.
unfoldable pub validate : List ℕ → List ℕ → Validity
validate table [] = valid
validate table (c ∷ cs) =
    let rest = validate table cs in
    if ltb c 128 then (if get_or table c 0 == 0xff then invalid_char else rest) else negative_index

-- The test of the last character, which depends on `in_size % 4`: it passes.
unfoldable pub tail_passes : List ℕ → List ℕ → Bool
tail_passes table chars =
    let value = get_or table (last_char chars) 0 in
    let rest = length chars % 4 in
    (rest == 0)
    || ((rest == 2) && (bit_and value 0x4f == 0))
    || ((rest == 3) && (bit_and value 0xc3 == 0))

-- `out_size_needed` of `base64_decode`, for an input that passes.
abbrev pub decode_size : ℕ → ℕ
decode_size in_size = in_size / 4 * 3 + (in_size % 4 - 1)

-- The two branches behind the main loop of `base64_decode`; characters that are not there are
-- read outside the input.
unfoldable pub decode_two : List ℕ → List ℕ → Option (List ℕ)
decode_two table (c ∷ d ∷ chars) =
    let v = bit_or (get_or table c 0 * 2 ^ 18) (get_or table d 0 * 2 ^ 12) in
    some (bit_and (v / 2 ^ 16) 0xff ∷ [])
decode_two table chars = none

unfoldable pub decode_three : List ℕ → List ℕ → Option (List ℕ)
decode_three table (c ∷ d ∷ e ∷ chars) =
    let v =
      bit_or (bit_or (get_or table c 0 * 2 ^ 18) (get_or table d 0 * 2 ^ 12))
        (get_or table e 0 * 2 ^ 6) in
    some (bit_and (v / 2 ^ 16) 0xff ∷ bit_and (v / 2 ^ 8) 0xff ∷ [])
decode_three table chars = none

unfoldable pub decode_tail : List ℕ → ℕ → ℕ → List ℕ → Option (List ℕ)
unfolding decode_two decode_three
decode_tail table in_off in_size chars =
    if (in_off + 2) % 2 ^ 32 == in_size
    then decode_two table chars
    else if (in_off + 3) % 2 ^ 32 == in_size
    then decode_three table chars
    else some []

-- The main loop of `base64_decode` from the offset `in_off` on, where the input goes on with these
-- characters: the bytes that it and the code behind it write, or none if it reads outside the input.
unfoldable pub decode_loop : List ℕ → ℕ → ℕ → List ℕ → Option (List ℕ)
unfolding decode_tail
decode_loop table in_off in_size (c ∷ d ∷ e ∷ f ∷ chars) =
    let rest = decode_loop table ((in_off + 4) % 2 ^ 32) in_size chars in
    let v =
      bit_or
        (bit_or (bit_or (get_or table c 0 * 2 ^ 18) (get_or table d 0 * 2 ^ 12))
          (get_or table e 0 * 2 ^ 6))
        (get_or table f 0) in
    if leb ((in_off + 4) % 2 ^ 32) in_size
    then (do
      out ← rest
      some (bit_and (v / 2 ^ 16) 0xff ∷ bit_and (v / 2 ^ 8) 0xff ∷ bit_and v 0xff ∷ out))
    else decode_tail table in_off in_size (c ∷ d ∷ e ∷ f ∷ chars)
decode_loop table in_off in_size chars =
    if leb ((in_off + 4) % 2 ^ 32) in_size then none else decode_tail table in_off in_size chars

-- The offset of the output, which is returned as an `int`
abbrev pub written_or_outside : Option (List ℕ) → Answer
written_or_outside none = outside
written_or_outside (some out) = written (length out % 2 ^ 32) out

-- `base64_decode` of the input without its padding.
unfoldable pub decode_stripped : Base64Options → List ℕ → Option ℕ → Answer
unfolding decode_table validate tail_passes decode_loop
decode_stripped options chars buffer =
    let table = decode_table options in
    elim (validate table chars) [
      | negative_index ↦ outside
      | invalid_char ↦ invalid
      | valid ↦
          if tail_passes table chars
          then (elim buffer [
            | none ↦ size_needed (decode_size (length chars))
            | some out_size ↦
                if ltb out_size (decode_size (length chars))
                then no_space
                else written_or_outside (decode_loop table 0 (length chars) chars)
          ])
          else invalid
    ]

-- `base64_decode`
unfoldable pub base64_decode : List ℕ → Option ℕ → Option Base64Options → Answer
unfolding strip_padding decode_stripped
base64_decode chars buffer options =
    let opts = options_or_default options in
    if ltb opts.ch62 128 && ltb opts.ch63 128
    then decode_stripped opts (strip_padding opts chars) buffer
    else outside
