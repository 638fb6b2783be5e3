-- ===== src/Tests/Base64.antt =====
-- Base64 at concrete inputs.
use c_reusables.Prelude.{◌-◌, ◌^◌, ◌≡◌, refl, inl, none, some, ◌>>=◌, [], ◌∷◌, length, true, arith}
use c_reusables.Base64.{
  written, text, size_needed, invalid, base64_def_options, encode_loop, encode_size, base64_encode,
  base64_decode, padding, encode_digit, strip_padding, last_char, drop_last, decode_stripped,
  decode_table, fill_core, validate, tail_passes, decode_loop, decode_tail, decode_two,
  decode_three,
}
use c_reusables.Base64.Digits.{IsDialect}
use c_reusables.Base64.RoundTrip.{text_of, length-encode_loop, base64_decode-encode}
use c_reusables.Base64.Answers.{Right, base64_decode-Right}

default-IsDialect : IsDialect base64_def_options
default-IsDialect = record {
  ch62_ascii = omega arith;
  ch63_ascii = omega arith;
  different = omega arith;
  ch62_fresh = refl;
  ch63_fresh = refl;
  pad_fresh = refl;
}

-- "foobar" and the lengths below it
encode_foob_test :
    base64_encode (102 ∷ 111 ∷ 111 ∷ 98 ∷ []) (some 9) none
    ≡ text 8 (90 ∷ 109 ∷ 57 ∷ 118 ∷ 89 ∷ 103 ∷ 61 ∷ 61 ∷ []) true
unfolding base64_encode encode_loop encode_size padding encode_digit
encode_foob_test = refl

decode_foob_test :
    base64_decode (90 ∷ 109 ∷ 57 ∷ 118 ∷ 89 ∷ 103 ∷ 61 ∷ 61 ∷ []) (some 4) none
    ≡ written 4 (102 ∷ 111 ∷ 111 ∷ 98 ∷ [])
unfolding base64_decode strip_padding last_char drop_last decode_stripped decode_table fill_core
    validate tail_passes decode_loop decode_tail decode_two decode_three
decode_foob_test = refl

-- "Zh" has bits behind its one byte.
decode_uneven_test : base64_decode (90 ∷ 104 ∷ []) none none ≡ invalid
unfolding base64_decode strip_padding last_char drop_last decode_stripped decode_table fill_core
    validate tail_passes decode_loop
decode_uneven_test = refl

encode_null_test : base64_encode (1 ∷ []) none none ≡ size_needed 5
unfolding base64_encode encode_size
encode_null_test = refl

length-encode_loop_example :
    length (encode_loop base64_def_options (102 ∷ 111 ∷ [])) ≡ encode_size base64_def_options 2
length-encode_loop_example = length-encode_loop base64_def_options (102 ∷ 111 ∷ []) (omega arith)

base64_decode-encode_example :
    (do
      chars ← text_of (base64_encode (102 ∷ 111 ∷ []) (some 4) (some base64_def_options))
      some (base64_decode chars (some 2) (some base64_def_options)))
    ≡ some (written 2 (102 ∷ 111 ∷ []))
unfolding encode_size
base64_decode-encode_example =
    base64_decode-encode base64_def_options 61 (102 ∷ 111 ∷ []) 4 2 default-IsDialect (inl refl)
      (omega arith, (omega arith, tt)) (omega arith) (omega arith) (omega arith)

base64_decode-Right_example :
    Right base64_def_options
      (strip_padding base64_def_options (90 ∷ 103 ∷ 61 ∷ 61 ∷ []))
      1
      (base64_decode (90 ∷ 103 ∷ 61 ∷ 61 ∷ []) (some 1) (some base64_def_options))
base64_decode-Right_example =
    base64_decode-Right base64_def_options (90 ∷ 103 ∷ 61 ∷ 61 ∷ []) 1 default-IsDialect
      (omega arith, (omega arith, (omega arith, (omega arith, tt)))) (omega arith)

-- At the end of an input of this size the offset wraps around.
decode_loop_wrap_test : decode_loop [] (2 ^ 32 - 4) (2 ^ 32 - 4) [] ≡ none
unfolding decode_loop
decode_loop_wrap_test = refl
