-- ===== src/Tests/Hex.antt =====
-- encode/hex.c, on short data.
use c_reusables.Prelude.{◌≡◌, refl, true, some, none, [], ◌∷◌, ◌>>=◌, arith}
use c_reusables.Hex.{
  hex_encode, hex_decode, decode_into, decode_loop, hex_size, hex_bytes, hex_text_of,
  hex_decode-encode,
}

-- The letter g is no hexadecimal digit, and is read as 16.
letter_run : hex_decode (48 ∷ 103 ∷ []) (some 1) ≡ hex_bytes (16 ∷ [])
unfolding hex_decode decode_into decode_loop
letter_run = refl

size_run : hex_encode (0 ∷ 175 ∷ []) none true ≡ hex_size 5
unfolding hex_encode
size_run = refl

hex_decode-encode_example :
    (do
      chars ← hex_text_of (hex_encode (0 ∷ 175 ∷ []) (some 5) true)
      some (hex_decode chars (some 2)))
    ≡ some (hex_bytes (0 ∷ 175 ∷ []))
hex_decode-encode_example =
    hex_decode-encode true (0 ∷ 175 ∷ []) 5 2 (omega arith, (omega arith, tt)) (omega arith)
      (omega arith) (omega arith)
