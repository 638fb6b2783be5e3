-- ===== src/Hex.antt =====
-- encode/hex.c: hexadecimal notation. A byte and a character are numbers; `unsigned` has 32 bits. The
-- space that is left in the output buffer is a number, and what is written to it is a list.
use Prim.Native.Nat.{bit_or}
use c_reusables.Prelude.{
  all_below, below_all, ℕ, ◌+◌, ◌-◌, ◌*◌, ◌/◌, ◌%◌, ◌^◌, ◌≤◌, ◌<◌, ◌≡◌, refl, ap, Bool, true, false,
  ◌&&◌, Option, none, some, List, [], ◌∷◌, ltb, leb, ◌==◌, ==_iff, if◌then◌else◌, length, All,
  ◌>>=◌, arith,
}

-- `xdigits[n]`, in lower or in upper case
abbrev pub xdigit : Bool → ℕ → ℕ
xdigit lowercase n =
    if ltb n 10 then 48 + n else (elim lowercase [ true ↦ 87 + n | false ↦ 55 + n ])

-- The loop of `hex_encode`, with the space that is left.
unfoldable pub encode_loop : Bool → ℕ → List ℕ → List ℕ
encode_loop lowercase space [] = []
encode_loop lowercase space (byte ∷ bytes) =
    let rest = encode_loop lowercase (space - 2) bytes in
    if ltb 1 space
    then xdigit lowercase (byte / 16 % 16) ∷ xdigit lowercase (byte % 16) ∷ rest
    else []

-- The part of `hex_encode` for a buffer: what is written, the terminator apart, or -1.
unfoldable pub encode_into : List ℕ → ℕ → Bool → Option (List ℕ)
encode_into bytes out_size lowercase =
    if ltb out_size (length bytes * 2 % 2 ^ 32)
    then none
    else some (encode_loop lowercase out_size bytes)

-- The value of one digit; as in the source, letters up to z have one.
abbrev pub digit_value : ℕ → Option ℕ
digit_value c =
    if leb 48 c && leb c 57
    then some (c - 48)
    else if leb 97 c && leb c 122
    then some (c - 97 + 10)
    else if leb 65 c && leb c 90
    then some (c - 65 + 10)
    else none

-- The byte of two digits.
abbrev pub decode_pair : ℕ → ℕ → Option ℕ
decode_pair c d = do
  high ← digit_value c
  low ← digit_value d
  some (bit_or (high * 16 % 256) low % 256)

-- The loop of `hex_decode`; the number of characters is even.
unfoldable pub decode_loop : ℕ → List ℕ → Option (List ℕ)
decode_loop space [] = some []
decode_loop space (c ∷ []) = none
decode_loop space (c ∷ d ∷ cs) =
    let rest = decode_loop (space - 1) cs in
    if ltb 0 space then (do byte ← decode_pair c d; bytes ← rest; some (byte ∷ bytes)) else some []

-- The part of `hex_decode` for a buffer: what is written, or -1.
unfoldable pub decode_into : List ℕ → ℕ → Option (List ℕ)
decode_into chars out_size =
    if length chars % 2 == 0
    then (if ltb out_size (length chars / 2) then none else decode_loop out_size chars)
    else none

-- What a call returns and writes: the size for a NULL buffer, -1, the text and if a zero follows it,
-- or the bytes.
pub data HexAnswer : Type 0 where
  hex_size : ℕ → HexAnswer
  hex_error : HexAnswer
  hex_text : List ℕ → Bool → HexAnswer
  hex_bytes : List ℕ → HexAnswer

abbrev pub encode_answer : ℕ → Option (List ℕ) → HexAnswer
encode_answer out_size none = hex_error
encode_answer out_size (some out) = hex_text out (ltb (length out) out_size)

-- `hex_encode`
unfoldable pub hex_encode : List ℕ → Option ℕ → Bool → HexAnswer
unfolding encode_into
hex_encode bytes none lowercase = hex_size ((length bytes * 2 + 1) % 2 ^ 32)
hex_encode bytes (some out_size) lowercase =
    encode_answer out_size (encode_into bytes out_size lowercase)

abbrev pub decode_answer : Option (List ℕ) → HexAnswer
decode_answer none = hex_error
decode_answer (some out) = hex_bytes out

-- `hex_decode`
unfoldable pub hex_decode : List ℕ → Option ℕ → HexAnswer
unfolding decode_into
hex_decode chars none = hex_size (length chars / 2)
hex_decode chars (some out_size) = decode_answer (decode_into chars out_size)

-- Both digits of a byte are read back as the byte.
reads_back : Bool → ℕ → Bool
reads_back lowercase b =
    elim (decode_pair (xdigit lowercase (b / 16 % 16)) (xdigit lowercase (b % 16))) [
      | none ↦ false
      | some b' ↦ b' == b
    ]

reads_back_test : (lowercase : Bool) → all_below 256 (reads_back lowercase) ≡ true
unfolding all_below reads_back
reads_back_test true = refl
reads_back_test false = refl

pair_back :
    (lowercase : Bool) (b : ℕ)
    → b < 256
    → decode_pair (xdigit lowercase (b / 16 % 16)) (xdigit lowercase (b % 16)) ≡ some b
unfolding reads_back
pair_back lowercase b l =
    go (decode_pair (xdigit lowercase (b / 16 % 16)) (xdigit lowercase (b % 16)))
      (below_all 256 (reads_back lowercase) b (reads_back_test lowercase) l)
  where
    go : (o : Option ℕ) → elim o [ none ↦ false | some b' ↦ b' == b ] ≡ true → o ≡ some b
    go none e = absurd (ground (arith, e))
    go (some b') e = ap some ((==_iff b' b).0 e)

length-encode_loop :
    (lowercase : Bool) (space : ℕ) (bytes : List ℕ)
    → length bytes * 2 ≤ space
    → length (encode_loop lowercase space bytes) ≡ length bytes * 2
unfolding encode_loop
length-encode_loop lowercase space [] h = refl
length-encode_loop lowercase space (b ∷ bytes) h =
    let room : ltb 1 space ≡ true = ground arith in
    rw (room, if◌then◌else◌)
      (omega (arith, length-encode_loop lowercase (space - 2) bytes (omega arith)))

decode_loop-encode_loop :
    (lowercase : Bool) (space out_size : ℕ) (bytes : List ℕ)
    → length bytes * 2 ≤ space
    → length bytes ≤ out_size
    → All (λ b. b < 256) bytes
    → decode_loop out_size (encode_loop lowercase space bytes) ≡ some bytes
unfolding encode_loop decode_loop
decode_loop-encode_loop lowercase space out_size [] h k v = refl
decode_loop-encode_loop lowercase space out_size (b ∷ bytes) h k v =
    let room : ltb 1 space ≡ true = ground arith in
    let more : ltb 0 out_size ≡ true = ground arith in
    rw (room, if◌then◌else◌)
      (unfold decode_loop in
        rw
          (
            more,
            pair_back lowercase b v.0,
            decode_loop-encode_loop lowercase (space - 2) (out_size - 1) bytes (omega arith)
                (omega arith) v.1,
          )
          refl)

decode_into-encode_into :
    (lowercase : Bool) (bytes : List ℕ) (space out_size : ℕ)
    → All (λ b. b < 256) bytes
    → length bytes < 2 ^ 31
    → length bytes * 2 ≤ space
    → length bytes ≤ out_size
    → (do chars ← encode_into bytes space lowercase; decode_into chars out_size) ≡ some bytes
unfolding encode_into decode_into
decode_into-encode_into lowercase bytes space out_size v small h k =
    let fits : ltb space (length bytes * 2 % 2 ^ 32) ≡ false = ground arith in
    rw (fits, if◌then◌else◌)
      (let even : (length bytes * 2 % 2 == 0) ≡ true = (==_iff _ 0).1 (omega arith) in
        let room : ltb out_size (length bytes * 2 / 2) ≡ false = ground arith in
        rw (decode_into, length-encode_loop lowercase space bytes h, even, room, if◌then◌else◌)
          (decode_loop-encode_loop lowercase space out_size bytes h k v))

abbrev pub hex_text_of : HexAnswer → Option (List ℕ)
hex_text_of (hex_size n) = none
hex_text_of hex_error = none
hex_text_of (hex_text chars terminated) = some chars
hex_text_of (hex_bytes bytes) = none

answers_back :
    (out_size : ℕ) (o : Option (List ℕ)) (decode : List ℕ → Option (List ℕ)) (bytes : List ℕ)
    → (do chars ← o; decode chars) ≡ some bytes
    → (do chars ← hex_text_of (encode_answer out_size o); some (decode_answer (decode chars)))
      ≡ some (hex_bytes bytes)
answers_back out_size none decode bytes e = absurd (ground (arith, e))
answers_back out_size (some chars) decode bytes e = ap (λ o. some (decode_answer o)) e

-- What `hex_encode` writes for less than 2 ^ 31 bytes into a buffer that is large enough, with or
-- without space for the zero, `hex_decode` reads back as the same bytes, in lower and in upper case.
pub hex_decode-encode :
    (lowercase : Bool) (bytes : List ℕ) (space out_size : ℕ)
    → All (λ b. b < 256) bytes
    → length bytes < 2 ^ 31
    → length bytes * 2 ≤ space
    → length bytes ≤ out_size
    → (do
      chars ← hex_text_of (hex_encode bytes (some space) lowercase)
      some (hex_decode chars (some out_size)))
      ≡ some (hex_bytes bytes)
unfolding hex_encode hex_decode
hex_decode-encode lowercase bytes space out_size v small h k =
    answers_back space (encode_into bytes space lowercase) (λ chars. decode_into chars out_size)
      bytes (decode_into-encode_into lowercase bytes space out_size v small h k)
