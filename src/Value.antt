-- ===== src/Value.antt =====
-- data/value.c: the tagged value, its integers and its strings.
--
-- A value is the first of its 16 bytes, which holds its type and its flags, the other 15, and the
-- block that it points to if the flag IS_MALLOCED is set. malloc is a parameter: it fails, or gives
-- a block with some contents. `char` of a text, and each byte, is a number below 256; integers are
-- little-endian, in two's complement; `size_t` has 64 bits. What the conversions of floating-point
-- numbers give is a parameter.
pub mod Bytes
pub mod Strings
pub mod Integers
pub mod Arrays
use Prim.Native.Nat.{bit_or, bit_and}
use c_reusables.Prelude.{
  ℕ, zero, suc, ◌+◌, ◌-◌, ◌*◌, ◌/◌, ◌%◌, ◌^◌, Bool, true, false, not, ◌&&◌, ◌||◌, Option, none,
  some, List, [], ◌∷◌, ◌++◌, ltb, leb, ◌==◌, if◌then◌else◌, length, drop, take, replicate, Status,
  ok, failed, ◌>>=◌,
}

pub record Value : Type 0 where
  pub tag : ℕ
  pub inline : List ℕ
  pub block : List ℕ

-- `VALUE_NULL`, `VALUE_BOOL`, `VALUE_FLOAT`, `VALUE_DOUBLE` and `VALUE_STRING`
abbrev pub value_null : ℕ
value_null = 0

abbrev pub value_bool_type : ℕ
value_bool_type = 1

abbrev pub value_float_type : ℕ
value_float_type = 6

abbrev pub value_double_type : ℕ
value_double_type = 7

abbrev pub value_string_type : ℕ
value_string_type = 8

-- The four types of integers.
pub data IntType : Type 0 where
  int32 : IntType
  uint32 : IntType
  int64 : IntType
  uint64 : IntType

-- `VALUE_INT32` and so on
abbrev pub int_tag : IntType → ℕ
int_tag int32 = 2
int_tag uint32 = 3
int_tag int64 = 4
int_tag uint64 = 5

-- `sizeof`
abbrev pub int_size : IntType → ℕ
int_size int32 = 4
int_size uint32 = 4
int_size int64 = 8
int_size uint64 = 8

-- `memcpy` to a buffer of at least the size.
abbrev pub copy_to : List ℕ → List ℕ → List ℕ
copy_to bytes buffer = bytes ++ drop (length bytes) buffer

abbrev pub is_malloced : Value → Bool
is_malloced v = not (bit_and v.tag 0x80 == 0)

-- `value_type`
unfoldable pub value_type : Option Value → ℕ
value_type none = value_null
value_type (some v) = bit_and v.tag 0x0f

-- `value_payload`, of a value
unfoldable pub value_payload : Value → List ℕ
value_payload v = if is_malloced v then v.block else v.inline

-- The bytes of an integer in memory, and back.
unfoldable pub to_bytes : ℕ → ℕ → List ℕ
to_bytes zero n = []
to_bytes (suc size) n = n % 256 ∷ to_bytes size (n / 256)

unfoldable pub from_bytes : ℕ → List ℕ → ℕ
from_bytes zero bytes = 0
from_bytes (suc size) [] = 0
from_bytes (suc size) (b ∷ bytes) = let rest = from_bytes size bytes in b + 256 * rest

-- The bytes of a length, seven bits each, lowest first; `fuel` for one round more than there are
-- bytes to follow.
unfoldable pub length_bytes : ℕ → ℕ → List ℕ
length_bytes zero tmplen = bit_and tmplen 0x7f ∷ []
length_bytes (suc fuel) tmplen =
    let rest = length_bytes fuel (tmplen / 2 ^ 7) in
    if leb 128 tmplen then bit_or 0x80 (bit_and tmplen 0x7f) ∷ rest else bit_and tmplen 0x7f ∷ []

module _ (malloc : ℕ → Option (List ℕ)) where
  -- `value_init` and the writing of its payload, of which all bytes are written.
  unfoldable pub value_init_simple : ℕ → List ℕ → Value → Status × Value
  value_init_simple type bytes v =
      if leb (length bytes + 1) 16
      then (ok, record { tag = type; inline = copy_to bytes v.inline; block = v.block })
      else (elim (malloc (length bytes)) [
        | none ↦ (failed, record v { tag = value_null })
        | some block ↦
            (ok, record { tag = bit_or type 0x80; inline = v.inline; block = copy_to bytes block })
      ])

  -- `value_init_int32`, `value_init_uint32`, `value_init_int64` and `value_init_uint64`
  unfoldable pub value_init_int : IntType → ℕ → Option Value → Status × Option Value
  unfolding value_init_simple to_bytes
  value_init_int type i none = (failed, none)
  value_init_int type i (some v) =
      let (status, v') = value_init_simple (int_tag type) (to_bytes (int_size type) i) v in
      (status, some v')

  -- `value_init_string_`
  unfoldable pub value_init_string_ : List ℕ → Option Value → Status × Option Value
  unfolding value_init_simple length_bytes
  value_init_string_ str none = (failed, none)
  value_init_string_ str (some v) =
      let (status, v') =
        value_init_simple value_string_type (length_bytes 9 (length str) ++ (str ++ (0 ∷ []))) v in
      (status, some v')

-- `value_init_null`
unfoldable pub value_init_null : Option Value → Option Value
value_init_null none = none
value_init_null (some v) = some (record v { tag = value_null })

-- `value_init_bool`
unfoldable pub value_init_bool : ℕ → Option Value → Status × Option Value
value_init_bool b none = (failed, none)
value_init_bool b (some v) = (
  ok,
  some (record v {
    tag = value_bool_type;
    inline = copy_to ((if b == 0 then 0 else 1) ∷ []) v.inline;
  }),
)

-- The loop of `value_string`: the payload behind the bytes of the length.
unfoldable pub skip_length : List ℕ → List ℕ
skip_length [] = []
skip_length (b ∷ payload) =
    let rest = skip_length payload in if bit_and b 0x80 == 0 then payload else rest

-- `value_string`, with all that stands in the payload from there on.
unfoldable pub value_string : Option Value → Option (List ℕ)
unfolding value_type value_payload skip_length
value_string none = none
value_string (some v) =
    if value_type (some v) == value_string_type then some (skip_length (value_payload v)) else none

-- A shift of `int`, if it is defined.
abbrev pub shift_int : ℕ → ℕ → Option ℕ
shift_int x shift =
    if ltb shift 32 && ltb (x * 2 ^ shift) (2 ^ 31) then some (x * 2 ^ shift) else none

-- The loop of `value_string_length`, where `none` stands for a shift that is not defined.
unfoldable pub read_length : ℕ → ℕ → List ℕ → Option ℕ
read_length len shift [] = none
read_length len shift (b ∷ payload) =
    if bit_and b 0x80 == 0 then (do part ← shift_int b shift; some (bit_or len part)) else (do
      part ← shift_int (bit_and b 0x7f) shift
      read_length (bit_or len part) (shift + 7) payload)

-- `value_string_length`
unfoldable pub value_string_length : Option Value → Option ℕ
unfolding value_type value_payload read_length
value_string_length none = some 0
value_string_length (some v) =
    if value_type (some v) == value_string_type then read_length 0 0 (value_payload v) else some 0

-- An integer of one type as one of another: its bits extended by its sign, or cut off.
abbrev pub is_signed : IntType → Bool
is_signed int32 = true
is_signed uint32 = false
is_signed int64 = true
is_signed uint64 = false

abbrev pub modulus : IntType → ℕ
modulus int32 = 2 ^ 32
modulus uint32 = 2 ^ 32
modulus int64 = 2 ^ 64
modulus uint64 = 2 ^ 64

unfoldable pub cast : IntType → IntType → ℕ → ℕ
cast from to i =
    (if is_signed from && leb (modulus from / 2) i then i + (2 ^ 64 - modulus from) else i)
    % modulus to

-- The type of a tag.
unfoldable pub int_type_of : ℕ → Option IntType
int_type_of tag =
    if tag == 2
    then some int32
    else if tag == 3
    then some uint32
    else if tag == 4
    then some int64
    else if tag == 5
    then some uint64
    else none

module _ (round_float round_double : IntType → List ℕ → ℕ) where
  -- `value_int32`, `value_uint32`, `value_int64` and `value_uint64`
  unfoldable pub value_int : IntType → Option Value → ℕ
  unfolding value_type value_payload int_type_of from_bytes cast
  value_int to none = modulus to - 1
  value_int to (some v) = elim (int_type_of (value_type (some v))) [
    | some from ↦ cast from to (from_bytes (int_size from) (value_payload v))
    | none ↦
        if value_type (some v) == value_float_type
        then round_float to (take 4 (value_payload v))
        else if value_type (some v) == value_double_type
        then round_double to (take 8 (value_payload v))
        else modulus to - 1
  ]

-- The comparisons of `value_is_compatible` for a value of the integer type `from` that is `i`.
unfoldable pub int_compatible : IntType → IntType → ℕ → Bool
int_compatible int32 int32 i = true
int_compatible int32 uint32 i = ltb i (2 ^ 31)
int_compatible int32 int64 i = true
int_compatible int32 uint64 i = ltb i (2 ^ 31)
int_compatible uint32 int32 i = ltb i (2 ^ 31)
int_compatible uint32 uint32 i = true
int_compatible uint32 int64 i = true
int_compatible uint32 uint64 i = true
int_compatible int64 int32 i = ltb i (2 ^ 31) || leb (2 ^ 64 - 2 ^ 31) i
int_compatible int64 uint32 i = ltb i (2 ^ 32)
int_compatible int64 int64 i = true
int_compatible int64 uint64 i = ltb i (2 ^ 63)
int_compatible uint64 int32 i = ltb i (2 ^ 31)
int_compatible uint64 uint32 i = ltb i (2 ^ 32)
int_compatible uint64 int64 i = ltb i (2 ^ 63)
int_compatible uint64 uint64 i = true

-- `value_is_compatible` for a value of an integer type and an integer type.
unfoldable pub value_is_compatible : Option Value → IntType → Bool
unfolding value_type value_payload int_type_of from_bytes int_compatible
value_is_compatible none to = false
value_is_compatible (some v) to = elim (int_type_of (value_type (some v))) [
  | none ↦ false
  | some from ↦ int_compatible from to (from_bytes (int_size from) (value_payload v))
]
