-- ===== src/Value/Integers.antt =====
-- data/value.c: an integer that is compatible with another type is the same number in it.
use c_reusables.Prelude.{
  ℕ, ◌-◌, ◌/◌, ◌≤◌, ◌<◌, ◌≡◌, refl, sym, ◌∙◌, ap, true, ◌&&◌, Option, some, List, leb,
  if◌then◌else◌, ok, arith,
}
use c_reusables.Value.{
  Value, IntType, int32, uint32, int64, uint64, int_tag, int_size, is_signed, modulus, cast,
  int_type_of, value_type, value_payload, to_bytes, from_bytes, value_init_simple, value_init_int,
  value_int, int_compatible, value_is_compatible,
}
use c_reusables.Value.Bytes.{
  bound, from_bytes-to_bytes, length-to_bytes, Holds, value_init_simple_small,
}

pub data ℤ : Type 0 where
  pos : ℕ → ℤ
  negsuc : ℕ → ℤ

-- The number that the bits of a type stand for.
abbrev pub meaning : IntType → ℕ → ℤ
meaning type i =
    if is_signed type && leb (modulus type / 2) i then negsuc (modulus type - 1 - i) else pos i

cast_exact :
    (from to : IntType) (i : ℕ)
    → i < modulus from
    → int_compatible from to i ≡ true
    → meaning to (cast from to i) ≡ meaning from i
unfolding cast int_compatible
cast_exact int32 int32 i l c = ground arith
cast_exact int32 uint32 i l c = ground arith
cast_exact int32 int64 i l c = ground arith
cast_exact int32 uint64 i l c = ground arith
cast_exact uint32 int32 i l c = ground arith
cast_exact uint32 uint32 i l c = ground arith
cast_exact uint32 int64 i l c = ground arith
cast_exact uint32 uint64 i l c = ground arith
cast_exact int64 int32 i l c = ground arith
cast_exact int64 uint32 i l c = ground arith
cast_exact int64 int64 i l c = ground arith
cast_exact int64 uint64 i l c = ground arith
cast_exact uint64 int32 i l c = ground arith
cast_exact uint64 uint32 i l c = ground arith
cast_exact uint64 int64 i l c = ground arith
cast_exact uint64 uint64 i l c = ground arith

tag_small : (type : IntType) → int_tag type < 16
tag_small int32 = omega arith
tag_small uint32 = omega arith
tag_small int64 = omega arith
tag_small uint64 = omega arith

size_small : (type : IntType) → int_size type ≤ 15
size_small int32 = omega arith
size_small uint32 = omega arith
size_small int64 = omega arith
size_small uint64 = omega arith

bounded : (type : IntType) (i : ℕ) → i < modulus type → i < bound (int_size type)
bounded int32 i l = omega arith
bounded uint32 i l = omega arith
bounded int64 i l = omega arith
bounded uint64 i l = omega arith

int_type_of_tag : (type : IntType) → int_type_of (int_tag type) ≡ some type
unfolding int_type_of
int_type_of_tag int32 = refl
int_type_of_tag uint32 = refl
int_type_of_tag int64 = refl
int_type_of_tag uint64 = refl

-- The integer that a value holds is read from its payload.
held_int :
    (type : IntType) (i : ℕ) (v : Value)
    → i < modulus type
    → Holds (int_tag type) (to_bytes (int_size type) i) v
    → from_bytes (int_size type) (value_payload v) ≡ i
held_int type i v l h =
    ap (from_bytes (int_size type)) h.payload
    ∙ from_bytes-to_bytes (int_size type) i h.rest (bounded type i l)

held_type :
    (type : IntType) (i : ℕ) (v : Value)
    → Holds (int_tag type) (to_bytes (int_size type) i) v
    → int_type_of (value_type (some v)) ≡ some type
held_type type i v h = ap int_type_of h.typed ∙ int_type_of_tag type

module _ (round_float round_double : IntType → List ℕ → ℕ) where
  value_int_held :
      (from to : IntType) (i : ℕ) (v : Value)
      → i < modulus from
      → Holds (int_tag from) (to_bytes (int_size from) i) v
      → value_int round_float round_double to (some v) ≡ cast from to i
  unfolding value_int
  value_int_held from to i v l h =
      rw (value_int, held_type from i v h) (ap (cast from to) (held_int from i v l h))

compatible_held :
    (from to : IntType) (i : ℕ) (v : Value)
    → i < modulus from
    → Holds (int_tag from) (to_bytes (int_size from) i) v
    → value_is_compatible (some v) to ≡ int_compatible from to i
unfolding value_is_compatible
compatible_held from to i v l h =
    rw (value_is_compatible, held_type from i v h)
      (ap (int_compatible from to) (held_int from i v l h))

-- An integer of one of the four types, stored in any value, is stored without malloc, and read as
-- any of the types that `value_is_compatible` accepts for the value it is the same number.
pub value_int_exact :
    (malloc : ℕ → Option (List ℕ)) (round_float round_double : IntType → List ℕ → ℕ)
    (from to : IntType) (i : ℕ) (v : Value)
    → i < modulus from
    → value_is_compatible ((value_init_int malloc from i (some v)).1) to ≡ true
    → ((value_init_int malloc from i (some v)).0 ≡ ok)
      × (meaning to
            (value_int round_float round_double to ((value_init_int malloc from i (some v)).1))
          ≡ meaning from i)
unfolding value_init_int
value_int_exact malloc round_float round_double from to i v l c =
    let (status, h) =
      value_init_simple_small malloc (int_tag from) (to_bytes (int_size from) i) v (tag_small from)
        (omega (arith, length-to_bytes (int_size from) i, size_small from)) in
    let v' = (value_init_simple malloc (int_tag from) (to_bytes (int_size from) i) v).1 in
    (
      status,
      ap (meaning to) (value_int_held round_float round_double from to i v' l h)
          ∙ cast_exact from to i l (sym (compatible_held from to i v' l h) ∙ c),
    )
