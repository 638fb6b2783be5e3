-- ===== src/Tests/Value.antt =====
-- Values at concrete inputs.
use c_reusables.Prelude.{
  ℕ, ◌-◌, ◌≡◌, ◌^◌, refl, true, Option, none, some, List, [], ◌∷◌, replicate, ok, arith, memmove,
  overlay,
}
use c_reusables.Value.{
  Value, int32, int64, value_init_int, value_int, value_is_compatible, value_init_string_,
  value_string_length, value_type, value_payload, from_bytes, to_bytes, int_type_of, int_compatible,
  value_init_simple, length_bytes, read_length,
}
use c_reusables.Value.Integers.{meaning, value_int_exact}
use c_reusables.Value.Strings.{StringAnswer, value_string_back}
use c_reusables.Value.Arrays.{ValueArray, value_array_remove_range, close_range, shrink_array}
use c_reusables.Value.Arrays.Range.{IsRemoved, value_array_remove_range_removes}

abbrev granting : ℕ → Option (List ℕ)
granting n = some (replicate n 0)

abbrev blank : Value
blank = record { tag = 0; inline = replicate 15 0; block = [] }

-- A string of 300 bytes has a length of two bytes.
length_run :
    value_string_length ((value_init_string_ granting (replicate 300 65) (some blank)).1) ≡ some 300
unfolding value_init_string_ value_init_simple length_bytes value_string_length value_type
    value_payload read_length
length_run = refl

-- -1 as an int64_t.
value_int_exact_example :
    ((value_init_int granting int32 (2 ^ 32 - 1) (some blank)).0 ≡ ok)
    × (meaning int64 (
          value_int
            (λ t b. 0)
            (λ t b. 0)
            int64
            ((value_init_int granting int32 (2 ^ 32 - 1) (some blank)).1))
        ≡ meaning int32 (2 ^ 32 - 1))
unfolding value_init_int value_init_simple to_bytes value_is_compatible value_type value_payload
    int_type_of from_bytes int_compatible
value_int_exact_example =
    value_int_exact granting (λ t b. 0) (λ t b. 0) int32 int64 (2 ^ 32 - 1) blank (omega arith) refl

value_string_back_example :
    StringAnswer granting (72 ∷ 105 ∷ []) (value_init_string_ granting (72 ∷ 105 ∷ []) (some blank))
value_string_back_example = value_string_back granting (72 ∷ 105 ∷ []) blank (omega arith)

abbrev three_values : ValueArray ℕ
three_values = record { value_buf = some 1 ∷ some 2 ∷ some 3 ∷ none ∷ []; size = 3; alloc = 4 }

-- A count near the largest size_t wraps around: the values are moved behind the block.
wrapped_run : value_array_remove_range true 2 (2 ^ 64 - 2) three_values ≡ none
unfolding value_array_remove_range close_range shrink_array memmove overlay
wrapped_run = refl

value_array_remove_range_removes_example :
    IsRemoved 0 2 three_values (value_array_remove_range true 0 2 three_values)
value_array_remove_range_removes_example =
    value_array_remove_range_removes true 0 2 three_values
      (record { allocated = refl; within = omega arith }) (omega arith) (omega arith)
