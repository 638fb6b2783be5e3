-- ===== src/Value/Strings.antt =====
-- data/value.c: a string is read back with its length.
use Prim.Native.Nat.{bit_or, bit_and}
use c_reusables.Prelude.{
  ℕ, zero, suc, ◌+◌, ◌*◌, ◌/◌, ◌%◌, ◌^◌, ◌≤◌, ◌<◌, ◌≡◌, ◌⊎◌, inl, inr, refl, ◌∙◌, ap, Bool, true,
  false, not, ◌&&◌, Option, none, some, List, [], ◌∷◌, ◌++◌, append_assoc, lt→ltb, leb, ◌==◌,
  ==_iff, if◌then◌else◌, length, Bool-cases, all_below, below_all, bit_and-shifted, bit_or-low,
  Status, ok, failed, ◌>>=◌, arith,
}
use c_reusables.Value.{
  Value, value_null, value_string_type, value_type, value_payload, value_init_simple, length_bytes,
  value_init_string_, skip_length, shift_int, value_string, read_length, value_string_length,
}
use c_reusables.Value.Bytes.{Holds, Stored, value_init_simple-Stored}

low_seven : (n : ℕ) → bit_and n 0x7f ≡ n % 128
low_seven n = bit_and-shifted 7 n 0x7f (n / 128) (n % 128) (omega arith) (omega arith) refl

byte_works : ℕ → Bool
byte_works b =
    (bit_and b 0x80 == 0)
    && (not (bit_and (bit_or 0x80 b) 0x80 == 0) && (bit_and (bit_or 0x80 b) 0x7f == b))

bytes_work : all_below 128 byte_works ≡ true
unfolding all_below byte_works
bytes_work = refl

-- The last byte of a length, and one that is followed.
record Byte (b : ℕ) : Type 0 where
  last : (bit_and b 0x80 == 0) ≡ true
  followed : (bit_and (bit_or 0x80 b) 0x80 == 0) ≡ false
  bits : bit_and (bit_or 0x80 b) 0x7f ≡ b

byte_cases : (x y z : Bool) → (x && (not y && z)) ≡ true → (x ≡ true) × (y ≡ false) × (z ≡ true)
byte_cases true false z e = (refl, refl, e)
byte_cases true true z e = absurd (ground (arith, e))
byte_cases false y z e = absurd (ground (arith, e))

byte_lem : (b : ℕ) → b < 128 → Byte b
unfolding byte_works
byte_lem b l =
    let (x, y, z) =
      byte_cases (bit_and b 0x80 == 0) (bit_and (bit_or 0x80 b) 0x80 == 0)
        (bit_and (bit_or 0x80 b) 0x7f == b) (below_all 128 byte_works b bytes_work l) in
    record { last = x; followed = y; bits = (==_iff _ _).0 z }

length_bytes_end : (fuel n : ℕ) → n < 128 → length_bytes fuel n ≡ n ∷ []
unfolding length_bytes
length_bytes_end zero n l = ap (λ b. b ∷ []) (low_seven n ∙ omega arith)
length_bytes_end (suc fuel) n l =
    let e : leb 128 n ≡ false = ground arith in
    rw (e, if◌then◌else◌) (ap (λ b. b ∷ []) (low_seven n ∙ omega arith))

length_bytes_more :
    (fuel n : ℕ)
    → 128 ≤ n
    → length_bytes (suc fuel) n ≡ bit_or 0x80 (n % 128) ∷ length_bytes fuel (n / 2 ^ 7)
unfolding length_bytes
length_bytes_more fuel n l =
    let e : leb 128 n ≡ true = ground arith in
    rw (e, if◌then◌else◌) (ap (λ b. bit_or 0x80 b ∷ length_bytes fuel (n / 2 ^ 7)) (low_seven n))

skip_length-length_bytes :
    (fuel n : ℕ) (rest : List ℕ) → skip_length (length_bytes fuel n ++ rest) ≡ rest
unfolding skip_length length_bytes
skip_length-length_bytes zero n rest =
    rw (low_seven n) (rw ((byte_lem (n % 128) (omega arith)).last, if◌then◌else◌) refl)
skip_length-length_bytes (suc fuel) n rest = elim (Bool-cases (leb 128 n)) [
  | inr e ↦
      let l : n < 128 = ground (arith, e) in
      rw (length_bytes_end (suc fuel) n l) (rw ((byte_lem n l).last, if◌then◌else◌) refl)
  | inl e ↦ rw (length_bytes_more fuel n (ground (arith, e))) (
      rw ((byte_lem (n % 128) (omega arith)).followed, if◌then◌else◌)
        (skip_length-length_bytes fuel (n / 2 ^ 7) rest))
]

shift_int-some :
    (x shift : ℕ) → shift < 32 → x * 2 ^ shift < 2 ^ 31 → shift_int x shift ≡ some (x * 2 ^ shift)
shift_int-some x shift s h =
    rw (lt→ltb _ _ s, if◌then◌else◌) (rw (lt→ltb _ _ h, if◌then◌else◌) refl)

read_end :
    (len shift fuel n : ℕ) (rest : List ℕ)
    → shift < 32
    → n < 128
    → n * 2 ^ shift < 2 ^ 31
    → read_length len shift (length_bytes fuel n ++ rest) ≡ some (bit_or len (n * 2 ^ shift))
unfolding read_length
read_end len shift fuel n rest s l h = rw (length_bytes_end fuel n l) (
    rw ((byte_lem n l).last, if◌then◌else◌)
      (ap (λ o. do part ← o; some (bit_or len part)) (shift_int-some n shift s h)))

read_more :
    (len shift fuel n : ℕ) (rest : List ℕ)
    → shift < 32
    → 128 ≤ n
    → n % 128 * 2 ^ shift < 2 ^ 31
    → read_length len shift (length_bytes (suc fuel) n ++ rest)
      ≡ read_length
          (bit_or len (n % 128 * 2 ^ shift))
          (shift + 7)
          (length_bytes fuel (n / 2 ^ 7) ++ rest)
unfolding read_length
read_more len shift fuel n rest s l h =
    let b = byte_lem (n % 128) (omega arith) in
    rw (length_bytes_more fuel n l) (
      rw (b.followed, if◌then◌else◌)
        (ap
          (λ o. do
            part ← o
            read_length (bit_or len part) (shift + 7) (length_bytes fuel (n / 2 ^ 7) ++ rest))
          (ap (λ x. shift_int x shift) (b.bits) ∙ shift_int-some (n % 128) shift s h)))

-- The five bytes that a length below 2 ^ 31 can have, the last first; each adds its seven bits.
read_28 :
    (len fuel n : ℕ) (rest : List ℕ)
    → len < 2 ^ 28
    → n < 8
    → read_length len 28 (length_bytes fuel n ++ rest) ≡ some (len + n * 2 ^ 28)
read_28 len fuel n rest l h =
    read_end len 28 fuel n rest (omega arith) (omega arith) (omega arith)
    ∙ ap some (bit_or-low 28 (n * 2 ^ 28) n len (omega arith) (omega arith))

read_21 :
    (len fuel n : ℕ) (rest : List ℕ)
    → len < 2 ^ 21
    → n < 2 ^ 10
    → read_length len 21 (length_bytes (suc fuel) n ++ rest) ≡ some (len + n * 2 ^ 21)
read_21 len fuel n rest l h = elim (Bool-cases (leb 128 n)) [
  | inr e ↦
      read_end len 21 (suc fuel) n rest (omega arith) (ground (arith, e)) (omega arith)
      ∙ ap some (bit_or-low 21 (n * 2 ^ 21) n len (omega arith) (omega arith))
  | inl e ↦
      read_more len 21 fuel n rest (omega arith) (ground (arith, e)) (omega arith)
      ∙ rw (bit_or-low 21 (n % 128 * 2 ^ 21) (n % 128) len (omega arith) (omega arith)) (
          read_28 (len + n % 128 * 2 ^ 21) fuel (n / 2 ^ 7) rest (omega arith) (omega arith)
          ∙ ap some (omega arith))
]

read_14 :
    (len fuel n : ℕ) (rest : List ℕ)
    → len < 2 ^ 14
    → n < 2 ^ 17
    → read_length len 14 (length_bytes (suc (suc fuel)) n ++ rest) ≡ some (len + n * 2 ^ 14)
read_14 len fuel n rest l h = elim (Bool-cases (leb 128 n)) [
  | inr e ↦
      read_end len 14 (suc (suc fuel)) n rest (omega arith) (ground (arith, e)) (omega arith)
      ∙ ap some (bit_or-low 14 (n * 2 ^ 14) n len (omega arith) (omega arith))
  | inl e ↦
      read_more len 14 (suc fuel) n rest (omega arith) (ground (arith, e)) (omega arith)
      ∙ rw (bit_or-low 14 (n % 128 * 2 ^ 14) (n % 128) len (omega arith) (omega arith)) (
          read_21 (len + n % 128 * 2 ^ 14) fuel (n / 2 ^ 7) rest (omega arith) (omega arith)
          ∙ ap some (omega arith))
]

read_7 :
    (len fuel n : ℕ) (rest : List ℕ)
    → len < 2 ^ 7
    → n < 2 ^ 24
    → read_length len 7 (length_bytes (suc (suc (suc fuel))) n ++ rest) ≡ some (len + n * 2 ^ 7)
read_7 len fuel n rest l h = elim (Bool-cases (leb 128 n)) [
  | inr e ↦
      read_end len 7 (suc (suc (suc fuel))) n rest (omega arith) (ground (arith, e)) (omega arith)
      ∙ ap some (bit_or-low 7 (n * 2 ^ 7) n len (omega arith) (omega arith))
  | inl e ↦
      read_more len 7 (suc (suc fuel)) n rest (omega arith) (ground (arith, e)) (omega arith)
      ∙ rw (bit_or-low 7 (n % 128 * 2 ^ 7) (n % 128) len (omega arith) (omega arith)) (
          read_14 (len + n % 128 * 2 ^ 7) fuel (n / 2 ^ 7) rest (omega arith) (omega arith)
          ∙ ap some (omega arith))
]

read_length-length_bytes :
    (n : ℕ) (rest : List ℕ) → n < 2 ^ 31 → read_length 0 0 (length_bytes 9 n ++ rest) ≡ some n
read_length-length_bytes n rest h = elim (Bool-cases (leb 128 n)) [
  | inr e ↦
      read_end 0 0 9 n rest (omega arith) (ground (arith, e)) (omega arith)
      ∙ ap some (bit_or-low 0 (n * 2 ^ 0) n 0 (omega arith) (omega arith) ∙ omega arith)
  | inl e ↦
      read_more 0 0 8 n rest (omega arith) (ground (arith, e)) (omega arith)
      ∙ rw (bit_or-low 0 (n % 128 * 2 ^ 0) (n % 128) 0 (omega arith) (omega arith)) (
          read_7 (0 + n % 128 * 2 ^ 0) 5 (n / 2 ^ 7) rest (omega arith) (omega arith)
          ∙ ap some (omega arith))
]

-- Either the string and its length are read back, or malloc has failed and the value is null.
abbrev pub StringAnswer : (ℕ → Option (List ℕ)) → List ℕ → Status × Option Value → Type 0
StringAnswer malloc str r =
    ((r.0 ≡ ok)
      × ((rest : List ℕ) × (value_string (r.1) ≡ some (str ++ (0 ∷ rest))))
      × (value_string_length (r.1) ≡ some (length str)))
    ⊎ ((r.0 ≡ failed)
        × (value_type (r.1) ≡ value_null)
        × (malloc (length (length_bytes 9 (length str) ++ (str ++ (0 ∷ [])))) ≡ none))

reassociate : (a b rest : List ℕ) → (a ++ (b ++ (0 ∷ []))) ++ rest ≡ a ++ (b ++ (0 ∷ rest))
reassociate a b rest =
    append_assoc a (b ++ (0 ∷ [])) rest ∙ ap (λ l. a ++ l) (append_assoc b (0 ∷ []) rest)

held_string :
    (str : List ℕ) (v : Value)
    → Holds value_string_type (length_bytes 9 (length str) ++ (str ++ (0 ∷ []))) v
    → (rest : List ℕ) × (value_payload v ≡ length_bytes 9 (length str) ++ (str ++ (0 ∷ rest)))
held_string str v h = (h.rest, h.payload ∙ reassociate (length_bytes 9 (length str)) str h.rest)

answer_held :
    (malloc : ℕ → Option (List ℕ)) (str : List ℕ) (r : Status × Value)
    → length str < 2 ^ 31
    → Stored malloc value_string_type (length_bytes 9 (length str) ++ (str ++ (0 ∷ []))) r
    → StringAnswer malloc str (r.0, some (r.1))
unfolding value_string value_string_length
answer_held malloc str r l (inr failure) = inr failure
answer_held malloc str r l (inl (status, h)) =
    let (rest, payload) = held_string str (r.1) h in
    let typed : (value_type (some (r.1)) == value_string_type) ≡ true = (==_iff _ _).1 h.typed in
    inl (
      status,
      (
        rest,
        rw (value_string, typed, if◌then◌else◌)
            (ap some (
              ap skip_length payload
              ∙ skip_length-length_bytes 9 (length str) (str ++ (0 ∷ rest)))),
      ),
      rw (value_string_length, typed, if◌then◌else◌)
          (ap (read_length 0 0) payload
            ∙ read_length-length_bytes (length str) (str ++ (0 ∷ rest)) l),
    )

-- A string of less than 2 ^ 31 bytes that is stored in any value is read back, with a zero behind it,
-- and so is its length; or malloc has failed for it, and the value is null.
pub value_string_back :
    (malloc : ℕ → Option (List ℕ)) (str : List ℕ) (v : Value)
    → length str < 2 ^ 31
    → StringAnswer malloc str (value_init_string_ malloc str (some v))
unfolding value_init_string_
value_string_back malloc str v l =
    answer_held malloc str
      (value_init_simple malloc value_string_type (length_bytes 9 (length str) ++ (str ++ (0 ∷ [])))
        v)
      l
      (value_init_simple-Stored malloc value_string_type
        (length_bytes 9 (length str) ++ (str ++ (0 ∷ []))) v (omega arith))
