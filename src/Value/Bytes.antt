-- ===== src/Value/Bytes.antt =====
-- data/value.c: the payload that `value_init` and a copy to it leave.
use Prim.Native.Nat.{bit_or, bit_and}
use c_reusables.Prelude.{
  ℕ, zero, suc, ◌+◌, ◌*◌, ◌/◌, ◌≤◌, ◌<◌, ◌≡◌, ◌⊎◌, inl, inr, refl, ap, Bool, true, false, not, ◌&&◌,
  Option, none, some, List, ◌++◌, leb, ◌==◌, ==_iff, if◌then◌else◌, length, drop, Bool-cases,
  all_below, below_all, Status, ok, failed, arith,
}
use c_reusables.Value.{
  Value, value_null, value_type, value_payload, copy_to, to_bytes, from_bytes, value_init_simple,
}

-- 256 to the power of a size
abbrev pub bound : ℕ → ℕ
bound zero = 1
bound (suc size) = 256 * bound size

pub from_bytes-to_bytes :
    (size n : ℕ) (rest : List ℕ) → n < bound size → from_bytes size (to_bytes size n ++ rest) ≡ n
unfolding from_bytes to_bytes
from_bytes-to_bytes zero n rest l = omega arith
from_bytes-to_bytes (suc size) n rest l =
    omega (arith, from_bytes-to_bytes size (n / 256) rest (omega arith))

pub length-to_bytes : (size n : ℕ) → length (to_bytes size n) ≡ size
unfolding to_bytes
length-to_bytes zero n = refl
length-to_bytes (suc size) n = ap suc (length-to_bytes size (n / 256))

tag_works : ℕ → Bool
tag_works t =
    ((bit_and t 0x80 == 0) && (bit_and t 0x0f == t))
    && (not (bit_and (bit_or t 0x80) 0x80 == 0) && (bit_and (bit_or t 0x80) 0x0f == t))

tags_work : all_below 16 tag_works ≡ true
unfolding all_below tag_works
tags_work = refl

and_split : (a b : Bool) → (a && b) ≡ true → (a ≡ true) × (b ≡ true)
and_split true b e = (refl, e)
and_split false b e = absurd (ground (arith, e))

-- A value with a type and a payload.
pub record Holds (type : ℕ) (bytes : List ℕ) (v : Value) : Type 0 where
  pub typed : value_type (some v) ≡ type
  pub rest : List ℕ
  pub payload : value_payload v ≡ bytes ++ rest

inline_kept :
    (type : ℕ) (bytes rest block : List ℕ)
    → type < 16
    → Holds type bytes (record { tag = type; inline = bytes ++ rest; block = block })
unfolding value_type value_payload tag_works
inline_kept type bytes rest block l =
    let (flags, _) =
      and_split ((bit_and type 0x80 == 0) && (bit_and type 0x0f == type))
        ((not (bit_and (bit_or type 0x80) 0x80 == 0)) && (bit_and (bit_or type 0x80) 0x0f == type))
        (below_all 16 tag_works type tags_work l) in
    let (flag, same) = and_split (bit_and type 0x80 == 0) (bit_and type 0x0f == type) flags in
    record { typed = (==_iff _ _).0 same; rest = rest; payload = rw (flag, if◌then◌else◌) refl }

block_kept :
    (type : ℕ) (bytes rest inline : List ℕ)
    → type < 16
    → Holds type bytes (record { tag = bit_or type 0x80; inline = inline; block = bytes ++ rest })
unfolding value_type value_payload tag_works
block_kept type bytes rest inline l =
    let (_, flags) =
      and_split ((bit_and type 0x80 == 0) && (bit_and type 0x0f == type))
        ((not (bit_and (bit_or type 0x80) 0x80 == 0)) && (bit_and (bit_or type 0x80) 0x0f == type))
        (below_all 16 tag_works type tags_work l) in
    let (flag, same) =
      and_split (not (bit_and (bit_or type 0x80) 0x80 == 0))
        (bit_and (bit_or type 0x80) 0x0f == type) flags in
    record { typed = (==_iff _ _).0 same; rest = rest; payload = rw (flag, if◌then◌else◌) refl }

null_type : (v : Value) → value_type (some (record v { tag = value_null })) ≡ value_null
unfolding value_type
null_type v = refl

-- Either the value holds the bytes, or malloc has failed and the value is null.
abbrev pub Stored : (ℕ → Option (List ℕ)) → ℕ → List ℕ → Status × Value → Type 0
Stored malloc type bytes r =
    ((r.0 ≡ ok) × Holds type bytes (r.1))
    ⊎ ((r.0 ≡ failed) × (value_type (some (r.1)) ≡ value_null) × (malloc (length bytes) ≡ none))

pub value_init_simple-Stored :
    (malloc : ℕ → Option (List ℕ)) (type : ℕ) (bytes : List ℕ) (v : Value)
    → type < 16
    → Stored malloc type bytes (value_init_simple malloc type bytes v)
unfolding value_init_simple
value_init_simple-Stored malloc type bytes v l = elim (Bool-cases (leb (length bytes + 1) 16)) [
  | inl e ↦
      rw (value_init_simple, e, if◌then◌else◌)
        (inl (refl, inline_kept type bytes (drop (length bytes) v.inline) v.block l))
  | inr e ↦ rw (value_init_simple, e, if◌then◌else◌) (by_malloc (malloc (length bytes)) refl)
]
  where
    by_malloc :
        (m : Option (List ℕ))
        → malloc (length bytes) ≡ m
        → Stored malloc type bytes (elim m [
          | none ↦ (failed, record v { tag = value_null })
          | some block ↦ (
            ok,
            record { tag = bit_or type 0x80; inline = v.inline; block = copy_to bytes block },
          )
        ])
    by_malloc none e = inr (refl, null_type v, e)
    by_malloc (some block) e =
        inl (refl, block_kept type bytes (drop (length bytes) block) v.inline l)

-- Up to 15 bytes need no block.
pub value_init_simple_small :
    (malloc : ℕ → Option (List ℕ)) (type : ℕ) (bytes : List ℕ) (v : Value)
    → type < 16
    → length bytes ≤ 15
    → ((value_init_simple malloc type bytes v).0 ≡ ok)
      × Holds type bytes ((value_init_simple malloc type bytes v).1)
unfolding value_init_simple
value_init_simple_small malloc type bytes v l h =
    let e : leb (length bytes + 1) 16 ≡ true = ground (arith, h) in
    rw (value_init_simple, e, if◌then◌else◌)
      (refl, inline_kept type bytes (drop (length bytes) v.inline) v.block l)
