-- ===== src/Base64/Loop.antt =====
-- encode/base64.c: the loop of `base64_decode` by the groups of its input.
use Prim.Native.Nat.{bit_or, bit_and}
use c_reusables.Prelude.{
  ℕ, ◌+◌, ◌*◌, ◌/◌, ◌%◌, ◌^◌, ◌<◌, ◌≡◌, refl, true, false, some, List, [], ◌∷◌, leb, ◌==◌,
  if◌then◌else◌, length, get_or, arith,
}
use c_reusables.Base64.{decode_two, decode_three, decode_tail, decode_loop}

-- The bytes of each four characters, and of the two or three that are left.
unfoldable pub decoded : List ℕ → List ℕ → List ℕ
decoded table [] = []
decoded table (c ∷ []) = []
decoded table (c ∷ d ∷ []) =
    let v = bit_or (get_or table c 0 * 2 ^ 18) (get_or table d 0 * 2 ^ 12) in
    bit_and (v / 2 ^ 16) 0xff ∷ []
decoded table (c ∷ d ∷ e ∷ []) =
    let v =
      bit_or (bit_or (get_or table c 0 * 2 ^ 18) (get_or table d 0 * 2 ^ 12))
        (get_or table e 0 * 2 ^ 6) in
    bit_and (v / 2 ^ 16) 0xff ∷ bit_and (v / 2 ^ 8) 0xff ∷ []
decoded table (c ∷ d ∷ e ∷ f ∷ chars) =
    let v =
      bit_or
        (bit_or (bit_or (get_or table c 0 * 2 ^ 18) (get_or table d 0 * 2 ^ 12))
          (get_or table e 0 * 2 ^ 6))
        (get_or table f 0) in
    bit_and (v / 2 ^ 16) 0xff ∷ bit_and (v / 2 ^ 8) 0xff ∷ bit_and v 0xff ∷ decoded table chars

-- Below 2 ^ 32 - 4 characters the offset does not wrap around.
pub decode_loop-decoded :
    (table chars : List ℕ) (in_off in_size : ℕ)
    → in_off + length chars ≡ in_size
    → in_size + 4 < 2 ^ 32
    → decode_loop table in_off in_size chars ≡ some (decoded table chars)
unfolding decode_loop decode_tail decode_two decode_three decoded
decode_loop-decoded table [] i n e small =
    let stop : leb ((i + 4) % 2 ^ 32) n ≡ false = ground (arith, e) in
    let not_two : ((i + 2) % 2 ^ 32 == n) ≡ false = ground (arith, e) in
    let not_three : ((i + 3) % 2 ^ 32 == n) ≡ false = ground (arith, e) in
    rw (stop, not_two, not_three, if◌then◌else◌) refl
decode_loop-decoded table (c ∷ []) i n e small =
    let stop : leb ((i + 4) % 2 ^ 32) n ≡ false = ground (arith, e) in
    let not_two : ((i + 2) % 2 ^ 32 == n) ≡ false = ground (arith, e) in
    let not_three : ((i + 3) % 2 ^ 32 == n) ≡ false = ground (arith, e) in
    rw (stop, not_two, not_three, if◌then◌else◌) refl
decode_loop-decoded table (c ∷ d ∷ []) i n e small =
    let stop : leb ((i + 4) % 2 ^ 32) n ≡ false = ground (arith, e) in
    let two : ((i + 2) % 2 ^ 32 == n) ≡ true = ground (arith, e) in
    rw (stop, two, if◌then◌else◌) refl
decode_loop-decoded table (c ∷ d ∷ g ∷ []) i n e small =
    let stop : leb ((i + 4) % 2 ^ 32) n ≡ false = ground (arith, e) in
    let not_two : ((i + 2) % 2 ^ 32 == n) ≡ false = ground (arith, e) in
    let three : ((i + 3) % 2 ^ 32 == n) ≡ true = ground (arith, e) in
    rw (stop, not_two, three, if◌then◌else◌) refl
decode_loop-decoded table (c ∷ d ∷ g ∷ f ∷ chars) i n e small =
    let more : leb ((i + 4) % 2 ^ 32) n ≡ true = ground (arith, e) in
    let rest = decode_loop-decoded table chars ((i + 4) % 2 ^ 32) n (omega (arith, e)) small in
    rw (more, if◌then◌else◌, rest) refl
