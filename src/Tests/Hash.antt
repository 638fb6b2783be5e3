-- ===== src/Tests/Hash.antt =====
-- hash/, on short data.
use c_reusables.Prelude.{◌≡◌, refl, [], ◌∷◌, get_or, arith}
use c_reusables.Hash.Fnv1a.{fnv1a_32, fnv1a_64}
use c_reusables.Hash.Crc32.{crc32, crc32_loop, crc32_table, build_entry, table-build_entry}

-- The check value of the checksum, of the digits from 1 to 9.
crc32_run : crc32 (49 ∷ 50 ∷ 51 ∷ 52 ∷ 53 ∷ 54 ∷ 55 ∷ 56 ∷ 57 ∷ []) ≡ 0xcbf43926
unfolding crc32 crc32_loop
crc32_run = refl

-- The letter a.
fnv1a_run :
    (fnv1a_32 2166136261 (97 ∷ []) ≡ 0xe40c292c)
    × (fnv1a_64 14695981039346656037 (97 ∷ []) ≡ 0xaf63dc4c8601ec8c)
unfolding fnv1a_32 fnv1a_64
fnv1a_run = (refl, refl)

table-build_entry_example : get_or crc32_table 200 0 ≡ build_entry 200
table-build_entry_example = table-build_entry 200 (omega arith)
