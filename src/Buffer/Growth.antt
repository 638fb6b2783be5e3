-- ===== src/Buffer/Growth.antt =====
-- data/buffer.c: `buffer_good_alloc_size` ends, and gives what was asked for.
use c_reusables.Prelude.{
  ℕ, zero, suc, ◌+◌, ◌-◌, ◌*◌, ◌^◌, ◌≤◌, ◌<◌, ◌≡◌, refl, true, false, Option, none, some, ltb, leb,
  if◌then◌else◌, Bool-cases, inl, inr, arith, ◌>>=◌,
}
use native.Mathlib.Nat.{pow-succ', mul_assoc, mod-eq_of_lt}
use c_reusables.Buffer.{wrap, double_up, good_alloc_size}

pub wrap_small : (x : ℕ) → x < 2 ^ 64 → wrap x ≡ x
wrap_small x h = mod-eq_of_lt h

pub wrap_back : (x s : ℕ) → s ≤ x → x < 2 ^ 64 → s < 2 ^ 64 → wrap (x + (2 ^ 64 - s)) ≡ x - s
wrap_back x s h l k = omega arith

-- The loop's test, without the wrap-around.
short_by :
    (slack requested good : ℕ)
    → slack ≤ good
    → good < 2 ^ 64
    → ltb (wrap (good + (2 ^ 64 - slack))) requested ≡ true
    → slack ≤ 2 ^ 62
    → good < requested + slack
short_by slack requested good low small e k =
    let e' : ltb (good - slack) requested ≡ true =
      rw (← wrap_back good slack low small (omega arith)) e in
    ground arith

large_by :
    (slack requested good : ℕ)
    → slack ≤ good
    → good < 2 ^ 64
    → ltb (wrap (good + (2 ^ 64 - slack))) requested ≡ false
    → slack ≤ 2 ^ 62
    → requested + slack ≤ good
large_by slack requested good low small e k =
    let e' : ltb (good - slack) requested ≡ false =
      rw (← wrap_back good slack low small (omega arith)) e in
    ground arith

-- A size that is large enough, and no larger than a size in memory.
pub record IsEnough (slack requested : ℕ) (o : Option ℕ) : Type 0 where
  pub good : ℕ
  pub found : o ≡ some good
  pub covers : requested + slack ≤ good
  pub fits : good < 2 ^ 64

ended :
    (slack requested good : ℕ)
    → slack ≤ good
    → good < 2 ^ 64
    → slack ≤ 2 ^ 62
    → ltb (wrap (good + (2 ^ 64 - slack))) requested ≡ false
    → IsEnough slack requested (some good)
ended slack requested good low small k enough = record {
  good = good;
  found = refl;
  covers = large_by slack requested good low small enough k;
  fits = small;
}

-- The loop ends at such a size, if its fuel reaches that far.
pub double_up-IsEnough :
    (fuel slack requested good : ℕ)
    → slack ≤ good
    → good < 2 ^ 64
    → requested + slack ≤ 2 ^ 62
    → requested + slack ≤ good * 2 ^ fuel
    → IsEnough slack requested (double_up (suc fuel) slack requested good)
unfolding double_up
double_up-IsEnough zero slack requested good low small bound reach =
    elim (Bool-cases (ltb (wrap (good + (2 ^ 64 - slack))) requested)) [
      | inl short ↦
          absurd (omega (arith, short_by slack requested good low small short (omega arith)))
      | inr enough ↦
          rw (enough, if◌then◌else◌) (ended slack requested good low small (omega arith) enough)
    ]
double_up-IsEnough (suc f) slack requested good low small bound reach =
    elim (Bool-cases (ltb (wrap (good + (2 ^ 64 - slack))) requested)) [
      | inl short ↦
          let below = short_by slack requested good low small short (omega arith) in
          rw (short, wrap_small (good * 2) (omega arith), if◌then◌else◌)
            (double_up-IsEnough f slack requested (good * 2) (omega arith) (omega arith) bound
              (rw (mul_assoc good 2 (2 ^ f), ← pow-succ' 2 f) reach))
      | inr enough ↦
          rw (enough, if◌then◌else◌) (ended slack requested good low small (omega arith) enough)
    ]

less_slack :
    (requested : ℕ) (o : Option ℕ)
    → IsEnough 32 requested o
    → IsEnough 0 requested (do good ← o; some (wrap (good + (2 ^ 64 - 32))))
less_slack requested none e = absurd (ground (arith, e.found))
less_slack requested (some g) e =
    let same : g ≡ e.good = ground (arith, e.found) in
    record {
      good = wrap (g + (2 ^ 64 - 32));
      found = refl;
      covers =
          rw (wrap_back g 32 (omega (arith, e.covers)) (omega (arith, e.fits)) (omega arith))
            (omega (arith, e.covers));
      fits =
          rw (wrap_back g 32 (omega (arith, e.covers)) (omega (arith, e.fits)) (omega arith))
            (omega (arith, e.fits));
    }

-- For a request of at most 2 ^ 61 bytes the size is found, is at least what was asked for, and is
-- less than 2 ^ 64.
pub good_alloc_size-IsEnough :
    (requested : ℕ) → requested ≤ 2 ^ 61 → IsEnough 0 requested (good_alloc_size requested)
unfolding good_alloc_size
good_alloc_size-IsEnough requested bound = elim (Bool-cases (leb requested 256)) [
  | inl small ↦
      rw (small, if◌then◌else◌)
        (double_up-IsEnough 63 0 requested 16 (omega arith) (omega arith) (omega arith)
          (omega arith))
  | inr large ↦
      rw (large, if◌then◌else◌)
        (less_slack requested _ (
          double_up-IsEnough 63 32 requested 512 (omega arith) (omega arith) (omega arith)
            (omega arith)))
]
