-- ===== src/CommandLine/Names.antt =====
-- misc/cmdline.c: long options and their names as texts.
use c_reusables.Prelude.{
  ℕ, suc, ◌+◌, ◌≡◌, ◌≢◌, ◌⊎◌, refl, sym, ap, ap₂, Bool, true, false, ◌&&◌, inl, inr, Option, none,
  some, List, [], ◌∷◌, ◌++◌, ◌==◌, ==_iff, if◌then◌else◌, length, take, drop, All, arith,
}
use c_reusables.CommandLine.{
  Text, CmdlineOption, optionalarg, requiredarg, compilerlike, optid_unknown, optid_missingarg,
  optid_bogusarg, has_flag, char_at, starts_with, before_assignment,
}
use c_reusables.CommandLine.Reports.{Report}

-- Characters of a name: neither the end of a text nor `=`.
abbrev pub IsName : Text → Type 0
IsName name = All (λ c. (c ≢ 0) × (c ≢ 61)) name

abbrev pub HasPlainName : Option Text → Type 0
HasPlainName none = Unit
HasPlainName (some name) = IsName name

-- An option that is not matched like those of compilers, and whose short name is no dash.
pub record IsPlain (opt : CmdlineOption) : Type 0 where
  pub regular : has_flag opt compilerlike ≡ false
  pub no_dash : opt.shortname ≢ 45
  pub plain_name : HasPlainName opt.longname

-- The first option of the long name.
abbrev pub FirstNamed : Text → List CmdlineOption → Option CmdlineOption → Type 0
FirstNamed name [] found = found ≡ none
FirstNamed name (opt ∷ options) found =
    ((opt.longname ≡ some name) × (found ≡ some opt))
    ⊎ ((opt.longname ≢ some name) × FirstNamed name options found)

abbrev pub tail_of : Option Text → Text
tail_of none = []
tail_of (some value) = 61 ∷ value

-- `--name` or `--name=value`
abbrev pub long_argument : Text → Option Text → Text
long_argument name value = 45 ∷ 45 ∷ (name ++ tail_of value)

-- What is to be reported of it for the option that is found.
abbrev pub long_report : Option CmdlineOption → Text → Option Text → Report
long_report none name none = (optid_unknown, some (45 ∷ 45 ∷ name))
long_report none name (some value) = (optid_unknown, some (take 32 (45 ∷ 45 ∷ name)))
long_report (some opt) name none =
    if has_flag opt requiredarg then (optid_missingarg, some (45 ∷ 45 ∷ name)) else (opt.id, none)
long_report (some opt) name (some value) =
    if has_flag opt (optionalarg + requiredarg)
    then (opt.id, some value)
    else (optid_bogusarg, some (take 31 (45 ∷ 45 ∷ name)))

pub starts_with_self : (name tail : Text) → starts_with (name ++ tail) name ≡ true
unfolding starts_with
starts_with_self [] [] = refl
starts_with_self [] (c ∷ tail) = refl
starts_with_self (c ∷ name) tail = let e = starts_with_self name tail in ground (arith, e)

pub char_at_end : (name tail : Text) → char_at (name ++ tail) (length name) ≡ char_at tail 0
char_at_end [] tail = refl
char_at_end (c ∷ name) tail = char_at_end name tail

and_split : (a b : Bool) → (a && b) ≡ true → (a ≡ true) × (b ≡ true)
and_split true b e = (refl, e)
and_split false b e = absurd (ground (arith, e))

-- A name that the argument starts with, and that ends where a name may end, is its name.
pub exact_name :
    (other name : Text) (value : Option Text)
    → IsName other
    → IsName name
    → starts_with (name ++ tail_of value) other ≡ true
    → (char_at (name ++ tail_of value) (length other) ≡ 0)
      ⊎ (char_at (name ++ tail_of value) (length other) ≡ 61)
    → other ≡ name
unfolding starts_with
exact_name [] [] value h k e c = refl
exact_name [] (d ∷ name) value h k e (inl c) = absurd (k.0.0 c)
exact_name [] (d ∷ name) value h k e (inr c) = absurd (k.0.1 c)
exact_name (o ∷ other) [] none h k e c = absurd (ground (arith, e))
exact_name (o ∷ other) [] (some value) h k e c =
    let (same, _) = and_split (61 == o) (starts_with value other) e in
    absurd (h.0.1 (sym ((==_iff 61 o).0 same)))
exact_name (o ∷ other) (d ∷ name) value h k e c =
    let (same, rest) = and_split (d == o) (starts_with (name ++ tail_of value) other) e in
    ap₂ (λ x (xs : Text). x ∷ xs) (sym ((==_iff d o).0 same))
      (exact_name other name value h.1 k.1 rest c)

pub before_assignment_name :
    (name : Text) (value : Option Text)
    → IsName name
    → before_assignment (name ++ tail_of value) ≡ (elim value [ none ↦ none | some v ↦ some name ])
unfolding before_assignment
before_assignment_name [] none h = refl
before_assignment_name [] (some v) h = refl
before_assignment_name (c ∷ name) none h =
    let other : (c == 61) ≡ false = ground (arith, h.0.1) in
    rw (other, if◌then◌else◌, before_assignment_name name none h.1) refl
before_assignment_name (c ∷ name) (some v) h =
    let other : (c == 61) ≡ false = ground (arith, h.0.1) in
    rw (other, if◌then◌else◌, before_assignment_name name (some v) h.1) refl

pub starts_with_dashes : (text : Text) → starts_with (45 ∷ 45 ∷ text) (45 ∷ 45 ∷ []) ≡ true
unfolding starts_with
starts_with_dashes [] = refl
starts_with_dashes (c ∷ text) = refl

pub char_at_two : (text : Text) (n : ℕ) → char_at (45 ∷ 45 ∷ text) (2 + n) ≡ char_at text n
char_at_two text n = ap (char_at (45 ∷ 45 ∷ text)) (let e : 2 + n ≡ suc (suc n) = omega arith in e)

pub drop_three :
    (c d : ℕ) (text : Text) (n : ℕ) → drop (2 + n + 1) (c ∷ d ∷ text) ≡ drop (suc n) text
drop_three c d text n =
    ap (λ k. drop k (c ∷ d ∷ text)) (let e : 2 + n + 1 ≡ suc (suc (suc n)) = omega arith in e)

pub drop_assignment : (name v : Text) → drop (suc (length name)) (name ++ (61 ∷ v)) ≡ v
drop_assignment [] [] = refl
drop_assignment [] (c ∷ v) = refl
drop_assignment (c ∷ name) v = drop_assignment name v

-- The cases of the character behind a name.
module _ {ℓ} {A : Type ℓ} (x : ℕ) (a b c : A) where
  pub other_case : x ≢ 0 → x ≢ 61 → (if x == 0 then a else if x == 61 then b else c) ≡ c
  other_case h k =
      let z : (x == 0) ≡ false = ground (arith, h) in
      let y : (x == 61) ≡ false = ground (arith, k) in rw (z, if◌then◌else◌, y, if◌then◌else◌) refl

  pub zero_case : x ≡ 0 → (if x == 0 then a else if x == 61 then b else c) ≡ a
  zero_case e = rw ((==_iff x 0).1 e, if◌then◌else◌) refl

  pub assignment_case : x ≡ 61 → (if x == 0 then a else if x == 61 then b else c) ≡ b
  assignment_case e =
      let z : (x == 0) ≡ false = ground (arith, e) in
      rw (z, if◌then◌else◌, (==_iff x 61).1 e, if◌then◌else◌) refl
