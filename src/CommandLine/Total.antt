-- ===== src/CommandLine/Total.antt =====
-- misc/cmdline.c: `cmdline_read` ends, and calls the callback with a fixed sequence of reports.
use c_reusables.Prelude.{
  ℕ, ◌+◌, ◌≡◌, ◌≢◌, refl, Bool, true, false, not, ◌&&◌, Bool-cases, inl, inr, Option, none, some,
  List, [], ◌∷◌, ◌==◌, if◌then◌else◌, length, drop, All, arith,
}
use c_reusables.CommandLine.{
  Text, CmdlineOption, compilerlike, has_flag, char_at, starts_with, Turn, passed, called, fault,
  fast_optarg_decision, call, match_option, match_options, unhandled, handle_argument, match_long,
  match_short, take_argument, requiredarg, optionalarg,
}
use c_reusables.CommandLine.Reports.{Report, recorder}

-- An option that is matched like those of compilers has a name.
abbrev pub IsNamed : CmdlineOption → Type 0
IsNamed opt = has_flag opt compilerlike ≡ true → opt.longname ≢ none

-- No NULL is followed.
abbrev Sound : Turn (List Report) → Type 0
Sound passed = Unit
Sound (called ret s skip) = Unit
Sound fault = ⊥

if-Sound : (c : Bool) (a b : Turn (List Report)) → Sound a → Sound b → Sound (if c then a else b)
if-Sound true a b h k = h
if-Sound false a b h k = k

take_argument-Sound :
    (id : ℕ) (arg : Text) (off : ℕ) (missing : Text) (rest : List Text) (s : List Report)
    → Sound (take_argument recorder id arg off missing rest s)
take_argument-Sound id arg off missing [] s = if-Sound (char_at arg off == 0) _ _ tt tt
take_argument-Sound id arg off missing (next ∷ more) s = if-Sound (char_at arg off == 0) _ _ tt tt

match_long-Sound :
    (opt : CmdlineOption) (name arg : Text) (s : List Report)
    → Sound (match_long recorder opt name arg s)
match_long-Sound opt name arg s =
    if-Sound (starts_with (drop 2 arg) name) _ _
      (if-Sound (char_at arg (2 + length name) == 0) _ _
        (if-Sound (has_flag opt requiredarg) _ _ tt tt)
        (if-Sound (char_at arg (2 + length name) == 61) _ _
          (if-Sound (has_flag opt (optionalarg + requiredarg)) _ _ tt tt) tt))
      tt

match_short-Sound :
    (options : List CmdlineOption) (opt : CmdlineOption) (arg : Text) (rest : List Text)
    (s : List Report)
    → Sound (match_short recorder options opt arg rest s)
match_short-Sound options opt arg rest s =
    if-Sound (char_at arg 1 == opt.shortname) _ _
      (if-Sound (has_flag opt requiredarg) _ _ (take_argument-Sound opt.id arg 2 arg rest s)
        (if-Sound (not (char_at arg 2 == 0)) _ _ tt tt))
      tt

named-Sound :
    (c : Bool) (o : Option Text) (f : Text → Turn (List Report))
    → (c ≡ true → o ≢ none)
    → c ≡ true
    → ((name : Text) → Sound (f name))
    → Sound (elim o [ none ↦ fault | some name ↦ f name ])
named-Sound c none f h e k = h e refl
named-Sound c (some name) f h e k = k name

unnamed-Sound :
    (o : Option Text) (a : Turn (List Report)) (f : Text → Turn (List Report))
    → Sound a
    → ((name : Text) → Sound (f name))
    → Sound (elim o [ none ↦ a | some name ↦ f name ])
unnamed-Sound none a f h k = h
unnamed-Sound (some name) a f h k = k name

match_option-Sound :
    (options : List CmdlineOption) (opt : CmdlineOption)
    → IsNamed opt
    → (arg : Text) (rest : List Text) (s : List Report)
    → Sound (match_option recorder options opt arg rest s)
unfolding match_option
match_option-Sound options opt h arg rest s = elim (Bool-cases (has_flag opt compilerlike)) [
  | inl e ↦
      rw (match_option, e, if◌then◌else◌)
        (named-Sound (has_flag opt compilerlike) opt.longname _ h e (λ name.
          if-Sound (starts_with arg name) _ _
            (take_argument-Sound opt.id arg (length name) name rest s) tt))
  | inr e ↦
      rw (match_option, e, if◌then◌else◌)
        (unnamed-Sound opt.longname _ _ short (λ name.
          if-Sound (starts_with arg (45 ∷ 45 ∷ [])) _ _ (match_long-Sound opt name arg s) short))
]
  where
    short : Sound (
        if not (opt.shortname == 0) && (char_at arg 0 == 45)
        then match_short recorder options opt arg rest s
        else passed)
    short =
        if-Sound (not (opt.shortname == 0) && (char_at arg 0 == 45)) _ _
          (match_short-Sound options opt arg rest s) tt

otherwise-Sound :
    (t a : Turn (List Report))
    → Sound t
    → Sound a
    → Sound (elim t [ passed ↦ a | called ret s skip ↦ called ret s skip | fault ↦ fault ])
otherwise-Sound passed a h k = k
otherwise-Sound (called ret s skip) a h k = tt
otherwise-Sound fault a h k = h

match_options-Sound :
    (options opts : List CmdlineOption)
    → All IsNamed opts
    → (arg : Text) (rest : List Text) (s : List Report)
    → Sound (match_options recorder options opts arg rest s)
unfolding match_options
match_options-Sound options [] h arg rest s = tt
match_options-Sound options (opt ∷ opts) h arg rest s =
    otherwise-Sound (match_option recorder options opt arg rest s) _
      (match_option-Sound options opt h.0 arg rest s)
      (match_options-Sound options opts h.1 arg rest s)

-- The calls for one argument.
pub record Calls (t : Turn (List Report)) : Type 0 where
  pub ret : ℕ
  pub rs : List Report
  pub skip : Bool
  pub is : t ≡ called ret rs skip

otherwise-Calls :
    (t : Turn (List Report)) (id : ℕ) (arg : Option Text)
    → Sound t
    → Calls (elim t [
      | passed ↦ call recorder id arg false []
      | called ret s skip ↦ called ret s skip
      | fault ↦ fault
    ])
otherwise-Calls passed id arg h = record { ret = 0; rs = _; skip = false; is = refl }
otherwise-Calls (called ret s skip) id arg h = record { ret = ret; rs = s; skip = skip; is = refl }
otherwise-Calls fault id arg h = absurd h

pub handle_argument-Calls :
    (options : List CmdlineOption)
    → All IsNamed options
    → (arg : Text) (rest : List Text) → Calls (handle_argument recorder options arg rest [])
unfolding handle_argument
handle_argument-Calls options h arg rest =
    otherwise-Calls (match_options recorder options options arg rest []) ((unhandled arg).0)
      ((unhandled arg).1) (match_options-Sound options options h arg rest [])

pub record Decision (o : Option Bool) : Type 0 where
  pub fast : Bool
  pub is : o ≡ some fast

decided :
    (c : Bool) (o : Option Bool)
    → Decision o
    → Decision (if c then o else (elim o [ none ↦ none | some fast ↦ some false ]))
decided true o d = d
decided false none d = absurd (ground (arith, d.is))
decided false (some fast) d = record { fast = false; is = refl }

pub fast_optarg_decision-Decision :
    (options : List CmdlineOption) → All IsNamed options → Decision (fast_optarg_decision options)
unfolding fast_optarg_decision
fast_optarg_decision-Decision [] h = record { fast = true; is = refl }
fast_optarg_decision-Decision (opt ∷ options) h =
    go (has_flag opt compilerlike) opt.longname h.0 (fast_optarg_decision-Decision options h.1)
  where
    go :
        (c : Bool) (o : Option Text)
        → (c ≡ true → o ≢ none)
        → Decision (fast_optarg_decision options)
        → Decision (
            if c
            then (elim o [
              | none ↦ none
              | some name ↦
                  if char_at name 0 == 45
                  then fast_optarg_decision options
                  else (elim (fast_optarg_decision options) [
                    | none ↦ none
                    | some fast ↦ some false
                  ])
            ])
            else fast_optarg_decision options)
    go true none h d = absurd (h refl refl)
    go true (some name) h d = decided (char_at name 0 == 45) (fast_optarg_decision options) d
    go false o h d = d
