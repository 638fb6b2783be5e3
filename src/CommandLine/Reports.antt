-- ===== src/CommandLine/Reports.antt =====
-- misc/cmdline.c: what the callback is called with does not depend on the callback, but for its end.
use c_reusables.Prelude.{
  ℕ, ◌+◌, ◌-◌, ◌≡◌, refl, sym, ◌∙◌, ap, Bool, true, false, not, ◌&&◌, Bool-cases, inl, inr, Option,
  none, some, List, [], ◌∷◌, ◌++◌, append-nil, append_assoc, map, ==_iff, ◌==◌, if◌then◌else◌,
  length, take, drop,
}
use mathlib.Core.Path.{fun_ext}
use c_reusables.CommandLine.{
  Text, CmdlineOption, optionalarg, requiredarg, compilerlike, optid_missingarg, optid_bogusarg,
  auxbuf_size, has_flag, char_at, starts_with, Turn, passed, called, fault, call, group_report,
  handle_short_opt_group, take_argument, match_long, match_short, match_option, match_options,
  unhandled, handle_argument,
}

-- A call's id and argument.
abbrev pub Report : Type 0
Report = ℕ × Option Text

-- The callback that notes its calls and lets the parser go on.
abbrev pub recorder : ℕ → Option Text → List Report → ℕ × List Report
recorder id arg rs = (0, rs ++ ((id, arg) ∷ []))

-- One report for each option of a group.
abbrev short_reports : List CmdlineOption → ℕ → Text → Bool → List Report
short_reports options id g last = (id, none) ∷ (if last then [] else map (group_report options) g)

module _ {ℓ} {S : Type ℓ} (callback : ℕ → Option Text → S → ℕ × S) where
  -- The calls in their order, up to the first that does not return zero.
  abbrev pub feed : List Report → S → ℕ × S
  feed [] s = (0, s)
  feed (r ∷ rs) s =
      let rest = feed rs in
      let (ret, s') = callback (r.0) (r.1) s in if ret == 0 then rest s' else (ret, s')

  feed_one : (r : Report) (s : S) → feed (r ∷ []) s ≡ callback (r.0) (r.1) s
  feed_one r s = go (callback (r.0) (r.1) s)
    where
      go : (p : ℕ × S) → (if p.0 == 0 then (0, p.1) else (p.0, p.1)) ≡ p
      go (ret, s') = elim (Bool-cases (ret == 0)) [
        | inl e ↦ rw (e, if◌then◌else◌) (ap (λ n. (n, s')) (sym ((==_iff ret 0).0 e)))
        | inr e ↦ rw (e, if◌then◌else◌) refl
      ]

  pub feed-append :
      (rs rs' : List Report) (s : S)
      → feed (rs ++ rs') s ≡ (let p = feed rs s in if p.0 == 0 then feed rs' (p.1) else p)
  feed-append [] rs' s = refl
  feed-append (r ∷ rs) rs' s = elim (Bool-cases ((callback (r.0) (r.1) s).0 == 0)) [
    | inl e ↦ rw (e, if◌then◌else◌) (feed-append rs rs' ((callback (r.0) (r.1) s).1))
    | inr e ↦ rw (e, if◌then◌else◌, e, if◌then◌else◌) refl
  ]

  handle_short_opt_group_lem :
      (options : List CmdlineOption) (g : Text) (s : S)
      → handle_short_opt_group callback options g s ≡ feed (map (group_report options) g) s
  unfolding handle_short_opt_group
  handle_short_opt_group_lem options [] s = refl
  handle_short_opt_group_lem options (c ∷ g) s =
      ap
        (λ rest.
          let p = callback ((group_report options c).0) ((group_report options c).1) s in
          if p.0 == 0 then rest (p.1) else (p.0, p.1))
        (fun_ext λ s'. handle_short_opt_group_lem options g s')

  -- A short option with those grouped behind it.
  abbrev short_calls : List CmdlineOption → ℕ → Text → Bool → S → Turn S
  short_calls options id g last s =
      let (ret, s') = callback id none s in
      if (ret == 0) && not last
      then (let (ret', s'') = handle_short_opt_group callback options g s' in called ret' s'' false)
      else called ret s' false

  feed_called : List Report → S → Turn S
  feed_called rs s = let p = feed rs s in called (p.0) (p.1) false

  short_calls_lem :
      (options : List CmdlineOption) (id : ℕ) (g : Text) (last : Bool) (s : S)
      → short_calls options id g last s ≡ feed_called (short_reports options id g last) s
  unfolding feed_called
  short_calls_lem options id g true s = elim (Bool-cases ((callback id none s).0 == 0)) [
    | inl e ↦
        rw (e, if◌then◌else◌) (ap (λ n. called n ((callback id none s).1) false) ((==_iff _ 0).0 e))
    | inr e ↦ rw (e, if◌then◌else◌) refl
  ]
  short_calls_lem options id g false s = elim (Bool-cases ((callback id none s).0 == 0)) [
    | inl e ↦
        rw (e, if◌then◌else◌)
          (ap (λ p. called (p.0) (p.1) false)
            (handle_short_opt_group_lem options g ((callback id none s).1)))
    | inr e ↦ rw (e, if◌then◌else◌) refl
  ]

pub feed-recorder : (rs rs' : List Report) → feed recorder rs rs' ≡ (0, rs' ++ rs)
feed-recorder [] rs' = ap (λ l. (0, l)) (sym (append-nil rs'))
feed-recorder (r ∷ rs) rs' =
    feed-recorder rs (rs' ++ (r ∷ [])) ∙ ap (λ l. (0, l)) (append_assoc rs' (r ∷ []) rs)

module _ {ℓ} {S : Type ℓ} (callback : ℕ → Option Text → S → ℕ × S) where
  -- The turn with the calls that another turn noted.
  abbrev pub replay : Turn (List Report) → S → Turn S
  replay passed s = passed
  replay (called ret rs skip) s = let p = feed callback rs s in called (p.0) (p.1) skip
  replay fault s = fault

  pub call-replay :
      (id : ℕ) (arg : Option Text) (skip : Bool) (s : S)
      → call callback id arg skip s ≡ replay (call recorder id arg skip []) s
  call-replay id arg skip s =
      ap (λ p. called (p.0) (p.1) skip) (sym (feed_one callback (id, arg) s))

  branch :
      (c : Bool) {a b : Turn S} (a' b' : Turn (List Report)) (s : S)
      → a ≡ replay a' s
      → b ≡ replay b' s
      → (if c then a else b) ≡ replay (if c then a' else b') s
  branch true a' b' s e f = e
  branch false a' b' s e f = f

  by_name :
      (o : Option Text) {a : Turn S} {f : Text → Turn S} (a' : Turn (List Report))
      (f' : Text → Turn (List Report)) (s : S)
      → a ≡ replay a' s
      → ((name : Text) → f name ≡ replay (f' name) s)
      → elim o [ none ↦ a | some name ↦ f name ]
        ≡ replay (elim o [ none ↦ a' | some name ↦ f' name ]) s
  by_name none a' f' s e h = e
  by_name (some name) a' f' s e h = h name

  take_argument-replay :
      (id : ℕ) (arg : Text) (off : ℕ) (missing : Text) (rest : List Text) (s : S)
      → take_argument callback id arg off missing rest s
        ≡ replay (take_argument recorder id arg off missing rest []) s
  take_argument-replay id arg off missing [] s =
      branch (char_at arg off == 0) _ _ s (call-replay optid_missingarg (some missing) false s)
        (call-replay id (some (drop off arg)) false s)
  take_argument-replay id arg off missing (next ∷ more) s =
      branch (char_at arg off == 0) _ _ s (call-replay id (some next) true s)
        (call-replay id (some (drop off arg)) false s)

  match_long-replay :
      (opt : CmdlineOption) (name arg : Text) (s : S)
      → match_long callback opt name arg s ≡ replay (match_long recorder opt name arg []) s
  match_long-replay opt name arg s =
      branch (starts_with (drop 2 arg) name) _ _ s
        (branch (char_at arg (2 + length name) == 0) _ _ s
          (branch (has_flag opt requiredarg) _ _ s (call-replay optid_missingarg (some arg) false s)
            (call-replay opt.id none false s))
          (branch (char_at arg (2 + length name) == 61) _ _ s
            (branch (has_flag opt (optionalarg + requiredarg)) _ _ s
              (call-replay opt.id (some (drop (2 + length name + 1) arg)) false s)
              (call-replay optid_bogusarg (some (take (auxbuf_size - 1) (45 ∷ 45 ∷ name))) false s))
            refl))
        refl

  match_short-replay :
      (options : List CmdlineOption) (opt : CmdlineOption) (arg : Text) (rest : List Text) (s : S)
      → match_short callback options opt arg rest s
        ≡ replay (match_short recorder options opt arg rest []) s
  unfolding feed_called
  match_short-replay options opt arg rest s =
      branch (char_at arg 1 == opt.shortname) _ _ s
        (branch (has_flag opt requiredarg) _ _ s (take_argument-replay opt.id arg 2 arg rest s) (
          short_calls_lem callback options opt.id (drop 2 arg) (char_at arg 2 == 0) s
          ∙ sym (
              ap (λ t. replay t s)
                (short_calls_lem recorder options opt.id (drop 2 arg) (char_at arg 2 == 0) []
                  ∙ ap (λ p. called (p.0) (p.1) false)
                      (feed-recorder
                        (short_reports options opt.id (drop 2 arg) (char_at arg 2 == 0)) [])))))
        refl

  match_option-replay :
      (options : List CmdlineOption) (opt : CmdlineOption) (arg : Text) (rest : List Text) (s : S)
      → match_option callback options opt arg rest s
        ≡ replay (match_option recorder options opt arg rest []) s
  unfolding match_option
  match_option-replay options opt arg rest s =
      branch (has_flag opt compilerlike) _ _ s
        (by_name opt.longname _ _ s refl (λ name.
          branch (starts_with arg name) _ _ s
            (take_argument-replay opt.id arg (length name) name rest s) refl))
        (by_name opt.longname _ _ s short (λ name.
          branch (starts_with arg (45 ∷ 45 ∷ [])) _ _ s (match_long-replay opt name arg s) short))
    where
      short :
          (if not (opt.shortname == 0) && (char_at arg 0 == 45)
            then match_short callback options opt arg rest s
            else passed)
          ≡ replay
              (if not (opt.shortname == 0) && (char_at arg 0 == 45)
                then match_short recorder options opt arg rest []
                else passed)
              s
      short =
          branch (not (opt.shortname == 0) && (char_at arg 0 == 45)) _ _ s
            (match_short-replay options opt arg rest s) refl

  otherwise-replay :
      (t : Turn (List Report)) {a : Turn S} (a' : Turn (List Report)) (s : S)
      → a ≡ replay a' s
      → elim (replay t s) [ passed ↦ a | called ret s' skip ↦ called ret s' skip | fault ↦ fault ]
        ≡ replay
            (elim t [ passed ↦ a' | called ret s' skip ↦ called ret s' skip | fault ↦ fault ])
            s
  otherwise-replay passed a' s e = e
  otherwise-replay (called ret rs skip) a' s e = refl
  otherwise-replay fault a' s e = refl

  match_options-replay :
      (options opts : List CmdlineOption) (arg : Text) (rest : List Text) (s : S)
      → match_options callback options opts arg rest s
        ≡ replay (match_options recorder options opts arg rest []) s
  unfolding match_options
  match_options-replay options [] arg rest s = refl
  match_options-replay options (opt ∷ opts) arg rest s =
      rw (match_options, match_option-replay options opt arg rest s)
        (otherwise-replay (match_option recorder options opt arg rest []) _ s
          (match_options-replay options opts arg rest s))

  pub handle_argument-replay :
      (options : List CmdlineOption) (arg : Text) (rest : List Text) (s : S)
      → handle_argument callback options arg rest s
        ≡ replay (handle_argument recorder options arg rest []) s
  unfolding handle_argument
  handle_argument-replay options arg rest s =
      rw (handle_argument, match_options-replay options options arg rest s)
        (otherwise-replay (match_options recorder options options arg rest []) _ s
          (call-replay ((unhandled arg).0) ((unhandled arg).1) false s))
