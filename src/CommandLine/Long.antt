-- ===== src/CommandLine/Long.antt =====
-- misc/cmdline.c: how regular long options are told apart.
use c_reusables.Prelude.{
  ℕ, ◌+◌, ◌≡◌, ◌≢◌, refl, sym, ◌∙◌, ap, Bool, true, false, not, ◌&&◌, Bool-cases, inl, inr, Option,
  none, some, List, [], ◌∷◌, ◌++◌, append-nil, ◌==◌, if◌then◌else◌, length, take, All, arith,
}
use c_reusables.CommandLine.{
  Text, CmdlineOption, optionalarg, requiredarg, optid_unknown, optid_missingarg, optid_bogusarg,
  has_flag, char_at, starts_with, Turn, passed, call, match_long, match_short, match_option,
  match_options, unhandled, handle_argument,
}
use c_reusables.CommandLine.Reports.{Report}
use c_reusables.CommandLine.Names.{
  IsName, HasPlainName, IsPlain, FirstNamed, tail_of, long_argument, long_report, starts_with_self,
  char_at_end, exact_name, before_assignment_name, starts_with_dashes, char_at_two, drop_three,
  drop_assignment, other_case, zero_case, assignment_case,
}

module _ {ℓ} {S : Type ℓ} (callback : ℕ → Option Text → S → ℕ × S) where
  -- An option of another name passes.
  other_name :
      (opt : CmdlineOption) (other name : Text) (value : Option Text) (s : S)
      → IsName other
      → IsName name
      → other ≢ name
      → match_long callback opt other (long_argument name value) s ≡ passed
  other_name opt other name value s h k ne =
      elim (Bool-cases (starts_with (name ++ tail_of value) other)) [
        | inr e ↦ rw (e, if◌then◌else◌) refl
        | inl e ↦
            rw (e, if◌then◌else◌)
              (other_case (char_at (long_argument name value) (2 + length other)) _ _ passed
                (λ z. ne (
                  exact_name other name value h k e
                    (inl (sym (char_at_two (name ++ tail_of value) (length other)) ∙ z))))
                (λ z. ne (
                  exact_name other name value h k e
                    (inr (sym (char_at_two (name ++ tail_of value) (length other)) ∙ z)))))
      ]

  report_if :
      (c : Bool) (r r' : Report) (s : S)
      → (if c then call callback (r.0) (r.1) false s else call callback (r'.0) (r'.1) false s)
        ≡ (let p = if c then r else r' in call callback (p.0) (p.1) false s)
  report_if true r r' s = refl
  report_if false r r' s = refl

  own_name :
      (opt : CmdlineOption) (name : Text) (value : Option Text) (s : S)
      → match_long callback opt name (long_argument name value) s
        ≡ call callback
            ((long_report (some opt) name value).0)
            ((long_report (some opt) name value).1)
            false
            s
  own_name opt name none s =
      rw (starts_with_self name [], if◌then◌else◌)
        (zero_case (char_at (long_argument name none) (2 + length name)) _ _ passed
            (char_at_two (name ++ []) (length name) ∙ char_at_end name [])
          ∙ ap
              (λ text.
                if has_flag opt requiredarg
                then call callback optid_missingarg (some (45 ∷ 45 ∷ text)) false s
                else call callback opt.id none false s)
              (append-nil name)
          ∙ report_if (has_flag opt requiredarg) (optid_missingarg, some (45 ∷ 45 ∷ name))
              (opt.id, none) s)
  own_name opt name (some v) s =
      rw (starts_with_self name (61 ∷ v), if◌then◌else◌)
        (assignment_case (char_at (long_argument name (some v)) (2 + length name)) _ _ passed
            (char_at_two (name ++ (61 ∷ v)) (length name) ∙ char_at_end name (61 ∷ v))
          ∙ ap
              (λ text.
                if has_flag opt (optionalarg + requiredarg)
                then call callback opt.id (some text) false s
                else call callback optid_bogusarg (some (take 31 (45 ∷ 45 ∷ name))) false s)
              (drop_three 45 45 (name ++ (61 ∷ v)) (length name) ∙ drop_assignment name v)
          ∙ report_if (has_flag opt (optionalarg + requiredarg)) (opt.id, some v)
              (optid_bogusarg, some (take 31 (45 ∷ 45 ∷ name))) s)

  -- An option of another long name, or of none, passes.
  unnamed_short :
      (options : List CmdlineOption) (opt : CmdlineOption) (name : Text) (value : Option Text)
      (rest : List Text) (s : S)
      → opt.shortname ≢ 45
      → (if not (opt.shortname == 0) && (char_at (long_argument name value) 0 == 45)
          then match_short callback options opt (long_argument name value) rest s
          else passed)
        ≡ passed
  unnamed_short options opt name value rest s h =
      let other : (45 == opt.shortname) ≡ false = ground (arith, h) in
      elim (Bool-cases (not (opt.shortname == 0) && (45 == 45))) [
        | inl e ↦ rw (e, if◌then◌else◌, other, if◌then◌else◌) refl
        | inr e ↦ rw (e, if◌then◌else◌) refl
      ]

  by_long_name :
      (longname : Option Text) (options : List CmdlineOption) (opt : CmdlineOption) (name : Text)
      (value : Option Text) (rest : List Text) (s : S)
      → HasPlainName longname
      → opt.shortname ≢ 45
      → IsName name
      → longname ≢ some name
      → elim longname [
        | none ↦
            if not (opt.shortname == 0) && (char_at (long_argument name value) 0 == 45)
            then match_short callback options opt (long_argument name value) rest s
            else passed
        | some other ↦
            if starts_with (long_argument name value) (45 ∷ 45 ∷ [])
            then match_long callback opt other (long_argument name value) s
            else (if not (opt.shortname == 0) && (char_at (long_argument name value) 0 == 45)
                then match_short callback options opt (long_argument name value) rest s
                else passed)
      ]
        ≡ passed
  by_long_name none options opt name value rest s p h k ne =
      unnamed_short options opt name value rest s h
  by_long_name (some other) options opt name value rest s p h k ne =
      rw (starts_with_dashes (name ++ tail_of value), if◌then◌else◌)
        (other_name opt other name value s p k (λ e. ne (ap some e)))

  match_option_other :
      (options : List CmdlineOption) (opt : CmdlineOption) (name : Text) (value : Option Text)
      (rest : List Text) (s : S)
      → IsPlain opt
      → IsName name
      → opt.longname ≢ some name
      → match_option callback options opt (long_argument name value) rest s ≡ passed
  unfolding match_option
  match_option_other options opt name value rest s p k ne =
      rw (match_option, p.regular, if◌then◌else◌)
        (by_long_name opt.longname options opt name value rest s p.plain_name p.no_dash k ne)

  by_own_name :
      (longname : Option Text) (opt : CmdlineOption) (name : Text) (value : Option Text) (s : S)
      (short : Turn S)
      → longname ≡ some name
      → elim longname [
        | none ↦ short
        | some other ↦
            if starts_with (long_argument name value) (45 ∷ 45 ∷ [])
            then match_long callback opt other (long_argument name value) s
            else short
      ]
        ≡ call callback
            ((long_report (some opt) name value).0)
            ((long_report (some opt) name value).1)
            false
            s
  by_own_name longname opt name value s short e =
      rw (e, starts_with_dashes (name ++ tail_of value), if◌then◌else◌) (own_name opt name value s)

  match_option_own :
      (options : List CmdlineOption) (opt : CmdlineOption) (name : Text) (value : Option Text)
      (rest : List Text) (s : S)
      → IsPlain opt
      → opt.longname ≡ some name
      → match_option callback options opt (long_argument name value) rest s
        ≡ call callback
            ((long_report (some opt) name value).0)
            ((long_report (some opt) name value).1)
            false
            s
  unfolding match_option
  match_option_own options opt name value rest s p e =
      rw (match_option, p.regular, if◌then◌else◌) (by_own_name opt.longname opt name value s _ e)

  -- The turn for the option that is found.
  abbrev long_turn : Option CmdlineOption → Text → Option Text → S → Turn S
  long_turn none name value s = passed
  long_turn (some opt) name value s =
      call callback ((long_report (some opt) name value).0) ((long_report (some opt) name value).1)
        false s

  match_options_long :
      (options opts : List CmdlineOption) (found : Option CmdlineOption) (name : Text)
      (value : Option Text) (rest : List Text) (s : S)
      → All IsPlain opts
      → IsName name
      → FirstNamed name opts found
      → match_options callback options opts (long_argument name value) rest s
        ≡ long_turn found name value s
  unfolding match_options
  match_options_long options [] found name value rest s p k f = rw f refl
  match_options_long options (opt ∷ opts) found name value rest s p k (inl (own, is)) =
      rw (match_options, match_option_own options opt name value rest s p.0 own) (rw is refl)
  match_options_long options (opt ∷ opts) found name value rest s p k (inr (other, f)) =
      rw (match_options, match_option_other options opt name value rest s p.0 k other)
        (match_options_long options opts found name value rest s p.1 k f)

  unhandled_long :
      (name : Text) (value : Option Text)
      → IsName name
      → unhandled (long_argument name value) ≡ long_report none name value
  unfolding unhandled
  unhandled_long name none k =
      rw (before_assignment_name name none k)
        (ap (λ text. (optid_unknown, some (45 ∷ 45 ∷ text))) (append-nil name))
  unhandled_long name (some v) k = rw (before_assignment_name name (some v) k) refl

  -- For regular options, a long option is handled by the first option of exactly its name, not by
  -- one of which the name is a prefix: its argument is handed on if it may have one and refused
  -- otherwise, a missing one is reported, and it is unknown if no option has the name.
  pub handle_argument_long :
      (options : List CmdlineOption) (found : Option CmdlineOption) (name : Text)
      (value : Option Text) (rest : List Text) (s : S)
      → All IsPlain options
      → IsName name
      → FirstNamed name options found
      → handle_argument callback options (long_argument name value) rest s
        ≡ (let r = long_report found name value in call callback (r.0) (r.1) false s)
  unfolding handle_argument
  handle_argument_long options none name value rest s p k f =
      rw (handle_argument, match_options_long options options none name value rest s p k f)
        (ap (λ r. call callback (r.0) (r.1) false s) (unhandled_long name value k))
  handle_argument_long options (some opt) name value rest s p k f =
      rw (handle_argument, match_options_long options options (some opt) name value rest s p k f)
        refl
