-- ===== src/CommandLine.antt =====
-- misc/cmdline.c: the parser of command line options.
--
-- A text is the list of its characters, without the zero that ends it in C. `int` has 32 bits and is
-- represented modulo 2 ^ 32. The options are those before the record that ends them. The callback
-- and its user data are parameters: the callback gets an id, an argument or NULL, and the user data,
-- and gives what it returns with the user data after the call. A result of `none` stands for a run
-- that follows a NULL pointer.
pub mod Reports
pub mod Total
pub mod Run
pub mod Names
pub mod Long
use Prim.Native.Nat.{bit_and}
use c_reusables.Prelude.{
  ℕ, zero, suc, ◌+◌, ◌-◌, Bool, true, false, not, ◌&&◌, ◌||◌, Option, none, some, List, [], ◌∷◌,
  ◌++◌, ◌==◌, ltb, if◌then◌else◌, length, get_or, take, drop,
}

abbrev pub Text : Type 0
Text = List ℕ

-- `CMDLINE_OPTION`
pub record CmdlineOption : Type 0 where
  pub shortname : ℕ
  pub longname : Option Text
  pub id : ℕ
  pub flags : ℕ

-- `CMDLINE_OPTFLAG_OPTIONALARG`, `_REQUIREDARG` and `_COMPILERLIKE`
abbrev pub optionalarg : ℕ
optionalarg = 1

abbrev pub requiredarg : ℕ
requiredarg = 2

abbrev pub compilerlike : ℕ
compilerlike = 4

-- `CMDLINE_OPTID_NONE`, `_UNKNOWN`, `_MISSINGARG` and `_BOGUSARG`
abbrev pub optid_none : ℕ
optid_none = 0

abbrev pub optid_unknown : ℕ
optid_unknown = 0x80000001

abbrev pub optid_missingarg : ℕ
optid_missingarg = 0x80000002

abbrev pub optid_bogusarg : ℕ
optid_bogusarg = 0x80000003

-- `CMDLINE_AUXBUF_SIZE`
abbrev pub auxbuf_size : ℕ
auxbuf_size = 32

-- `flags & mask`
abbrev pub has_flag : CmdlineOption → ℕ → Bool
has_flag opt mask = not (bit_and opt.flags mask == 0)

-- `text[k]`, up to the zero that ends it
abbrev pub char_at : Text → ℕ → ℕ
char_at text k = get_or text k 0

-- `strncmp(text, name, strlen(name)) == 0`
unfoldable pub starts_with : Text → Text → Bool
starts_with text [] = true
starts_with [] (c ∷ name) = false
starts_with (d ∷ text) (c ∷ name) = (d == c) && starts_with text name

-- `strcmp(text, name) == 0`
unfoldable pub same_text : Text → Text → Bool
unfolding starts_with
same_text text name = starts_with text name && (length text == length name)

-- The part before the first `=`, if there is one.
unfoldable pub before_assignment : Text → Option Text
before_assignment [] = none
before_assignment (c ∷ text) =
    let rest = before_assignment text in
    if c == 61 then some [] else (elim rest [ none ↦ none | some name ↦ some (c ∷ name) ])

-- What an option is for an argument of the command line: none of it, or the callback has been called,
-- with the value it returned, and the next argument has been used up or not; or NULL was followed.
pub data Turn {ℓ} (S : Type ℓ) : Type ℓ where
  passed : Turn S
  called : ℕ → S → Bool → Turn S
  fault : Turn S

-- Whether an option of the kind of `-I` does not start with a dash: no fast decision then.
-- `argv[i]` that starts with no dash can be decided on at once unless there is one.
unfoldable pub fast_optarg_decision : List CmdlineOption → Option Bool
fast_optarg_decision [] = some true
fast_optarg_decision (opt ∷ options) =
    let rest = fast_optarg_decision options in
    if has_flag opt compilerlike
    then (elim (opt.longname) [
      | none ↦ none
      | some name ↦
          if char_at name 0 == 45
          then rest
          else (elim rest [ none ↦ none | some fast ↦ some false ])
    ])
    else rest

-- The inner loop of `cmdline_handle_short_opt_group`.
unfoldable pub find_short : ℕ → List CmdlineOption → Option CmdlineOption
find_short c [] = none
find_short c (opt ∷ options) =
    let rest = find_short c options in if c == opt.shortname then some opt else rest

-- What is reported for a character of a group.
unfoldable pub group_report : List CmdlineOption → ℕ → ℕ × Option Text
unfolding find_short
group_report options c = elim (find_short c options) [
  | none ↦ (optid_unknown, some (45 ∷ c ∷ []))
  | some opt ↦
      if has_flag opt requiredarg then (optid_missingarg, some (45 ∷ c ∷ [])) else (opt.id, none)
]

-- What is reported of an argument that no option takes.
unfoldable pub unhandled : Text → ℕ × Option Text
unfolding starts_with before_assignment
unhandled arg =
    if char_at arg 0 == 45
    then (
      optid_unknown,
      if starts_with arg (45 ∷ 45 ∷ [])
          then (elim (before_assignment arg) [
            | none ↦ some arg
            | some name ↦ some (take auxbuf_size name)
          ])
          else some arg,
    )
    else (optid_none, some arg)

module _ {ℓ} {S : Type ℓ} (callback : ℕ → Option Text → S → ℕ × S) where
  -- A call of the callback.
  abbrev pub call : ℕ → Option Text → Bool → S → Turn S
  call id arg skip s = let (ret, s') = callback id arg s in called ret s' skip

  -- `cmdline_handle_short_opt_group`
  unfoldable pub handle_short_opt_group : List CmdlineOption → Text → S → ℕ × S
  unfolding group_report
  handle_short_opt_group options [] s = (0, s)
  handle_short_opt_group options (c ∷ arggroup) s =
      let rest = handle_short_opt_group options arggroup in
      let (id, arg) = group_report options c in
      let (ret, s') = callback id arg s in if ret == 0 then rest s' else (ret, s')

  -- An option that takes the rest of its argument from the offset on, or the next argument.
  abbrev pub take_argument : ℕ → Text → ℕ → Text → List Text → S → Turn S
  take_argument id arg off missing rest s =
      if char_at arg off == 0
      then (elim rest [
        | [] ↦ call optid_missingarg (some missing) false s
        | next ∷ more ↦ call id (some next) true s
      ])
      else call id (some (drop off arg)) false s

  -- A regular long option, of the name.
  abbrev pub match_long : CmdlineOption → Text → Text → S → Turn S
  match_long opt name arg s =
      if starts_with (drop 2 arg) name
      then (if char_at arg (2 + length name) == 0
          then (if has_flag opt requiredarg
              then call optid_missingarg (some arg) false s
              else call opt.id none false s)
          else if char_at arg (2 + length name) == 61
          then (if has_flag opt (optionalarg + requiredarg)
              then call opt.id (some (drop (2 + length name + 1) arg)) false s
              else call optid_bogusarg (some (take (auxbuf_size - 1) (45 ∷ 45 ∷ name))) false s)
          else passed)
      else passed

  -- A regular short option, perhaps with others grouped behind it.
  abbrev pub match_short : List CmdlineOption → CmdlineOption → Text → List Text → S → Turn S
  match_short options opt arg rest s =
      if char_at arg 1 == opt.shortname
      then (if has_flag opt requiredarg
          then take_argument opt.id arg 2 arg rest s
          else (let (ret, s') = callback opt.id none s in
              if (ret == 0) && not (char_at arg 2 == 0)
              then (let (ret', s'') = handle_short_opt_group options (drop 2 arg) s' in
                  called ret' s'' false)
              else called ret s' false))
      else passed

  -- The body of the loop over the options.
  unfoldable pub match_option : List CmdlineOption → CmdlineOption → Text → List Text → S → Turn S
  unfolding starts_with handle_short_opt_group
  match_option options opt arg rest s =
      if has_flag opt compilerlike
      then (elim (opt.longname) [
        | none ↦ fault
        | some name ↦
            if starts_with arg name
            then take_argument opt.id arg (length name) name rest s
            else passed
      ])
      else (let short =
            if not (opt.shortname == 0) && (char_at arg 0 == 45)
            then match_short options opt arg rest s
            else passed in
          elim (opt.longname) [
            | none ↦ short
            | some name ↦
                if starts_with arg (45 ∷ 45 ∷ []) then match_long opt name arg s else short
          ])

  -- The loop over the options: the first that does not pass.
  unfoldable pub match_options :
      List CmdlineOption → List CmdlineOption → Text → List Text → S → Turn S
  unfolding match_option
  match_options options [] arg rest s = passed
  match_options options (opt ∷ opts) arg rest s =
      let later = match_options options opts arg rest s in
      elim (match_option options opt arg rest s) [
        | passed ↦ later
        | called ret s' skip ↦ called ret s' skip
        | fault ↦ fault
      ]

  -- One argument, after those that end the options or are none.
  unfoldable pub handle_argument : List CmdlineOption → Text → List Text → S → Turn S
  unfolding match_options unhandled
  handle_argument options arg rest s = elim (match_options options options arg rest s) [
    | passed ↦ let (id, text) = unhandled arg in call id text false s
    | called ret s' skip ↦ called ret s' skip
    | fault ↦ fault
  ]

  -- What follows a call: the value returned ends the loop unless it is zero.
  abbrev pub after_turn : (Bool → S → Option (ℕ × S)) → Turn S → Option (ℕ × S)
  after_turn next passed = none
  after_turn next (called ret s skip) = if ret == 0 then next skip s else some (ret, s)
  after_turn next fault = none

  -- The loop of `cmdline_read`; `skip` says that the argument has been used up by the one before it.
  unfoldable pub read_loop :
      List CmdlineOption → Bool → List Text → Bool → Bool → S → Option (ℕ × S)
  unfolding same_text handle_argument
  read_loop options fast [] after_doubledash skip s = some (0, s)
  read_loop options fast (arg ∷ rest) after_doubledash skip s =
      let next = read_loop options fast rest in
      if skip
      then next after_doubledash false s
      else if after_doubledash || same_text arg (45 ∷ [])
      then after_turn (next after_doubledash) (call optid_none (some arg) false s)
      else if same_text arg (45 ∷ 45 ∷ [])
      then next true false s
      else if fast && not (char_at arg 0 == 45)
      then after_turn (next after_doubledash) (call optid_none (some arg) false s)
      else after_turn (next after_doubledash) (handle_argument options arg rest s)

  -- `cmdline_read`, with `argv` from its second element on.
  unfoldable pub cmdline_read : List CmdlineOption → List Text → S → Option (ℕ × S)
  unfolding fast_optarg_decision read_loop
  cmdline_read options argv s = elim (fast_optarg_decision options) [
    | none ↦ none
    | some fast ↦ read_loop options fast argv false false s
  ]
