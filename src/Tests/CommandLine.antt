-- ===== src/Tests/CommandLine.antt =====
-- Command lines at concrete inputs: the options -v, --out=FILE and -o FILE, and -IDIR.
use c_reusables.Prelude.{◌≡◌, refl, inl, inr, none, some, [], ◌∷◌, false, arith}
use c_reusables.CommandLine.{
  CmdlineOption, handle_argument, call, cmdline_read, fast_optarg_decision, read_loop,
  match_options, match_option, starts_with, same_text, handle_short_opt_group, group_report,
  find_short, unhandled, before_assignment,
}
use c_reusables.CommandLine.Reports.{recorder}
use c_reusables.CommandLine.Run.{ReadAnswer, cmdline_read_answers}
use c_reusables.CommandLine.Names.{IsPlain}
use c_reusables.CommandLine.Long.{handle_argument_long}

abbrev verbose : CmdlineOption
verbose = record { shortname = 118; longname = some (118 ∷ 101 ∷ 114 ∷ []); id = 1; flags = 0 }

abbrev out : CmdlineOption
out = record { shortname = 111; longname = some (111 ∷ 117 ∷ 116 ∷ []); id = 2; flags = 2 }

abbrev include : CmdlineOption
include = record { shortname = 0; longname = some (45 ∷ 73 ∷ []); id = 3; flags = 4 }

-- prog -vv -Ia --out=b -o c -- -v
run_test :
    cmdline_read recorder
      (verbose ∷ out ∷ include ∷ [])
      ((45 ∷ 118 ∷ 118 ∷ [])
        ∷ (45 ∷ 73 ∷ 97 ∷ [])
        ∷ (45 ∷ 45 ∷ 111 ∷ 117 ∷ 116 ∷ 61 ∷ 98 ∷ [])
        ∷ (45 ∷ 111 ∷ [])
        ∷ (99 ∷ [])
        ∷ (45 ∷ 45 ∷ [])
        ∷ (45 ∷ 118 ∷ [])
        ∷ [])
      []
    ≡ some (
      0,
      (1, none)
          ∷ (1, none)
          ∷ (3, some (97 ∷ []))
          ∷ (2, some (98 ∷ []))
          ∷ (2, some (99 ∷ []))
          ∷ (0, some (45 ∷ 118 ∷ []))
          ∷ [],
    )
unfolding cmdline_read fast_optarg_decision read_loop handle_argument match_options match_option
    starts_with same_text handle_short_opt_group group_report find_short unhandled before_assignment
run_test = refl

cmdline_read_answers_example :
    ReadAnswer recorder (verbose ∷ include ∷ []) ((45 ∷ 118 ∷ []) ∷ (45 ∷ 73 ∷ 97 ∷ []) ∷ []) []
cmdline_read_answers_example =
    cmdline_read_answers recorder (verbose ∷ include ∷ [])
      ((45 ∷ 118 ∷ []) ∷ (45 ∷ 73 ∷ 97 ∷ []) ∷ []) []
      ((λ e. absurd (ground (arith, e))), ((λ e f. absurd (ground (arith, f))), tt))

verbose-IsPlain : IsPlain verbose
verbose-IsPlain = record {
  regular = refl;
  no_dash = omega arith;
  plain_name =
      ((omega arith, omega arith), ((omega arith, omega arith), ((omega arith, omega arith), tt)));
}

out-IsPlain : IsPlain out
out-IsPlain = record {
  regular = refl;
  no_dash = omega arith;
  plain_name =
      ((omega arith, omega arith), ((omega arith, omega arith), ((omega arith, omega arith), tt)));
}

handle_argument_long_example :
    handle_argument recorder (verbose ∷ out ∷ []) (45 ∷ 45 ∷ 111 ∷ 117 ∷ 116 ∷ 61 ∷ 98 ∷ []) [] []
    ≡ call recorder 2 (some (98 ∷ [])) false []
handle_argument_long_example =
    handle_argument_long recorder (verbose ∷ out ∷ []) (some out) (111 ∷ 117 ∷ 116 ∷ [])
      (some (98 ∷ [])) [] [] (verbose-IsPlain, (out-IsPlain, tt))
      ((omega arith, omega arith), ((omega arith, omega arith), ((omega arith, omega arith), tt)))
      (inr ((λ e. absurd (ground (arith, e))), inl (refl, refl)))
