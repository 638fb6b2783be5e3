-- ===== src/CommandLine/Run.antt =====
-- misc/cmdline.c: `cmdline_read` ends, and calls the callback with a fixed sequence of reports.
use c_reusables.Prelude.{
  ℕ, ◌≡◌, refl, sym, ◌∙◌, ap, Bool, true, false, not, ◌&&◌, ◌||◌, Bool-cases, inl, inr, Option,
  some, List, [], ◌∷◌, ◌++◌, append-nil, append_assoc, ◌==◌, if◌then◌else◌, All,
}
use c_reusables.CommandLine.{
  Text, CmdlineOption, optid_none, char_at, same_text, called, call, handle_argument, after_turn,
  read_loop, cmdline_read,
}
use c_reusables.CommandLine.Reports.{
  Report, recorder, feed, feed-append, feed-recorder, replay, call-replay, handle_argument-replay,
}
use c_reusables.CommandLine.Total.{IsNamed, handle_argument-Calls, fast_optarg_decision-Decision}

module _ {ℓ} {S : Type ℓ} (callback : ℕ → Option Text → S → ℕ × S) where
  -- A part of the run makes the calls `rs`.
  record Fed (run : S → Option (ℕ × S)) (note : List Report → Option (ℕ × List Report))
      : Type ℓ where
    rs : List Report
    noted : (rs' : List Report) → note rs' ≡ some (0, rs' ++ rs)
    fed : (s : S) → run s ≡ some (feed callback rs s)

  if-Fed :
      (c : Bool) (f g : S → Option (ℕ × S)) (f' g' : List Report → Option (ℕ × List Report))
      → Fed f f'
      → Fed g g'
      → Fed (λ s. if c then f s else g s) (λ rs. if c then f' rs else g' rs)
  if-Fed true f g f' g' h k = h
  if-Fed false f g f' g' h k = k

  -- A turn and the rest of the run.
  after_turn-Fed :
      (run : Bool → S → Option (ℕ × S)) (note : Bool → List Report → Option (ℕ × List Report))
      → ((skip : Bool) → Fed (run skip) (note skip))
      → (ret : ℕ) (rs : List Report) (skip : Bool)
      → Fed
          (λ s. after_turn callback run (replay callback (called ret rs skip) s))
          (λ rs'. after_turn recorder note (replay recorder (called ret rs skip) rs'))
  after_turn-Fed run note h ret rs skip = record {
    rs = rs ++ (h skip).rs;
    noted = λ rs'.
        rw (feed-recorder rs rs')
          ((h skip).noted (rs' ++ rs) ∙ ap (λ l. some (0, l)) (append_assoc rs' rs (h skip).rs));
    fed = λ s. elim (Bool-cases ((feed callback rs s).0 == 0)) [
      | inl e ↦
          rw (e, if◌then◌else◌)
            ((h skip).fed ((feed callback rs s).1)
              ∙ ap some (sym (feed-append callback rs (h skip).rs s ∙ zero_path s e)))
      | inr e ↦
          rw (e, if◌then◌else◌)
            (ap some (sym (feed-append callback rs (h skip).rs s ∙ other_path s e)))
    ];
  }
    where
      zero_path :
          (s : S)
          → ((feed callback rs s).0 == 0) ≡ true
          → (let p = feed callback rs s in if p.0 == 0 then feed callback (h skip).rs (p.1) else p)
            ≡ feed callback (h skip).rs ((feed callback rs s).1)
      zero_path s e = rw (e, if◌then◌else◌) refl

      other_path :
          (s : S)
          → ((feed callback rs s).0 == 0) ≡ false
          → (let p = feed callback rs s in if p.0 == 0 then feed callback (h skip).rs (p.1) else p)
            ≡ feed callback rs s
      other_path s e = rw (e, if◌then◌else◌) refl

  Fed-path :
      (run run' : S → Option (ℕ × S)) (note note' : List Report → Option (ℕ × List Report))
      → ((s : S) → run s ≡ run' s)
      → ((rs : List Report) → note rs ≡ note' rs)
      → Fed run' note'
      → Fed run note
  Fed-path run run' note note' e k f = record {
    rs = f.rs;
    noted = λ rs. k rs ∙ f.noted rs;
    fed = λ s. e s ∙ f.fed s;
  }

  -- One call without options.
  call-Fed :
      (run : Bool → S → Option (ℕ × S)) (note : Bool → List Report → Option (ℕ × List Report))
      → ((skip : Bool) → Fed (run skip) (note skip))
      → (id : ℕ) (arg : Option Text)
      → Fed
          (λ s. after_turn callback run (call callback id arg false s))
          (λ rs. after_turn recorder note (call recorder id arg false rs))
  call-Fed run note h id arg =
      Fed-path _ _ _ _ (λ s. ap (after_turn callback run) (call-replay callback id arg false s))
        (λ rs. ap (after_turn recorder note) (call-replay recorder id arg false rs))
        (after_turn-Fed run note h 0 ((id, arg) ∷ []) false)

  handle_argument-Fed :
      (run : Bool → S → Option (ℕ × S)) (note : Bool → List Report → Option (ℕ × List Report))
      → ((skip : Bool) → Fed (run skip) (note skip))
      → (options : List CmdlineOption) → All IsNamed options
      → (arg : Text) (rest : List Text)
      → Fed
          (λ s. after_turn callback run (handle_argument callback options arg rest s))
          (λ rs. after_turn recorder note (handle_argument recorder options arg rest rs))
  handle_argument-Fed run note h options v arg rest =
      let calls = handle_argument-Calls options v arg rest in
      Fed-path _ _ _ _
        (λ s. ap (after_turn callback run) (
          handle_argument-replay callback options arg rest s
          ∙ ap (λ t. replay callback t s) calls.is))
        (λ rs. ap (after_turn recorder note) (
          handle_argument-replay recorder options arg rest rs
          ∙ ap (λ t. replay recorder t rs) calls.is))
        (after_turn-Fed run note h calls.ret calls.rs calls.skip)

  read_loop-Fed :
      (options : List CmdlineOption) (fast : Bool) (argv : List Text)
      → All IsNamed options
      → (after_doubledash skip : Bool)
      → Fed
          (read_loop callback options fast argv after_doubledash skip)
          (read_loop recorder options fast argv after_doubledash skip)
  unfolding read_loop
  read_loop-Fed options fast [] v after skip = record {
    rs = [];
    noted = λ rs. ap (λ l. some (0, l)) (sym (append-nil rs));
    fed = λ s. refl;
  }
  read_loop-Fed options fast (arg ∷ rest) v after skip =
      if-Fed skip _ _ _ _ (read_loop-Fed options fast rest v after false) (
        if-Fed (after || same_text arg (45 ∷ [])) _ _ _ _
          (call-Fed _ _ (λ k. read_loop-Fed options fast rest v after k) optid_none (some arg))
          (if-Fed (same_text arg (45 ∷ 45 ∷ [])) _ _ _ _
            (read_loop-Fed options fast rest v true false)
            (if-Fed (fast && not (char_at arg 0 == 45)) _ _ _ _
              (call-Fed _ _ (λ k. read_loop-Fed options fast rest v after k) optid_none (some arg))
              (handle_argument-Fed _ _ (λ k. read_loop-Fed options fast rest v after k) options v
                arg rest))))

  -- The reports, as `recorder` notes them, and the run with the callback.
  pub record ReadAnswer (options : List CmdlineOption) (argv : List Text) (s : S) : Type ℓ where
    pub reports : List Report
    pub recorded : cmdline_read recorder options argv [] ≡ some (0, reports)
    pub runs : cmdline_read callback options argv s ≡ some (feed callback reports s)

  -- For options of which those that are matched like a compiler's have a name, `cmdline_read` follows
  -- no NULL and ends; the ids and arguments that it reports do not depend on the callback: it calls
  -- it with them in their order, as a callback that notes them sees them, up to the first call that
  -- does not return zero, and returns what that call returned, or zero.
  pub cmdline_read_answers :
      (options : List CmdlineOption) (argv : List Text) (s : S)
      → All IsNamed options
      → ReadAnswer options argv s
  unfolding cmdline_read
  cmdline_read_answers options argv s v =
      let d = fast_optarg_decision-Decision options v in
      let f = read_loop-Fed options d.fast argv v false false in
      record {
        reports = f.rs;
        recorded = rw (cmdline_read, d.is) (f.noted []);
        runs = rw (cmdline_read, d.is) (f.fed s);
      }
