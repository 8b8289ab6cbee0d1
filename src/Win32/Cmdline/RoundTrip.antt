-- ===== src/Win32/Cmdline/RoundTrip.antt =====
-- `assemble_cmdline` of src/popen.rs beside the rules by which a command line is split.
use rust_subprocess.Prelude.{
  ℕ, suc, ◌+◌, ◌≡◌, refl, ap, ◌∙◌, Bool, true, false, not, ◌&&◌, List, [], ◌∷◌, ◌++◌, append_assoc,
  append-nil, arith, ◌==◌, if◌then◌else◌, Bool-cases, ==_iff, inl, inr, length, replicate, is_empty,
  any, All, ok, err,
}
use rust_subprocess.Win32.Cmdline.{
  Units, backslash, quote, space, is_special, append_quoted, bad_pathname, assemble_loop,
  assemble_cmdline,
}
use rust_subprocess.Win32.Cmdline.Quoting.{escape, quote_loop-escape}
use rust_subprocess.Win32.Cmdline.Splitting.{
  between, within, split_args, IsBoundary, at_end, at_space, split_args_boundary, replicate_shift,
  split_args-escape, closing_boundary, split_command,
}
use rust_subprocess.Win32.Cmdline.ProgramName.{quoted, IsProgramName, read_program-quoted}

abbrev pub HasNoNul : Units → Type 0
HasNoNul arg = any (λ c. c == 0) arg ≡ false

plain_step :
    (c n : ℕ) (cur s : Units)
    → is_special c ≡ false
    → (c == backslash) ≡ false
    → split_args (within false n cur) (c ∷ s)
      ≡ split_args (within false 0 (cur ++ (replicate n backslash ++ c ∷ []))) s
unfolding split_args
plain_step c n cur s h k = ground arith

backslash_step :
    (n : ℕ) (cur s : Units)
    → split_args (within false n cur) (backslash ∷ s) ≡ split_args (within false (n + 1) cur) s
unfolding split_args
backslash_step n cur s = refl

-- Outside of quotes a plain argument reads as itself.
split_args_plain :
    (arg : Units) (n : ℕ) (cur s : Units)
    → any is_special arg ≡ false
    → IsBoundary s
    → split_args (within false n cur) (arg ++ s)
      ≡ (cur ++ (replicate n backslash ++ arg)) ∷ split_args between s
split_args_plain [] n cur s h b = split_args_boundary n cur b ∙ rw append-nil
split_args_plain (c ∷ arg) n cur s h b = elim (Bool-cases (c == backslash)) [
  | inl e ↦
      let is_backslash : c ≡ backslash = (==_iff c backslash).0 e in
      rw is_backslash (
        backslash_step n cur (arg ++ s)
        ∙ split_args_plain arg (n + 1) cur s (ground arith) b
        ∙ rw replicate_shift)
  | inr e ↦
      plain_step c n cur (arg ++ s) (ground arith) e
      ∙ split_args_plain arg 0 (cur ++ (replicate n backslash ++ c ∷ [])) s (ground arith) b
      ∙ simp append_assoc
]

start_step :
    (c : ℕ) (s : Units)
    → is_special c ≡ false
    → split_args between (c ∷ s) ≡ split_args (within false 0 []) (c ∷ s)
unfolding split_args
start_step c s h = ground arith

append_quoted-quoted : (arg cmdline : Units) → append_quoted arg cmdline ≡ cmdline ++ quoted arg
unfolding append_quoted quoted
append_quoted-quoted arg cmdline =
    elim (Bool-cases (not (is_empty arg) && not (any is_special arg))) [
      | inl e ↦ rw e
      | inr e ↦ rw (
        e,
        quote_loop-escape (suc (length arg)) arg (cmdline ++ quote ∷ []) (omega arith),
        append_assoc,
        append_assoc,
      )
    ]

split_args-escaped :
    (arg : Units) {s : Units}
    → IsBoundary s
    → split_args between (quote ∷ (escape arg 0 ++ quote ∷ s)) ≡ arg ∷ split_args between s
unfolding split_args
split_args-escaped arg {s} b = split_args-escape arg 0 [] s ∙ closing_boundary arg b

split_args-quoted :
    (arg s : Units)
    → IsBoundary s
    → split_args between (quoted arg ++ s) ≡ arg ∷ split_args between s
unfolding quoted
split_args-quoted [] s b = rw append_assoc (split_args-escaped [] b)
split_args-quoted (c ∷ arg) s b = elim (Bool-cases (any is_special (c ∷ arg))) [
  | inl e ↦ rw (e, append_assoc) (split_args-escaped (c ∷ arg) b)
  | inr e ↦ rw e (start_step c (arg ++ s) (ground arith) ∙ split_args_plain (c ∷ arg) 0 [] s e b)
]

-- What the arguments from one on add to the command line.
pub joined : Bool → List Units → Units
joined is_first [] = []
joined is_first (arg ∷ argv) =
    (if not is_first then space ∷ [] else []) ++ (quoted arg ++ joined false argv)

joined-IsBoundary : (argv : List Units) → IsBoundary (joined false argv)
unfolding joined
joined-IsBoundary [] = at_end
joined-IsBoundary (arg ∷ argv) = at_space _

space_step : (s : Units) → split_args between (space ∷ s) ≡ split_args between s
unfolding split_args
space_step s = refl

split_args-joined : (argv : List Units) → split_args between (joined false argv) ≡ argv
unfolding joined
split_args-joined [] = unfold split_args in refl
split_args-joined (arg ∷ argv) =
    space_step (quoted arg ++ joined false argv)
    ∙ split_args-quoted arg (joined false argv) (joined-IsBoundary argv)
    ∙ ap (◌∷◌ arg) (split_args-joined argv)

assemble_loop-joined :
    (argv : List Units) (is_first : Bool) (cmdline : Units)
    → All HasNoNul argv
    → assemble_loop argv is_first cmdline ≡ ok (cmdline ++ joined is_first argv)
unfolding assemble_loop joined
assemble_loop-joined [] is_first cmdline h = rw append-nil
assemble_loop-joined (arg ∷ argv) true cmdline (h, hs) = rw (
  h,
  assemble_loop-joined argv false (append_quoted arg cmdline) hs,
  append_quoted-quoted,
  append_assoc,
)
assemble_loop-joined (arg ∷ argv) false cmdline (h, hs) = rw (
  h,
  assemble_loop-joined argv false (append_quoted arg (cmdline ++ space ∷ [])) hs,
  append_quoted-quoted,
  append_assoc,
  append_assoc,
)

-- An argument vector with no NUL in it is assembled, if it starts with a program's name with no
-- quotation mark in it and no backslash at its end, and a program that splits its command line by the
-- documented rules, those for the program's name included, gets exactly that vector: in the arguments
-- behind the name the empty argument, blanks, quotation marks and backslashes are all kept.
pub split_command-assemble_cmdline :
    (program : Units) (args : List Units)
    → IsProgramName program
    → All HasNoNul (program ∷ args)
    → (cmdline : Units) × (assemble_cmdline (program ∷ args) ≡ ok cmdline)
      × (split_command cmdline ≡ program ∷ args)
unfolding assemble_cmdline joined
split_command-assemble_cmdline program args name h = (
  joined true (program ∷ args),
  assemble_loop-joined (program ∷ args) true [] h,
  read_program-quoted program (joined false args) name (joined-IsBoundary args)
      ∙ ap (◌∷◌ program) (split_args-joined args),
)

pub assemble_cmdline-ok :
    (argv : List Units) → All HasNoNul argv → assemble_cmdline argv ≡ ok (joined true argv)
unfolding assemble_cmdline
assemble_cmdline-ok argv h = assemble_loop-joined argv true [] h

assemble_loop_nul :
    (before after : List Units) (arg : Units) (is_first : Bool) (cmdline : Units)
    → any (λ c. c == 0) arg ≡ true
    → assemble_loop (before ++ arg ∷ after) is_first cmdline ≡ err bad_pathname
unfolding assemble_loop
assemble_loop_nul [] after arg is_first cmdline h = rw h
assemble_loop_nul (a ∷ before) after arg is_first cmdline h =
    elim (Bool-cases (any (λ c. c == 0) a)) [
      | inl e ↦ rw e
      | inr e ↦ rw e (assemble_loop_nul before after arg false _ h)
    ]

-- A NUL in any argument, wherever it stands in the vector, is refused with `ERROR_BAD_PATHNAME`.
pub assemble_cmdline_nul :
    (before after : List Units) (arg : Units)
    → any (λ c. c == 0) arg ≡ true
    → assemble_cmdline (before ++ arg ∷ after) ≡ err bad_pathname
unfolding assemble_cmdline
assemble_cmdline_nul before after arg h = assemble_loop_nul before after arg true [] h
