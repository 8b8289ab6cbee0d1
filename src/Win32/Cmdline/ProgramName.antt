-- ===== src/Win32/Cmdline/ProgramName.antt =====
-- The program's name at the start of the command line that `assemble_cmdline` of src/popen.rs makes.
use rust_subprocess.Prelude.{
  ℕ, ◌+◌, ◌≡◌, refl, ap, ◌∙◌, Bool, true, false, not, ◌&&◌, [], ◌∷◌, ◌++◌, append_assoc, append-nil,
  arith, ◌==◌, if◌then◌else◌, Bool-cases, ==_iff, inl, inr, replicate, is_empty, any, ltb,
}
use rust_subprocess.Win32.Cmdline.{chunk, Units, backslash, quote, is_special}
use rust_subprocess.Win32.Cmdline.Quoting.{escape}
use rust_subprocess.Win32.Cmdline.Splitting.{
  between, split_args, IsBoundary, at_end, at_space, replicate_shift, read_program, is_blank,
}

-- What one argument adds to the command line.
unfoldable pub quoted : Units → Units
quoted arg =
    if not (is_empty arg) && not (any is_special arg)
    then arg
    else quote ∷ (escape arg 0 ++ quote ∷ [])

-- A backslash is the last unit.
abbrev ends_in_backslash : Bool → Units → Bool
ends_in_backslash behind [] = behind
ends_in_backslash behind (c ∷ s) = ends_in_backslash (c == backslash) s

-- A program's name has no quotation mark in it, and no backslash at its end.
abbrev pub IsProgramName : Units → Type 0
IsProgramName program =
    (any (λ c. c == quote) program ≡ false) × (ends_in_backslash false program ≡ false)

-- Such a name is quoted as it is.
escape_name :
    (arg : Units) (n : ℕ)
    → any (λ c. c == quote) arg ≡ false
    → ends_in_backslash (ltb 0 n) arg ≡ false
    → escape arg n ≡ replicate n backslash ++ arg
unfolding escape chunk
escape_name [] n h k = let none_left : n ≡ 0 = ground arith in rw none_left refl
escape_name (c ∷ arg) n h k = elim (Bool-cases (c == backslash)) [
  | inl e ↦
      let is_backslash : c ≡ backslash = (==_iff c backslash).0 e in
      rw (e, is_backslash)
        (escape_name arg (n + 1) (ground arith) (ground arith) ∙ replicate_shift n arg)
  | inr e ↦
      let plain : (c == quote) ≡ false = ground arith in
      rw (e, plain, append_assoc)
        (ap (λ s. replicate n backslash ++ c ∷ s) (escape_name arg 0 (ground arith) (ground arith)))
]

read_program_closed :
    (program cur s : Units)
    → any (λ c. c == quote) program ≡ false
    → read_program true cur (program ++ quote ∷ s) ≡ read_program false (cur ++ program) s
unfolding read_program
read_program_closed [] cur s h = rw append-nil refl
read_program_closed (c ∷ program) cur s h =
    let plain : (c == quote) ≡ false = ground arith in
    rw plain (read_program_closed program (cur ++ c ∷ []) s (ground arith) ∙ rw append_assoc refl)

read_program_boundary :
    (cur : Units) {s : Units} → IsBoundary s → read_program false cur s ≡ cur ∷ split_args between s
unfolding read_program split_args
read_program_boundary cur at_end = refl
read_program_boundary cur (at_space s) = refl

read_program_plain :
    (program cur s : Units)
    → any is_special program ≡ false
    → read_program false cur (program ++ s) ≡ read_program false (cur ++ program) s
unfolding read_program
read_program_plain [] cur s h = rw append-nil refl
read_program_plain (c ∷ program) cur s h =
    let plain : (c == quote) ≡ false = ground arith in
    let inner : is_blank c ≡ false = ground arith in
    rw (plain, inner)
      (read_program_plain program (cur ++ c ∷ []) s (ground arith) ∙ rw append_assoc refl)

pub read_program-quoted :
    (program s : Units)
    → IsProgramName program
    → IsBoundary s
    → read_program false [] (quoted program ++ s) ≡ program ∷ split_args between s
unfolding quoted
read_program-quoted program s (h, k) b =
    elim (Bool-cases (not (is_empty program) && not (any is_special program))) [
      | inl e ↦
          rw e (read_program_plain program [] s (ground arith) ∙ read_program_boundary program b)
      | inr e ↦
          rw (e, escape_name program 0 h k, append_assoc)
            (unfold read_program in
              read_program_closed program [] s h ∙ read_program_boundary program b)
    ]
