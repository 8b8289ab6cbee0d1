-- ===== src/Win32/Cmdline/Nuls.antt =====
-- The arguments with a NUL, which `assemble_cmdline` of src/popen.rs refuses, and the others.
use rust_subprocess.Prelude.{
  ◌≡◌, refl, subst, true, Bool-cases, List, [], ◌∷◌, ◌++◌, any, All, ◌==◌, ok, err, IoError, ◌⊎◌,
  inl, inr,
}
use rust_subprocess.Win32.Cmdline.{Units, assemble_cmdline, bad_pathname}
use rust_subprocess.Win32.Cmdline.Splitting.{split_command}
use rust_subprocess.Win32.Cmdline.ProgramName.{IsProgramName}
use rust_subprocess.Win32.Cmdline.RoundTrip.{
  HasNoNul, assemble_cmdline-ok, split_command-assemble_cmdline, assemble_cmdline_nul,
}

-- An argument of the vector has a NUL.
abbrev pub HasNul : List Units → Type 0
HasNul argv =
    (before : List Units) × (arg : Units) × (after : List Units) × (argv ≡ before ++ arg ∷ after)
    × (any (λ c. c == 0) arg ≡ true)

-- Every argument is free of NULs, or one of them has one.
nul_cases : (argv : List Units) → All HasNoNul argv ⊎ HasNul argv
nul_cases [] = inl tt
nul_cases (arg ∷ argv) = elim (Bool-cases (any (λ c. c == 0) arg)) [
  | inl e ↦ inr ([], arg, argv, refl, e)
  | inr e ↦ elim (nul_cases argv) [
    | inl h ↦ inl (e, h)
    | inr (before, a, after, same, h) ↦ inr (arg ∷ before, a, after, rw same refl, h)
  ]
]

-- The vector has a program's name, and it comes first.
abbrev pub StartsWithName : List Units → Type 0
StartsWithName [] = ⊥
StartsWithName (program ∷ args) = IsProgramName program

-- A command line that is assembled is split back, since it has no NUL.
pub assemble_cmdline-split_command :
    (argv : List Units) (cmdline : Units)
    → StartsWithName argv
    → assemble_cmdline argv ≡ ok cmdline
    → split_command cmdline ≡ argv
assemble_cmdline-split_command [] cmdline name made = absurd name
assemble_cmdline-split_command (program ∷ args) cmdline name made =
    elim (nul_cases (program ∷ args)) [
      | inl h ↦
          let (line, e, back) = split_command-assemble_cmdline program args name h in
          let same : line ≡ cmdline = cc in subst (λ x. split_command x ≡ program ∷ args) same back
      | inr (before, arg, after, e, h) ↦
          let refused : assemble_cmdline (program ∷ args) ≡ err bad_pathname =
            rw e (assemble_cmdline_nul before after arg h) in
          cc
    ]

-- Nothing but a NUL is refused.
pub assemble_cmdline-HasNul :
    (argv : List Units) (e : IoError)
    → assemble_cmdline argv ≡ err e
    → (e ≡ bad_pathname) × HasNul argv
assemble_cmdline-HasNul argv e refused = elim (nul_cases argv) [
  | inl h ↦ let made = assemble_cmdline-ok argv h in cc
  | inr (before, arg, after, same, h) ↦
      let e' : assemble_cmdline argv ≡ err bad_pathname =
        rw same (assemble_cmdline_nul before after arg h) in
      (cc, (before, arg, after, same, h))
]
