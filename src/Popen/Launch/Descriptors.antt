-- ===== src/Popen/Launch/Descriptors.antt =====
-- The standard streams of the program that `do_exec` of src/popen.rs starts.
use rust_subprocess.Prelude.{
  ℕ, ◌≡◌, refl, ◌∙◌, Bool, false, Option, none, some, ◌==◌, ==_iff, Bool-cases, inl, inr, ok, Bytes,
  ap,
}
use rust_subprocess.Popen.Launch.Files.{
  RunsIn, Leaves, then_do-RunsIn, Files, SameFiles, Survives, FileLaws, wanted, IsClear, redirected,
  unchanged, RunsIn-map, set_ids-RunsIn,
}
use rust_subprocess.Popen.Launch.{ChildOs, do_exec}

module _ {os : ChildOs} (files : Files os) where
  open os use {World}
  open files use {slot}

  -- The file of a standard stream: its end's, or the one that it had.
  abbrev pub file_for : Option ℕ → ℕ → World → ℕ
  file_for none to w = (slot to w).0
  file_for (some fd) to w = (slot fd w).0

  -- A stream that is left as it is is not closed on exec.
  abbrev pub IsInherited : Option ℕ → ℕ → World → Type 0
  IsInherited none to w = (slot to w).1 ≡ false
  IsInherited (some fd) to w = fd ≡ to → (slot to w).1 ≡ false

  -- The program's standard streams.
  abbrev pub HasStreams : Option ℕ × Option ℕ × Option ℕ → World → World → Type 0
  HasStreams (stdin, stdout, stderr) w w' =
      ((slot 0 w').0 ≡ file_for stdin 0 w)
      × ((slot 1 w').0 ≡ file_for stdout 1 w)
      × ((slot 2 w').0 ≡ file_for stderr 2 w)

  -- What becomes of the stream, if the descriptor before the exec is as it should be.
  arrives :
      (end : Option ℕ) (to : ℕ) (w w3 w' : World)
      → slot to w3 ≡ wanted files end to w
      → IsInherited end to w
      → Survives files w3 w'
      → (slot to w').0 ≡ file_for end to w
  arrives none to w w3 w' same inherited survives =
      survives to (ap (λ x. x.1) same ∙ inherited) ∙ ap (λ x. x.0) same
  arrives (some fd) to w w3 w' same inherited survives = elim (Bool-cases (fd == to)) [
    | inl e ↦
        let own : fd ≡ to = (==_iff fd to).0 e in
        let same' : slot to w3 ≡ slot to w = rw e at same in
        survives to (ap (λ x. x.1) same' ∙ inherited own) ∙ ap (λ x. x.0) same' ∙ rw own refl
    | inr e ↦
        let same' : slot to w3 ≡ ((slot fd w).0, false) = rw e at same in
        survives to (ap (λ x. x.1) same') ∙ ap (λ x. x.0) same'
  ]

  module _ (laws : FileLaws files) where
    -- The world behind one redirection.
    abbrev Redirected : Option ℕ → ℕ → World → World → Type 0
    Redirected end to w w' =
        (slot to w' ≡ wanted files end to w)
        × ((fd : ℕ) → (fd == to) ≡ false → slot fd w' ≡ slot fd w)

    clear_file :
        (earlier end : Option ℕ) (to : ℕ) (w w' : World)
        → Redirected earlier to w w'
        → IsClear files earlier end to
        → end ≡ some to
        → slot to w' ≡ slot to w
    clear_file none end to w w' r clear e = r.0
    clear_file (some fd) end to w w' r clear e =
        let same = (==_iff fd to).1 (clear e fd refl) in r.0 ∙ rw same refl

    wanted_kept :
        (earlier end : Option ℕ) (to own : ℕ) (w w' : World)
        → (own == to) ≡ false
        → Redirected earlier to w w'
        → IsClear files earlier end to
        → wanted files end own w' ≡ wanted files end own w
    wanted_kept earlier none to own w w' apart r clear = r.1 own apart
    wanted_kept earlier (some fd) to own w w' apart r clear = elim (Bool-cases (fd == own)) [
      | inl mine ↦ rw mine (r.1 own apart)
      | inr other ↦ rw other (elim (Bool-cases (fd == to)) [
        | inl e ↦
            let same : fd ≡ to = (==_iff fd to).0 e in
            let untouched : slot to w' ≡ slot to w =
              clear_file earlier (some fd) to w w' r clear (rw same refl) in
            rw (same, untouched) refl
        | inr e ↦ ap {A = ℕ × Bool} (λ x. (x.0, false)) (r.1 fd e)
      ])
    ]

    -- If `dup2` makes one descriptor stand for another's file, not to be closed on exec, exec closes
    -- only what is to be, and the other calls leave the files alone: the program that `do_exec` starts
    -- has each end of the three as the standard stream of that name, and the stream that the parent
    -- had where there is none, unless an end is one of the descriptors that an earlier redirection
    -- replaces, or a descriptor that is left in its place is to be closed on exec.
    pub do_exec-HasStreams :
        (stdin stdout stderr : Option ℕ) (cwd : Option Bytes) (setuid setgid : Option ℕ)
        (setpgid : Bool) (w : World)
        → IsClear files stdin stdout 0
        → IsClear files stdin stderr 0
        → IsClear files stdout stderr 1
        → IsInherited stdin 0 w
        → IsInherited stdout 1 w
        → IsInherited stderr 2 w
        → RunsIn
            (HasStreams (stdin, stdout, stderr) w)
            (do_exec os (stdin, stdout, stderr) cwd setuid setgid setpgid w)
    unfolding do_exec
    do_exec-HasStreams stdin stdout stderr cwd setuid setgid setpgid w clear_out clear_err
          clear_both inherits_in inherits_out inherits_err =
        then_do-RunsIn (SameFiles files w) Goal _ _ (moved cwd) λ w0 s0.
          then_do-RunsIn (Redirected stdin 0 w0) Goal _ _ (redirected files laws stdin 0 w0)
            λ w1 r1.
              then_do-RunsIn (Redirected stdout 1 w1) Goal _ _ (redirected files laws stdout 1 w1)
                λ w2 r2.
                  then_do-RunsIn (Redirected stderr 2 w2) Goal _ _
                    (redirected files laws stderr 2 w2)
                    λ w3 r3.
                      RunsIn-map files laws (Survives files w3) Goal _
                        (set_ids-RunsIn files laws setuid setgid setpgid w3)
                        λ w4 s4. (
                          arrives stdin 0 w w3 w4
                              (r3.1 0 refl ∙ r2.1 0 refl ∙ r1.0 ∙ at_start stdin 0 w0 s0)
                              inherits_in s4,
                          arrives stdout 1 w w3 w4
                              (r3.1 1 refl
                                ∙ r2.0
                                ∙ wanted_kept stdin stdout 0 1 w0 w1 refl r1 clear_out
                                ∙ at_start stdout 1 w0 s0)
                              inherits_out s4,
                          arrives stderr 2 w w3 w4
                              (r3.0
                                ∙ wanted_kept stdout stderr 1 2 w1 w2 refl r2 clear_both
                                ∙ wanted_kept stdin stderr 0 2 w0 w1 refl r1 clear_err
                                ∙ at_start stderr 2 w0 s0)
                              inherits_err s4,
                        )
      where
        Goal : World → Type 0
        Goal w' = HasStreams (stdin, stdout, stderr) w w'

        moved :
            (cwd : Option Bytes)
            → Leaves
                (SameFiles files w)
                (elim cwd [ none ↦ (ok tt, w) | some dir ↦ os.set_current_dir dir w ])
        moved none = λ fd. refl
        moved (some dir) =
            unchanged files laws (os.set_current_dir dir w) w (laws.chdir_files dir w)

        at_start :
            (end : Option ℕ) (to : ℕ) (w0 : World)
            → SameFiles files w w0
            → wanted files end to w0 ≡ wanted files end to w
        at_start none to w0 s = s to
        at_start (some fd) to w0 s = rw (s fd, s to) refl
