-- ===== src/Popen/Launch/Files.antt =====
-- The files that the descriptors of a child stand for, in the steps of `do_exec` of src/popen.rs.
use rust_subprocess.Prelude.{
  ℕ, ◌≡◌, refl, ◌∙◌, Bool, true, false, Option, none, some, ◌==◌, Bool-cases, inl, inr,
  if◌then◌else◌, Result, ok, err, IoError, Bytes, ap,
}
use rust_subprocess.Popen.Launch.{
  ChildOs, Outcome, executed, failed, panicked, then_do, if_some, redirect, finish, set_ids,
}

-- The program runs in a world with `P`, if it runs.
abbrev pub RunsIn : {os : ChildOs} → (os.World → Type 0) → Outcome os → Type 0
RunsIn P (executed w) = P w
RunsIn P (failed e w) = Unit
RunsIn P (panicked w) = Unit

-- A call that succeeds leaves `P`.
abbrev pub Leaves : {W : Type 0} → (W → Type 0) → Result (Unit {0}) IoError × W → Type 0
Leaves P (ok u, w) = P w
Leaves P (err e, w) = Unit

pub then_do-RunsIn :
    {os : ChildOs} (P Q : os.World → Type 0) (r : Result (Unit {0}) IoError × os.World)
    (k : os.World → Outcome os)
    → Leaves P r
    → ((w : os.World) → P w → RunsIn Q (k w))
    → RunsIn Q (then_do r k)
then_do-RunsIn P Q (ok u, w) k h f = f w h
then_do-RunsIn P Q (err e, w) k h f = tt

-- What a descriptor stands for: an open file, and whether it is closed on exec.
pub record Files (os : ChildOs) : Type 0 where
  pub slot : ℕ → os.World → ℕ × Bool

module _ {os : ChildOs} (files : Files os) where
  open os use {World, sys_dup2}
  open files use {slot}

  abbrev pub SameFiles : World → World → Type 0
  SameFiles w w' = (fd : ℕ) → slot fd w' ≡ slot fd w

  -- What is not closed on exec is there in the program.
  abbrev pub Survives : World → World → Type 0
  Survives w w' = (fd : ℕ) → (slot fd w).1 ≡ false → (slot fd w').0 ≡ (slot fd w).0

  -- What POSIX promises: `dup2` makes one descriptor stand for another's file, not to be closed on
  -- exec; exec closes the descriptors that are to be; the other calls leave them alone.
  pub record FileLaws : Type 0 where
    pub dup2_copies :
        (old new : ℕ) (w : World)
        → (old == new) ≡ false
        → Leaves (λ w'. slot new w' ≡ ((slot old w).0, false)) (sys_dup2 old new w)
    pub dup2_others :
        (old new fd : ℕ) (w : World)
        → (fd == new) ≡ false
        → slot fd (sys_dup2 old new w).1 ≡ slot fd w
    pub chdir_files : (dir : Bytes) (w : World) → SameFiles w (os.set_current_dir dir w).1
    pub sigpipe_files : (w : World) → SameFiles w (os.reset_sigpipe w).1
    pub setuid_files : (id : ℕ) (w : World) → SameFiles w (os.sys_setuid id w).1
    pub setgid_files : (id : ℕ) (w : World) → SameFiles w (os.sys_setgid id w).1
    pub setpgid_files : (w : World) → SameFiles w (os.sys_setpgid w).1
    pub exec_files : (w : World) → Survives w (os.just_exec w).1

  -- What becomes of a standard stream: its end's file, or what it was.
  abbrev pub wanted : Option ℕ → ℕ → World → ℕ × Bool
  wanted none to w = slot to w
  wanted (some fd) to w = if fd == to then slot to w else ((slot fd w).0, false)

  -- No end stands where an earlier `dup2` writes.
  abbrev pub IsClear : Option ℕ → Option ℕ → ℕ → Type 0
  IsClear earlier end to = end ≡ some to → (fd : ℕ) → earlier ≡ some fd → fd ≡ to

  module _ (laws : FileLaws) where
    copied :
        (P : World → Type 0) (to : ℕ) (w : World) (r : Result (Unit {0}) IoError × World)
        → Leaves P r
        → ((fd : ℕ) → (fd == to) ≡ false → slot fd r.1 ≡ slot fd w)
        → Leaves (λ w'. P w' × ((fd : ℕ) → (fd == to) ≡ false → slot fd w' ≡ slot fd w)) r
    copied P to w (ok u, w') h others = (h, others)
    copied P to w (err e, w') h others = tt

    pub redirected :
        (end : Option ℕ) (to : ℕ) (w : World)
        → Leaves
            (λ w'.
              (slot to w' ≡ wanted end to w)
              × ((fd : ℕ) → (fd == to) ≡ false → slot fd w' ≡ slot fd w))
            (if_some end (redirect os to) w)
    unfolding redirect
    redirected none to w = (refl, λ fd h. refl)
    redirected (some f) to w = elim (Bool-cases (f == to)) [
      | inl e ↦ rw e (refl, λ fd h. refl)
      | inr e ↦ rw e (
          copied (λ w'. slot to w' ≡ ((slot f w).0, false)) to w (sys_dup2 f to w)
            (laws.dup2_copies f to w e) λ fd h. laws.dup2_others f to fd w h)
    ]

    -- A call that leaves the files alone.
    pub unchanged :
        (r : Result (Unit {0}) IoError × World) (w : World)
        → SameFiles w r.1
        → Leaves (SameFiles w) r
    unchanged (ok u, w') w same = same
    unchanged (err e, w') w same = tt

    option_unchanged :
        (o : Option ℕ) (f : ℕ → World → Result (Unit {0}) IoError × World) (w : World)
        → ((a : ℕ) → SameFiles w (f a w).1)
        → Leaves (SameFiles w) (if_some o f w)
    option_unchanged none f w same = λ fd. refl
    option_unchanged (some a) f w same = unchanged (f a w) w (same a)

    finish-RunsIn : (w : World) → RunsIn (Survives w) (finish os w)
    unfolding finish
    finish-RunsIn w = at (os.just_exec w) (laws.exec_files w)
      where
        at :
            (r : Option (Result (Unit {0}) IoError) × World)
            → Survives w r.1
            → RunsIn (Survives w) (elim r.0 as (λ _. Outcome os) [
              | none ↦ executed r.1
              | some q ↦ elim q [ ok _ ↦ panicked r.1 | err e ↦ failed e r.1 ]
            ])
        at (none, w') h = h
        at (some (ok u), w') h = tt
        at (some (err e), w') h = tt

    pub RunsIn-map :
        (P Q : World → Type 0) (o : Outcome os)
        → RunsIn P o
        → ((w : World) → P w → Q w)
        → RunsIn Q o
    RunsIn-map P Q (executed w) h f = f w h
    RunsIn-map P Q (failed e w) h f = tt
    RunsIn-map P Q (panicked w) h f = tt

    pub Survives-behind :
        (w w1 : World) → SameFiles w w1 → (w' : World) → Survives w1 w' → Survives w w'
    Survives-behind w w1 same w' survives fd kept =
        survives fd (ap (λ x. x.1) (same fd) ∙ kept) ∙ ap (λ x. x.0) (same fd)

    pub set_ids-RunsIn :
        (setuid setgid : Option ℕ) (setpgid : Bool) (w : World)
        → RunsIn (Survives w) (set_ids os setuid setgid setpgid w)
    unfolding set_ids
    set_ids-RunsIn setuid setgid setpgid w =
        then_do-RunsIn (SameFiles w) (Survives w) _ _
          (unchanged (os.reset_sigpipe w) w (laws.sigpipe_files w))
          λ w1 s1.
            then_do-RunsIn (SameFiles w1) (Survives w) _ _
              (option_unchanged setuid os.sys_setuid w1 (λ a. laws.setuid_files a w1))
              λ w2 s2.
                then_do-RunsIn (SameFiles w2) (Survives w) _ _
                  (option_unchanged setgid os.sys_setgid w2 (λ a. laws.setgid_files a w2))
                  λ w3 s3.
                    then_do-RunsIn (SameFiles w3) (Survives w) _ _ (grouped setpgid w3) λ w4 s4.
                      RunsIn-map (Survives w4) (Survives w) _ (finish-RunsIn w4)
                        (Survives-behind w w4 λ fd. s4 fd ∙ s3 fd ∙ s2 fd ∙ s1 fd)
      where
        grouped :
            (b : Bool) (w : World)
            → Leaves (SameFiles w) (if b then os.sys_setpgid w else (ok tt, w))
        grouped true w = unchanged (os.sys_setpgid w) w (laws.setpgid_files w)
        grouped false w = λ fd. refl
