-- ===== src/Popen/Launch.antt =====
-- `do_exec` of src/popen.rs (Unix): what a forked child does before it executes the program.
mod Tests
pub mod Files
pub mod Descriptors
use rust_subprocess.Prelude.{
  ℕ, Bool, true, false, not, Option, none, some, ◌==◌, if◌then◌else◌, Result, ok, err, IoError,
  Bytes,
}

pub record ChildOs : Type 1 where
  pub World : Type 0
  pub set_current_dir : Bytes → World → Result (Unit {0}) IoError × World
  pub sys_dup2 : ℕ → ℕ → World → Result (Unit {0}) IoError × World
  pub reset_sigpipe : World → Result (Unit {0}) IoError × World
  pub sys_setuid : ℕ → World → Result (Unit {0}) IoError × World
  pub sys_setgid : ℕ → World → Result (Unit {0}) IoError × World
  -- `setpgid(0, 0)`
  pub sys_setpgid : World → Result (Unit {0}) IoError × World
  -- The closure of `prep_exec`: `none` when the program runs, otherwise what it returns.
  pub just_exec : World → Option (Result (Unit {0}) IoError) × World

-- How the child's code ends: the program runs, an error is to be reported, or it panics.
pub data Outcome (os : ChildOs) : Type 0 where
  executed : os.World → Outcome os
  failed : IoError → os.World → Outcome os
  panicked : os.World → Outcome os

-- `?` between two statements.
abbrev pub then_do :
    {os : ChildOs} → Result (Unit {0}) IoError × os.World → (os.World → Outcome os) → Outcome os
then_do (ok u, w) k = k w
then_do (err e, w) k = failed e w

-- `if let Some(a) = o`
abbrev pub if_some :
    {W : Type 0}
    → Option ℕ
    → (ℕ → W → Result (Unit {0}) IoError × W)
    → W
    → Result (Unit {0}) IoError × W
if_some none f w = (ok tt, w)
if_some (some a) f w = f a w

module _ (os : ChildOs) where
  open os use {World, sys_dup2}

  -- `if f.as_raw_fd() != to { dup2(f, to)? }`
  unfoldable pub redirect : ℕ → ℕ → World → Result (Unit {0}) IoError × World
  redirect to f w = if not (f == to) then sys_dup2 f to w else (ok tt, w)

  unfoldable pub finish : World → Outcome os
  finish w =
      let (reply, w') = os.just_exec w in
      elim reply [
        | none ↦ executed w'
        | some r ↦ elim r [ ok _ ↦ panicked w' | err e ↦ failed e w' ]
      ]

  -- What follows the streams.
  unfoldable pub set_ids : Option ℕ → Option ℕ → Bool → World → Outcome os
  set_ids setuid setgid setpgid w = then_do (os.reset_sigpipe w) λ w1.
      then_do (if_some setuid os.sys_setuid w1) λ w2.
        then_do (if_some setgid os.sys_setgid w2)
          λ w3. then_do (if setpgid then os.sys_setpgid w3 else (ok tt, w3)) finish

  unfoldable pub do_exec :
      Option ℕ × Option ℕ × Option ℕ
      → Option Bytes
      → Option ℕ
      → Option ℕ
      → Bool
      → World
      → Outcome os
  do_exec (stdin, stdout, stderr) cwd setuid setgid setpgid w =
      then_do (elim cwd [ none ↦ (ok tt, w) | some dir ↦ os.set_current_dir dir w ])
        λ w0. then_do (if_some stdin (redirect 0) w0) λ w1.
          then_do (if_some stdout (redirect 1) w1)
            λ w2. then_do (if_some stderr (redirect 2) w2) λ w3. set_ids setuid setgid setpgid w3
