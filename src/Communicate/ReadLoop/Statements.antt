-- ===== src/Communicate/ReadLoop/Statements.antt =====
-- The statements of a turn of `read_into` (src/communicate.rs), for any properties of the world and of
-- the stream at hand.
use rust_subprocess.Prelude.{
  ℕ, ◌+◌, ◌≡◌, refl, Option, none, some, arith, Result, IoError, Bytes, length, Run, returned,
  panicked, unfinished,
}
use rust_subprocess.Posix.Os.{Os}
use rust_subprocess.Communicate.Raw.{
  Loop, feed_stdin, drain_stdout, drain_stderr, do_read, buffer_length,
}
use rust_subprocess.Communicate.ReadLoop.Invariant.{Keeps, Fails}
use rust_subprocess.Communicate.ReadLoop.Input.{chunk}

-- The reply of `do_read`.
abbrev pub ReadRun : Os → Type 0
ReadRun os = Run (Result (Unit {0}) IoError × Option ℕ × Bytes × os.World)

module _ (os : Os) (R : Option ℕ → Bytes → os.World → Type 0) where
  -- `R` holds of the stream and the vector that `do_read` leaves.
  abbrev pub ReadHas : ReadRun os → Type 0
  ReadHas (returned (reply, source, dest, w)) = R source dest w
  ReadHas panicked = Unit
  ReadHas unfinished = Unit

module _ (os : Os) (D : os.World → Type 0) where
  open os use {World, sys_read, sys_write, sys_close}

  -- The outputs are as they were, and `D` holds of the world.
  pub record BesideInput (l l' : Loop os) : Type 0 where
    pub stdout_same : l'.comm.stdout ≡ l.comm.stdout
    pub stderr_same : l'.comm.stderr ≡ l.comm.stderr
    pub stdout_ref_same : l'.stdout_ref ≡ l.stdout_ref
    pub stderr_ref_same : l'.stderr_ref ≡ l.stderr_ref
    pub outvec_same : l'.outvec ≡ l.outvec
    pub errvec_same : l'.errvec ≡ l.errvec
    pub holds : D l'.world

  pub feed_stdin-BesideInput :
      (l : Loop os) (stdin : Option ℕ)
      → l.comm.stdin ≡ stdin
      → ((fd : ℕ) → D (sys_write fd (chunk l.comm) l.world).1)
      → ((fd : ℕ) → D (sys_close fd (sys_write fd (chunk l.comm) l.world).1))
      → Keeps os (BesideInput l) (Fails (BesideInput l)) (feed_stdin os l)
  unfolding feed_stdin
  feed_stdin-BesideInput l none e written shut = ground (arith, e)
  feed_stdin-BesideInput l (some fd) e written shut = ground (arith, e, written fd, shut fd)

  -- One read changes the world by one call at most.
  abbrev pub ReadIn : ReadRun os → Type 0
  ReadIn (returned (reply, source, dest, w)) = D w
  ReadIn panicked = Unit
  ReadIn unfinished = Unit

  pub do_read-ReadIn :
      (source : Option ℕ) (dest : Bytes) (size_limit : Option ℕ) (total : ℕ) (w : World)
      → D w
      → ((fd : ℕ) → source ≡ some fd → D (sys_read fd (buffer_length size_limit total) w).1)
      → ReadIn (do_read os source dest size_limit total w)
  unfolding do_read
  do_read-ReadIn none dest size_limit total w d moved = ground (arith, d)
  do_read-ReadIn (some fd) dest size_limit total w d moved = ground (arith, d, moved fd refl)

  module _ (R : Option ℕ → Bytes → World → Type 0) where
    -- Of the stream that was read, the reader and the vector have `R`; the rest is as it was.
    pub record BesideOut (l l' : Loop os) : Type 0 where
      pub comm_same : l'.comm ≡ l.comm
      pub stderr_ref_same : l'.stderr_ref ≡ l.stderr_ref
      pub errvec_same : l'.errvec ≡ l.errvec
      pub holds : D l'.world
      pub drained : R l'.stdout_ref l'.outvec l'.world

    pub record BesideErr (l l' : Loop os) : Type 0 where
      pub comm_same : l'.comm ≡ l.comm
      pub stdout_ref_same : l'.stdout_ref ≡ l.stdout_ref
      pub outvec_same : l'.outvec ≡ l.outvec
      pub holds : D l'.world
      pub drained : R l'.stderr_ref l'.errvec l'.world

    pub drain_stdout-BesideOut :
        (size_limit : Option ℕ) (l : Loop os)
        → (let r =
              do_read os l.stdout_ref l.outvec size_limit
                (length l.outvec + length l.errvec)
                l.world in
            ReadIn r × ReadHas os R r)
        → Keeps os (BesideOut l) (Fails (BesideOut l)) (drain_stdout os size_limit l)
    unfolding drain_stdout
    drain_stdout-BesideOut size_limit l h = ground (arith, h)

    pub drain_stderr-BesideErr :
        (size_limit : Option ℕ) (l : Loop os)
        → (let r =
              do_read os l.stderr_ref l.errvec size_limit
                (length l.outvec + length l.errvec)
                l.world in
            ReadIn r × ReadHas os R r)
        → Keeps os (BesideErr l) (Fails (BesideErr l)) (drain_stderr os size_limit l)
    unfolding drain_stderr
    drain_stderr-BesideErr size_limit l h = ground (arith, h)
