-- ===== src/Communicate/ReadLoop/Limit.antt =====
-- The size limit of `read` (src/communicate.rs).
use rust_subprocess.Prelude.{
  ℕ, ◌+◌, ◌≤◌, ◌≡◌, refl, [], Option, none, some, arith, Result, IoError, Bytes, length, ok_or,
  length-append, Run, returned, panicked, unfinished,
}
use rust_subprocess.Posix.Os.{Os}
use rust_subprocess.Communicate.Pipes.{ReadsWithin}
use rust_subprocess.Communicate.Raw.{
  RawCommunicator, Loop, Ending, buffer_length, do_read, feed_stdin, drain_stdout, drain_stderr,
}
use rust_subprocess.Communicate.ReadLoop.{read_loop, start, Capture, read}
use rust_subprocess.Communicate.ReadLoop.Invariant.{Ends, Keeps, read_loop-Ends, turn-Keeps}

-- The bytes that an output option holds.
abbrev pub held : Option Bytes → ℕ
held none = 0
held (some v) = length v

module _ (os : Os) (law : ReadsWithin os) (limit : ℕ) where
  abbrev Bounded : Loop os → Type 0
  Bounded l = length l.outvec + length l.errvec ≤ limit

  abbrev BoundedEnd : Ending os → Type 0
  BoundedEnd (reply, l) = Bounded l

  fed : (l : Loop os) → Bounded l → Keeps os Bounded BoundedEnd (feed_stdin os l)
  unfolding feed_stdin
  fed l h = ground (arith, h)

  -- One read of an output, beside which `other` bytes are held.
  abbrev Fits : ℕ → Run (Result (Unit {0}) IoError × Option ℕ × Bytes × os.World) → Type 0
  Fits other (returned (reply, source, dest, w)) = length dest + other ≤ limit
  Fits other panicked = Unit
  Fits other unfinished = Unit

  do_read-Fits :
      (source : Option ℕ) (dest : Bytes) (other total : ℕ) (w : os.World)
      → total ≡ length dest + other
      → length dest + other ≤ limit
      → Fits other (do_read os source dest (some limit) total w)
  unfolding do_read
  do_read-Fits none dest other total w e h = ground (arith, h)
  do_read-Fits (some fd) dest other total w e h =
      let len = buffer_length (some limit) total in
      ground (arith, h, law.reads fd len w, length-append dest (ok_or (os.sys_read fd len w).0 []))

  drained_out :
      (l : Loop os) → Bounded l → Keeps os Bounded BoundedEnd (drain_stdout os (some limit) l)
  unfolding drain_stdout
  drained_out l h = ground (
    arith,
    do_read-Fits l.stdout_ref l.outvec (length l.errvec) (length l.outvec + length l.errvec) l.world
        refl h,
  )

  drained_err :
      (l : Loop os) → Bounded l → Keeps os Bounded BoundedEnd (drain_stderr os (some limit) l)
  unfolding drain_stderr
  drained_err l h = ground (
    arith,
    do_read-Fits l.stderr_ref l.errvec (length l.outvec) (length l.outvec + length l.errvec) l.world
        (omega arith) (omega (arith, h)),
  )

  read_loop-Bounded :
      (fuel poll_fuel : ℕ) (deadline : Option ℕ) (l : Loop os)
      → Bounded l
      → Ends os Bounded BoundedEnd (read_loop os fuel poll_fuel deadline (some limit) l)
  read_loop-Bounded fuel poll_fuel deadline l h =
      read_loop-Ends os Bounded BoundedEnd poll_fuel deadline (some limit)
        (λ l p _.
          turn-Keeps os Bounded BoundedEnd (some limit) (λ fds ms l p. p) (λ e l p. p) fed
            drained_out drained_err poll_fuel deadline l p)
        (λ l p _. p) fuel l h

  -- If no read returns more than its buffer holds: whatever the child does and however `read` ends,
  -- the two vectors that it returns hold together no more bytes than the size limit.
  pub read_limit :
      (fuel poll_fuel : ℕ) (deadline : Option ℕ) (comm comm' : RawCommunicator) (w w' : os.World)
      (c : Capture)
      → read os fuel poll_fuel deadline (some limit) comm w ≡ returned (c, comm', w')
      → held c.stdout + held c.stderr ≤ limit
  unfolding read
  read_limit fuel poll_fuel deadline comm comm' w w' c e =
      ground (arith, e, read_loop-Bounded fuel poll_fuel deadline (start os comm w) (omega arith))
