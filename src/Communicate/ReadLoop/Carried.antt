-- ===== src/Communicate/ReadLoop/Carried.antt =====
-- The variables of `read_into` (src/communicate.rs) beside the bytes that the pipes have carried.
use rust_subprocess.Prelude.{
  ℕ, ◌+◌, ◌≡◌, ◌≢◌, ap, refl, sym, ◌∙◌, true, [], ◌++◌, Option, none, some, ok, err, Bytes, length,
  drop, List,
}
use rust_subprocess.Posix.Os.{Os, PollFd}
use rust_subprocess.Communicate.Pipes.{Pipes, PipeLaws, Idle}
use rust_subprocess.Communicate.Raw.{
  RawCommunicator, Loop, Ending, feed_stdin, drain_stdout, drain_stderr,
}
use rust_subprocess.Communicate.ReadLoop.{read_loop, is_over}
use rust_subprocess.Communicate.ReadLoop.Invariant.{
  Keeps, Ends, read_loop-Ends, turn-Keeps, Keeps-join, Keeps-weaken,
}
use rust_subprocess.Communicate.ReadLoop.Statements.{
  BesideInput, feed_stdin-BesideInput, do_read-ReadIn, BesideOut, BesideErr, drain_stdout-BesideOut,
  drain_stderr-BesideErr,
}
use rust_subprocess.Communicate.ReadLoop.Outputs.{
  Drained, Drained-source, Drained-frame, do_read-ReadDrained,
}
use rust_subprocess.Communicate.ReadLoop.Input.{Fed, Fed-frame, chunk, feed_stdin-FlowFed}

-- What was read before, of a stream that there is.
abbrev pub before : Option ℕ → (ℕ → Bytes) → Bytes
before none taken = []
before (some fd) taken = taken fd

-- The two outputs are not one stream.
abbrev pub AreDistinct : Option ℕ → Option ℕ → Type 0
AreDistinct a b = (m n : ℕ) → a ≡ some m → b ≡ some n → m ≢ n

module _ {os : Os} (p : Pipes os) (laws : PipeLaws p) (comm0 : RawCommunicator) (w0 : os.World)
    (distinct : AreDistinct comm0.stdout comm0.stderr) where
  open os use {World}
  open p use {sent, taken, ended, closed}

  -- All that the child's input is to have carried.
  abbrev pub all_input : Bytes
  all_input = before comm0.stdin (λ fd. sent fd w0) ++ drop comm0.input_pos comm0.input_data

  pub record Carried (l : Loop os) : Type 0 where
    pub stdout_same : l.comm.stdout ≡ comm0.stdout
    pub stderr_same : l.comm.stderr ≡ comm0.stderr
    pub input : Fed p laws comm0.stdin all_input l.comm l.world
    pub out :
        Drained p laws comm0.stdout
          (before comm0.stdout (λ fd. taken fd w0))
          l.stdout_ref
          l.outvec
          l.world
    pub errs :
        Drained p laws comm0.stderr
          (before comm0.stderr (λ fd. taken fd w0))
          l.stderr_ref
          l.errvec
          l.world

  -- A run that reports no error has come to one of the loop's two ends.
  abbrev pub CarriedEnd : Option ℕ → Ending os → Type 0
  CarriedEnd size_limit (ok u, l) = Carried l × (is_over os size_limit l ≡ true)
  CarriedEnd size_limit (err e, l) = Carried l

  -- All but the input, in another world.
  abbrev Outs : Loop os → World → Type 0
  Outs l w =
      Drained p laws comm0.stdout (before comm0.stdout (λ fd. taken fd w0)) l.stdout_ref l.outvec w
      × Drained p laws comm0.stderr (before comm0.stderr (λ fd. taken fd w0)) l.stderr_ref l.errvec
          w

  Outs-frame :
      (l : Loop os) (w w' : World)
      → ((n : ℕ) → taken n w' ≡ taken n w)
      → ((n : ℕ) → ended n w ≡ true → ended n w' ≡ true)
      → Outs l w
      → Outs l w'
  Outs-frame l w w' same kept (o, e) = (
    Drained-frame p laws comm0.stdout _ l.stdout_ref l.outvec w w' (λ n _. same n) kept o,
    Drained-frame p laws comm0.stderr _ l.stderr_ref l.errvec w w' (λ n _. same n) kept e,
  )

  Outs-Idle : (l : Loop os) (w w' : World) → Idle p w w' → Outs l w → Outs l w'
  Outs-Idle l w w' idle = Outs-frame l w w' idle.taken_same idle.ended_kept

  join_input_at :
      (l l' : Loop os)
      → BesideInput os (Outs l) l l'
      → Fed p laws comm0.stdin all_input l'.comm l'.world
      → Carried l
      → Carried l'
  join_input_at l l' b f c = record {
    stdout_same = b.stdout_same ∙ c.stdout_same;
    stderr_same = b.stderr_same ∙ c.stderr_same;
    input = f;
    out = rw (b.stdout_ref_same, b.outvec_same) b.holds.0;
    errs = rw (b.stderr_ref_same, b.errvec_same) b.holds.1;
  }

  polled :
      (fds : List PollFd) (ms : Option ℕ) (l : Loop os)
      → Carried l
      → Carried (record l { world = (os.sys_poll fds ms l.world).1 })
  polled fds ms l c =
      let idle = laws.poll_idle fds ms l.world in
      let (o, e) = Outs-Idle l l.world _ idle (c.out, c.errs) in
      record {
        stdout_same = c.stdout_same;
        stderr_same = c.stderr_same;
        input =
            Fed-frame p laws comm0.stdin all_input l.comm l.world _ idle.sent_same idle.closed_kept
              c.input;
        out = o;
        errs = e;
      }

  fed :
      (size_limit : Option ℕ) (l : Loop os)
      → Carried l
      → Keeps os Carried (CarriedEnd size_limit) (feed_stdin os l)
  fed size_limit l c =
      Keeps-join os (BesideInput os (Outs l) l)
        (λ l'. Fed p laws comm0.stdin all_input l'.comm l'.world) Carried (CarriedEnd size_limit)
        (feed_stdin os l) (λ l' b f. join_input_at l l' b f c) (λ e l' h. h)
        (feed_stdin-BesideInput os (Outs l) l l.comm.stdin refl written
          (λ fd. Outs-Idle l _ _ (laws.close_idle fd _) (written fd)))
        (feed_stdin-FlowFed p laws comm0.stdin all_input l c.input)
    where
      written : (fd : ℕ) → Outs l (os.sys_write fd (chunk l.comm) l.world).1
      written fd =
          let wrote = laws.write_frame fd (chunk l.comm) l.world in
          Outs-frame l l.world _ wrote.taken_same wrote.ended_kept (c.out, c.errs)

  -- The stream of one output, in another world and with another reader and vector.
  abbrev OutIs : Option ℕ → Bytes → World → Type 0
  OutIs = Drained p laws comm0.stdout (before comm0.stdout (λ fd. taken fd w0))

  abbrev ErrIs : Option ℕ → Bytes → World → Type 0
  ErrIs = Drained p laws comm0.stderr (before comm0.stderr (λ fd. taken fd w0))

  abbrev BesideOuts : Loop os → World → Type 0
  BesideOuts l w = Fed p laws comm0.stdin all_input l.comm w × ErrIs l.stderr_ref l.errvec w

  abbrev BesideErrs : Loop os → World → Type 0
  BesideErrs l w = Fed p laws comm0.stdin all_input l.comm w × OutIs l.stdout_ref l.outvec w

  Fed-read :
      (l : Loop os) (fd len : ℕ)
      → Carried l
      → Fed p laws comm0.stdin all_input l.comm (os.sys_read fd len l.world).1
  Fed-read l fd len c =
      let moved = laws.read_frame fd len l.world in
      Fed-frame p laws comm0.stdin all_input l.comm l.world _ moved.sent_same moved.closed_kept
        c.input

  BesideOuts-read :
      (l : Loop os) (fd len : ℕ)
      → Carried l
      → l.stdout_ref ≡ some fd
      → BesideOuts l (os.sys_read fd len l.world).1
  BesideOuts-read l fd len c e =
      let moved = laws.read_frame fd len l.world in
      (
        Fed-read l fd len c,
        Drained-frame p laws comm0.stderr _ l.stderr_ref l.errvec l.world _
            (λ n is_err. moved.taken_same n λ same.
              distinct fd n
                (Drained-source p laws comm0.stdout _ fd l.stdout_ref l.outvec l.world e c.out)
                is_err (sym same))
            moved.ended_kept c.errs,
      )

  BesideErrs-read :
      (l : Loop os) (fd len : ℕ)
      → Carried l
      → l.stderr_ref ≡ some fd
      → BesideErrs l (os.sys_read fd len l.world).1
  BesideErrs-read l fd len c e =
      let moved = laws.read_frame fd len l.world in
      (
        Fed-read l fd len c,
        Drained-frame p laws comm0.stdout _ l.stdout_ref l.outvec l.world _
            (λ n is_out. moved.taken_same n λ same.
              distinct n fd is_out
                (Drained-source p laws comm0.stderr _ fd l.stderr_ref l.errvec l.world e c.errs)
                same)
            moved.ended_kept c.out,
      )

  join_out_at : (l l' : Loop os) → BesideOut os (BesideOuts l) OutIs l l' → Carried l → Carried l'
  join_out_at l l' b c = record {
    stdout_same = ap (λ m. m.stdout) b.comm_same ∙ c.stdout_same;
    stderr_same = ap (λ m. m.stderr) b.comm_same ∙ c.stderr_same;
    input = rw b.comm_same b.holds.0;
    out = b.drained;
    errs = rw (b.stderr_ref_same, b.errvec_same) b.holds.1;
  }

  join_err_at : (l l' : Loop os) → BesideErr os (BesideErrs l) ErrIs l l' → Carried l → Carried l'
  join_err_at l l' b c = record {
    stdout_same = ap (λ m. m.stdout) b.comm_same ∙ c.stdout_same;
    stderr_same = ap (λ m. m.stderr) b.comm_same ∙ c.stderr_same;
    input = rw b.comm_same b.holds.0;
    out = rw (b.stdout_ref_same, b.outvec_same) b.holds.1;
    errs = b.drained;
  }

  drained_out :
      (size_limit : Option ℕ) (l : Loop os)
      → Carried l
      → Keeps os Carried (CarriedEnd size_limit) (drain_stdout os size_limit l)
  drained_out size_limit l c =
      let total = length l.outvec + length l.errvec in
      Keeps-weaken os (BesideOut os (BesideOuts l) OutIs l) Carried (CarriedEnd size_limit)
        (drain_stdout os size_limit l) (λ l' b. join_out_at l l' b c) (λ e l' h. h)
        (drain_stdout-BesideOut os (BesideOuts l) OutIs size_limit l (
          do_read-ReadIn os (BesideOuts l) l.stdout_ref l.outvec size_limit total l.world
              (c.input, c.errs) (λ fd. BesideOuts-read l fd _ c),
          do_read-ReadDrained p laws comm0.stdout _ l.stdout_ref l.outvec size_limit total l.world
              c.out,
        ))

  drained_err :
      (size_limit : Option ℕ) (l : Loop os)
      → Carried l
      → Keeps os Carried (CarriedEnd size_limit) (drain_stderr os size_limit l)
  drained_err size_limit l c =
      let total = length l.outvec + length l.errvec in
      Keeps-weaken os (BesideErr os (BesideErrs l) ErrIs l) Carried (CarriedEnd size_limit)
        (drain_stderr os size_limit l) (λ l' b. join_err_at l l' b c) (λ e l' h. h)
        (drain_stderr-BesideErr os (BesideErrs l) ErrIs size_limit l (
          do_read-ReadIn os (BesideErrs l) l.stderr_ref l.errvec size_limit total l.world
              (c.input, c.out) (λ fd. BesideErrs-read l fd _ c),
          do_read-ReadDrained p laws comm0.stderr _ l.stderr_ref l.errvec size_limit total l.world
              c.errs,
        ))

  pub read_loop-CarriedEnd :
      (fuel poll_fuel : ℕ) (deadline size_limit : Option ℕ) (l : Loop os)
      → Carried l
      → Ends os Carried (CarriedEnd size_limit) (read_loop os fuel poll_fuel deadline size_limit l)
  read_loop-CarriedEnd fuel poll_fuel deadline size_limit l c =
      read_loop-Ends os Carried (CarriedEnd size_limit) poll_fuel deadline size_limit
        (λ l h _.
          turn-Keeps os Carried (CarriedEnd size_limit) size_limit polled (λ e l h. h)
            (fed size_limit) (drained_out size_limit) (drained_err size_limit) poll_fuel deadline l
            h)
        (λ l h over. (h, over)) fuel l c
