-- ===== src/Communicate/ReadLoop/Measure.antt =====
-- The work that is left to a turn of `read_into` (src/communicate.rs), and its statements.
use rust_subprocess.Prelude.{
  ℕ, suc, ◌+◌, ◌-◌, ◌≤◌, ◌<◌, ◌≡◌, Bool, true, not, Option, none, some, arith, length, drop, min,
  returned, panicked, unfinished, length-take, length-drop,
}
use rust_subprocess.Posix.Os.{Os}
use rust_subprocess.Communicate.Progress.{Progress, ProgressLaws}
use rust_subprocess.Communicate.Raw.{
  RawCommunicator, Loop, Flow, next, leave, write_size, limit_reached, buffer_length, do_read,
  feed_stdin, drain_stdout, drain_stderr,
}
use rust_subprocess.Communicate.ReadLoop.Input.{chunk}

-- A statement goes on to a state with `P`, or leaves the function with a result.
abbrev pub Goes : {os : Os} → (Loop os → Type 0) → Flow os → Type 0
Goes P (next l) = P l
Goes P (leave (returned ending)) = Unit
Goes P (leave panicked) = ⊥
Goes P (leave unfinished) = ⊥

module _ {os : Os} (p : Progress os) (laws : ProgressLaws p) where
  open os use {World, now}
  open p use {left}

  -- The work that a stream still is: its bytes, and to see its end.
  abbrev pub input_work : RawCommunicator → ℕ
  input_work comm = elim comm.stdin [
    | none ↦ 0
    | some fd ↦ suc (length comm.input_data - comm.input_pos)
  ]

  abbrev pub output_work : Option ℕ → World → ℕ
  output_work none w = 0
  output_work (some fd) w = suc (left fd w)

  abbrev pub work : Loop os → ℕ
  work l = input_work l.comm + output_work l.stdout_ref l.world + output_work l.stderr_ref l.world

  -- The position lies in the data as long as the stream is open.
  abbrev pub IsValid : RawCommunicator → Type 0
  IsValid comm = elim comm.stdin [ none ↦ Unit | some fd ↦ comm.input_pos ≤ length comm.input_data ]

  pub output_work-le :
      (source : Option ℕ) (w w' : World)
      → ((fd : ℕ) → left fd w' ≤ left fd w)
      → output_work source w' ≤ output_work source w
  output_work-le none w w' less = omega arith
  output_work-le (some fd) w w' less = omega (arith, less fd)

  pub record Fewer (l l' : Loop os) : Type 0 where
    pub valid : IsValid l'.comm
    pub stdout_same : l'.stdout_ref ≡ l.stdout_ref
    pub stderr_same : l'.stderr_ref ≡ l.stderr_ref
    pub outvec_same : l'.outvec ≡ l.outvec
    pub errvec_same : l'.errvec ≡ l.errvec
    pub later : now l.world ≤ now l'.world
    pub fewer : work l' < work l

  pub feed_stdin-Fewer :
      (l : Loop os) (fd : ℕ)
      → l.comm.stdin ≡ some fd
      → l.comm.input_pos ≤ length l.comm.input_data
      → Goes (Fewer l) (feed_stdin os l)
  unfolding feed_stdin
  feed_stdin-Fewer l fd e valid =
      let (reply, w) = os.sys_write fd (chunk l.comm) l.world in
      let w' = os.sys_close fd w in
      let wrote = laws.write_later fd (chunk l.comm) l.world in
      let shut = laws.close_later fd w in
      ground (
        arith,
        e,
        valid,
        laws.write_some fd (chunk l.comm) l.world,
        wrote.now_later,
        shut.now_later,
        output_work-le l.stdout_ref l.world w wrote.left_less,
        output_work-le l.stderr_ref l.world w wrote.left_less,
        output_work-le l.stdout_ref w w' shut.left_less,
        output_work-le l.stderr_ref w w' shut.left_less,
        length-take (min write_size (length (drop l.comm.input_pos l.comm.input_data)))
            (drop l.comm.input_pos l.comm.input_data),
        length-drop l.comm.input_pos l.comm.input_data,
      )

  -- A read of an output: nothing grows, and the work gets less unless the limit forbade to read.
  pub record Drains (free : Bool) (l l' : Loop os) : Type 0 where
    pub comm_same : l'.comm ≡ l.comm
    pub later : now l.world ≤ now l'.world
    pub no_more : work l' ≤ work l
    pub fewer : free ≡ true → work l' < work l

  pub record DrainsOut (free : Bool) (l l' : Loop os) : Type 0 where
    pub drains : Drains free l l'
    pub stderr_same : l'.stderr_ref ≡ l.stderr_ref

  pub drain_stdout-DrainsOut :
      (size_limit : Option ℕ) (l : Loop os) (fd : ℕ)
      → l.stdout_ref ≡ some fd
      → Goes
          (DrainsOut (not (limit_reached size_limit (length l.outvec + length l.errvec))) l)
          (drain_stdout os size_limit l)
  unfolding drain_stdout do_read
  drain_stdout-DrainsOut size_limit l fd e =
      let len = buffer_length size_limit (length l.outvec + length l.errvec) in
      let moved = laws.read_later fd len l.world in
      ground (
        arith,
        e,
        laws.read_some fd len l.world,
        moved.now_later,
        moved.left_less fd,
        output_work-le l.stderr_ref l.world (os.sys_read fd len l.world).1 moved.left_less,
      )

  pub drain_stderr-Drains :
      (size_limit : Option ℕ) (l : Loop os) (fd : ℕ)
      → l.stderr_ref ≡ some fd
      → Goes
          (Drains (not (limit_reached size_limit (length l.outvec + length l.errvec))) l)
          (drain_stderr os size_limit l)
  unfolding drain_stderr do_read
  drain_stderr-Drains size_limit l fd e =
      let len = buffer_length size_limit (length l.outvec + length l.errvec) in
      let moved = laws.read_later fd len l.world in
      ground (
        arith,
        e,
        laws.read_some fd len l.world,
        moved.now_later,
        moved.left_less fd,
        output_work-le l.stdout_ref l.world (os.sys_read fd len l.world).1 moved.left_less,
      )
