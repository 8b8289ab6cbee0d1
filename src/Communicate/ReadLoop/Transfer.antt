-- ===== src/Communicate/ReadLoop/Transfer.antt =====
-- The bytes that `read` (src/communicate.rs) moves.
use rust_subprocess.Prelude.{
  ℕ, ◌≤◌, ◌≡◌, inl, inr, refl, ◌∙◌, true, [], ◌++◌, append-nil, Option, none, some, arith, ok, err,
  Bytes, length, drop, drop-nil, Run, returned, panicked, unfinished, is_none, and_then, subst,
}
use mathlib.Core.Option
use rust_subprocess.Posix.Os.{Os}
use rust_subprocess.Communicate.Pipes.{Pipes, PipeLaws}
use rust_subprocess.Communicate.Raw.{RawCommunicator, Loop, Ending}
use rust_subprocess.Communicate.ReadLoop.{read_loop, is_over, start, Capture, capture, read}
use rust_subprocess.Communicate.ReadLoop.Invariant.{Ends}
use rust_subprocess.Communicate.ReadLoop.Outputs.{Drained}
use rust_subprocess.Communicate.ReadLoop.Input.{Fed}
use rust_subprocess.Communicate.ReadLoop.Carried.{
  before, AreDistinct, Carried, CarriedEnd, read_loop-CarriedEnd,
}

module _ {os : Os} (p : Pipes os) (laws : PipeLaws p) (comm : RawCommunicator) (w : os.World)
    (distinct : AreDistinct comm.stdout comm.stderr)
    (valid : comm.input_pos ≤ length comm.input_data) where
  open os use {World}
  open p use {sent, taken, ended, closed}

  -- What the caller gets of an output: nothing if it was not piped, and otherwise exactly the bytes
  -- that were taken from the pipe since the call began.
  abbrev pub Obtained : Option ℕ → Option Bytes → World → Type 0
  Obtained none got w' = got ≡ none
  Obtained (some fd) got w' = (v : Bytes) × (got ≡ some v) × (taken fd w' ≡ taken fd w ++ v)

  -- The input that the child has got and the input that is left make up the input that there was.
  abbrev pub Supplied : Option ℕ → RawCommunicator → World → Type 0
  Supplied none comm' w' = comm'.stdin ≡ none
  Supplied (some fd) comm' w' =
      sent fd w' ++ drop comm'.input_pos comm'.input_data
      ≡ sent fd w ++ drop comm.input_pos comm.input_data

  -- Everything has been done to a stream: the input is closed behind its last byte, an output has
  -- been read to its end.
  abbrev pub Finished : World → Type 0
  Finished w' =
      ((fd : ℕ)
        → comm.stdin ≡ some fd
        → (sent fd w' ≡ sent fd w ++ drop comm.input_pos comm.input_data) × (closed fd w' ≡ true))
      × ((fd : ℕ) → comm.stdout ≡ some fd → ended fd w' ≡ true)
      × ((fd : ℕ) → comm.stderr ≡ some fd → ended fd w' ≡ true)

  start_input :
      (stdin : Option ℕ)
      → comm.stdin ≡ stdin
      → Fed p laws stdin
          (before stdin (λ fd. sent fd w) ++ drop comm.input_pos comm.input_data)
          comm
          w
  start_input none e = e
  start_input (some fd) e = (refl, inl (e, valid))

  start_output : (fd : Option ℕ) → Drained p laws fd (before fd (λ n. taken n w)) fd [] w
  start_output none = (refl, refl)
  start_output (some fd) = (rw append-nil, inl refl)

  start-Carried : Carried p laws comm w distinct (start os comm w)
  start-Carried = record {
    stdout_same = refl;
    stderr_same = refl;
    input = start_input comm.stdin refl;
    out = start_output comm.stdout;
    errs = start_output comm.stderr;
  }

  Drained-Obtained :
      (fd : Option ℕ) (source : Option ℕ) (vec : Bytes) (w' : World)
      → Drained p laws fd (before fd (λ n. taken n w)) source vec w'
      → Obtained fd (Option.map (λ _. vec) fd) w'
  Drained-Obtained none source vec w' d = refl
  Drained-Obtained (some fd) source vec w' (t, _) = (vec, refl, t)

  Fed-Supplied :
      (stdin : Option ℕ) (comm' : RawCommunicator) (w' : World)
      → Fed p laws stdin
          (before stdin (λ fd. sent fd w) ++ drop comm.input_pos comm.input_data)
          comm'
          w'
      → Supplied stdin comm' w'
  Fed-Supplied none comm' w' f = f
  Fed-Supplied (some fd) comm' w' (t, _) = t

  -- A fact about what `read` returns, from the loop's end.
  read_holds :
      (T : Capture × RawCommunicator × World → Type 0) (fuel poll_fuel : ℕ)
      (deadline size_limit : Option ℕ)
      → ((ending : Ending os)
          → CarriedEnd p laws comm w distinct size_limit ending
          → T (capture os ending))
      → (t : Capture × RawCommunicator × World)
      → read os fuel poll_fuel deadline size_limit comm w ≡ returned t
      → T t
  unfolding read
  read_holds T fuel poll_fuel deadline size_limit step t e =
      at_end (read_loop os fuel poll_fuel deadline size_limit (start os comm w))
        (read_loop-CarriedEnd p laws comm w distinct fuel poll_fuel deadline size_limit
          (start os comm w) start-Carried)
        e
    where
      at_end :
          (r : Run (Ending os))
          → Ends os
              (Carried p laws comm w distinct)
              (CarriedEnd p laws comm w distinct size_limit)
              r
          → and_then r (λ ending. returned (capture os ending)) ≡ returned t
          → T t
      at_end (returned ending) h e =
          let same : capture os ending ≡ t = cc in subst T same (step ending h)
      at_end panicked h e = cc
      at_end unfinished h e = cc

  Carried-of :
      (size_limit : Option ℕ) (ending : Ending os)
      → CarriedEnd p laws comm w distinct size_limit ending
      → Carried p laws comm w distinct ending.1
  Carried-of size_limit (ok u, l) h = h.0
  Carried-of size_limit (err e, l) h = h

  -- For two different outputs, and a position within the input data: however `read` ends, at a
  -- limit or with an error or a timeout included, no byte is lost, invented or reordered. What the
  -- child has been sent and what is left of the input make up the input, and each piped output's
  -- vector is what was taken from that pipe.
  pub read_transfer :
      (fuel poll_fuel : ℕ) (deadline size_limit : Option ℕ) (c : Capture) (comm' : RawCommunicator)
      (w' : World)
      → read os fuel poll_fuel deadline size_limit comm w ≡ returned (c, comm', w')
      → Supplied comm.stdin comm' w'
        × Obtained comm.stdout c.stdout w'
        × Obtained comm.stderr c.stderr w'
  read_transfer fuel poll_fuel deadline size_limit c comm' w' e =
      read_holds
        (λ t.
          Supplied comm.stdin t.1 t.2
          × Obtained comm.stdout t.0.stdout t.2
          × Obtained comm.stderr t.0.stderr t.2)
        fuel poll_fuel deadline size_limit
        (λ ending h.
          let k = Carried-of size_limit ending h in
          let l = ending.1 in
          (
            Fed-Supplied comm.stdin l.comm l.world k.input,
            rw k.stdout_same (Drained-Obtained comm.stdout l.stdout_ref l.outvec l.world k.out),
            rw k.stderr_same (Drained-Obtained comm.stderr l.stderr_ref l.errvec l.world k.errs),
          ))
        (c, comm', w') e

  Drained-ended :
      (fd : Option ℕ) (bytes : Bytes) (source : Option ℕ) (vec : Bytes) (w' : World) (n : ℕ)
      → Drained p laws fd bytes source vec w'
      → is_none source ≡ true
      → fd ≡ some n
      → ended n w' ≡ true
  Drained-ended none bytes source vec w' n d h e = cc
  Drained-ended (some m) bytes source vec w' n (t, inl open_) h e = ground (arith, open_, h)
  Drained-ended (some m) bytes source vec w' n (t, inr (shut, at)) h e =
      let same : m ≡ n = cc in rw same at at

  Fed-closed :
      (stdin : Option ℕ) (total : Bytes) (comm' : RawCommunicator) (w' : World) (n : ℕ)
      → Fed p laws stdin total comm' w'
      → is_none comm'.stdin ≡ true
      → stdin ≡ some n
      → (sent n w' ≡ total) × (closed n w' ≡ true)
  Fed-closed none total comm' w' n f h e = cc
  Fed-closed (some m) total comm' w' n (t, inl (open_, _)) h e = ground (arith, open_, h)
  Fed-closed (some m) total comm' w' n (t, inr (s, d, c)) h e =
      ground (arith, t, d, c, e, drop-nil {A = ℕ} comm'.input_pos, append-nil (sent m w'))

  over_parts :
      (l : Loop os)
      → is_over os none l ≡ true
      → (is_none l.comm.stdin ≡ true)
        × (is_none l.stdout_ref ≡ true)
        × (is_none l.stderr_ref ≡ true)
  over_parts l h = ground (arith, h)

  all_streams :
      (stdin : Option ℕ)
      → comm.stdin ≡ stdin
      → (n : ℕ) → stdin ≡ some n
      → before stdin (λ fd. sent fd w) ++ drop comm.input_pos comm.input_data
        ≡ sent n w ++ drop comm.input_pos comm.input_data
  all_streams none e n h = cc
  all_streams (some m) e n h = let same : m ≡ n = cc in rw same

  CarriedEnd-Finished :
      (ending : Ending os)
      → CarriedEnd p laws comm w distinct none ending
      → (capture os ending).0.error ≡ none
      → Finished ending.1.world
  CarriedEnd-Finished (err e, l) h none_failed = cc
  CarriedEnd-Finished (ok u, l) (k, over) none_failed =
      let (i, o, e) = over_parts l over in
      (
        λ fd is_in.
            let (s, c) = Fed-closed comm.stdin _ l.comm l.world fd k.input i is_in in
            (s ∙ all_streams comm.stdin refl fd is_in, c),
        λ fd. Drained-ended comm.stdout _ l.stdout_ref l.outvec l.world fd k.out o,
        λ fd. Drained-ended comm.stderr _ l.stderr_ref l.errvec l.world fd k.errs e,
      )

  -- For two different outputs, and a position within the input data: without a size limit, a `read`
  -- that reports no error has sent all of the input, has closed the child's standard input behind
  -- it, and has met the end of each piped output.
  pub read_complete :
      (fuel poll_fuel : ℕ) (deadline : Option ℕ) (c : Capture) (comm' : RawCommunicator)
      (w' : World)
      → read os fuel poll_fuel deadline none comm w ≡ returned (c, comm', w')
      → c.error ≡ none
      → Finished w'
  read_complete fuel poll_fuel deadline c comm' w' e =
      read_holds (λ t. t.0.error ≡ none → Finished t.2) fuel poll_fuel deadline none
        CarriedEnd-Finished (c, comm', w') e
