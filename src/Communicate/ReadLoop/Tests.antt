-- ===== src/Communicate/ReadLoop/Tests.antt =====
-- Runs of `read` on a small machine.
use rust_subprocess.Prelude.{
  ℕ, zero, suc, ◌≡◌, refl, arith, false, [], ◌∷◌, some, none, Bytes, Run, Returns, returned,
  panicked, unfinished, ◌+◌, ◌≤◌,
}
use rust_subprocess.Communicate.Machine.{
  Machine, machine, pipes, progress, machine-WaitsTimeout, machine-ReadsWithin, machine-PipeLaws,
  machine-ProgressLaws,
}
use rust_subprocess.Communicate.Raw.{
  RawCommunicator, do_read, feed_stdin, drain_stdout, drain_stderr,
}
use rust_subprocess.Communicate.Ready.{maybe_poll, single_stream}
use rust_subprocess.Posix.Poll.{poll, poll_loop}
use rust_subprocess.Communicate.ReadLoop.{Capture, read, read_loop, turn, serve, use_streams}
use rust_subprocess.Communicate.ReadLoop.Limit.{read_limit, held}
use rust_subprocess.Communicate.ReadLoop.Transfer.{
  read_transfer, read_complete, Supplied, Obtained, Finished,
}
use rust_subprocess.Communicate.ReadLoop.Carried.{AreDistinct}
use rust_subprocess.Communicate.ReadLoop.Termination.{read-Returns}

abbrev outputs : ℕ → Bytes
outputs (suc zero) = 1 ∷ 2 ∷ 3 ∷ []
outputs (suc (suc zero)) = 9 ∷ []
outputs _ = []

abbrev world : Machine
world = record {
  clock = 0;
  source = outputs;
  sent = λ fd. [];
  taken = λ fd. [];
  ended = λ fd. false;
  closed = λ fd. false;
}

abbrev comm : RawCommunicator
comm = record {
  stdin = some 0;
  stdout = some 1;
  stderr = some 2;
  input_data = 7 ∷ 8 ∷ [];
  input_pos = 0;
}

abbrev Outcome : Type 0
Outcome = Run (Capture × RawCommunicator × Machine)

abbrev result : Outcome → Capture × RawCommunicator × Machine
result (returned t) = t
result panicked = (record { error = none; stdout = none; stderr = none }, comm, world)
result unfinished = (record { error = none; stdout = none; stderr = none }, comm, world)

unfoldable whole : Outcome
unfolding read read_loop turn serve use_streams maybe_poll single_stream poll poll_loop do_read
    feed_stdin drain_stdout drain_stderr
whole = read machine 9 1 none none comm world

unfoldable limited : Outcome
unfolding read read_loop turn serve use_streams maybe_poll single_stream poll poll_loop do_read
    feed_stdin drain_stdout drain_stderr
limited = read machine 9 1 none (some 2) comm world

whole_got :
    ((result whole).0.stdout ≡ some (1 ∷ 2 ∷ 3 ∷ [])) × ((result whole).0.stderr ≡ some (9 ∷ []))
unfolding whole
whole_got = (refl, refl)

distinct : AreDistinct comm.stdout comm.stderr
distinct = ground arith

read_limit_example : held (result limited).0.stdout + held (result limited).0.stderr ≤ 2
unfolding limited
read_limit_example =
    read_limit machine machine-ReadsWithin 2 9 1 none comm (result limited).1 world
      (result limited).2 (result limited).0 refl

read_transfer_example :
    Supplied pipes machine-PipeLaws comm world distinct
      (omega arith)
      comm.stdin
      (result limited).1
      (result limited).2
    × Obtained pipes machine-PipeLaws comm world distinct
        (omega arith)
        comm.stdout
        (result limited).0.stdout
        (result limited).2
    × Obtained pipes machine-PipeLaws comm world distinct
        (omega arith)
        comm.stderr
        (result limited).0.stderr
        (result limited).2
unfolding limited
read_transfer_example =
    read_transfer pipes machine-PipeLaws comm world distinct (omega arith) 9 1 none (some 2)
      (result limited).0 (result limited).1 (result limited).2 refl

read_complete_example :
    Finished pipes machine-PipeLaws comm world distinct (omega arith) (result whole).2
unfolding whole
read_complete_example =
    read_complete pipes machine-PipeLaws comm world distinct (omega arith) 9 1 none (result whole).0
      (result whole).1 (result whole).2 refl refl

read-Returns_example : Returns (read machine 10 1 (some 5) (some 2) comm world)
read-Returns_example =
    read-Returns progress machine-ProgressLaws machine-WaitsTimeout 1 (some 5) (some 2) 10 comm
      world (omega arith) (omega arith) (omega arith)
