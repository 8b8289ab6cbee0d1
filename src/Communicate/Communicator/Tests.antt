-- ===== src/Communicate/Communicator/Tests.antt =====
-- Communicators on the small machine.
use rust_subprocess.Prelude.{
  ℕ, ◌+◌, ◌≤◌, ◌≡◌, ◌↔◌, refl, arith, false, [], ◌∷◌, none, some, is_none, Bytes, Result, ok, Run,
  Returns, returned, panicked, unfinished,
}
use rust_subprocess.Communicate.Machine.{
  Machine, machine, pipes, machine-ReadsWithin, machine-PipeLaws,
}
use rust_subprocess.Communicate.Raw.{do_read, feed_stdin, drain_stdout, drain_stderr}
use rust_subprocess.Communicate.Ready.{maybe_poll, single_stream}
use rust_subprocess.Posix.Poll.{poll, poll_loop}
use rust_subprocess.Communicate.ReadLoop.{read_loop, turn, serve, use_streams}
use rust_subprocess.Communicate.ReadLoop
use rust_subprocess.Communicate.ReadLoop.Limit.{held}
use rust_subprocess.Communicate.ReadLoop.Carried.{AreDistinct}
use rust_subprocess.Communicate.ReadLoop.Transfer.{Supplied, Obtained}
use rust_subprocess.Communicate.Communicator.{
  Communicator, Outputs, CommunicateError, communicate, limit_size, read,
}
use rust_subprocess.Communicate.Communicator.Capturing.{
  outputs, read-held, read-Obtained, communicate-Returns,
}

abbrev greeting : ℕ → Bytes
greeting fd = 104 ∷ 105 ∷ 10 ∷ []

abbrev world : Machine
world = record {
  clock = 0;
  source = greeting;
  sent = λ fd. [];
  taken = λ fd. [];
  ended = λ fd. false;
  closed = λ fd. false;
}

abbrev child : Communicator
child = record {
  inner = record { stdin = none; stdout = some 1; stderr = none; input_data = []; input_pos = 0 };
  size_limit = none;
  time_limit = none;
}

abbrev Outcome : Type 0
Outcome = Run (Result Outputs CommunicateError × Communicator × Machine)

abbrev result : Outcome → Result Outputs CommunicateError × Communicator × Machine
result (returned t) = t
result panicked = (ok (none, none), child, world)
result unfinished = (ok (none, none), child, world)

unfoldable limited : Outcome
unfolding read limit_size ReadLoop.read read_loop turn serve use_streams maybe_poll single_stream
    poll poll_loop do_read feed_stdin drain_stdout drain_stderr
limited = read machine 9 1 (limit_size child 2) world

unfoldable whole : Outcome
unfolding read ReadLoop.read read_loop turn serve use_streams maybe_poll single_stream poll
    poll_loop do_read feed_stdin drain_stdout drain_stderr
whole = read machine 9 1 child world

two_bytes : (outputs (result limited).0).0 ≡ some (104 ∷ 105 ∷ [])
unfolding limited
two_bytes = refl

distinct : AreDistinct child.inner.stdout child.inner.stderr
distinct = ground arith

read-held_example : held (outputs (result limited).0).0 + held (outputs (result limited).0).1 ≤ 2
unfolding limited
read-held_example =
    read-held machine machine-ReadsWithin 9 1 2 child (result limited).1 world (result limited).2
      (result limited).0 refl

read-Obtained_example :
    Supplied pipes machine-PipeLaws child.inner world distinct
      (omega arith)
      child.inner.stdin
      (result whole).1.inner
      (result whole).2
    × Obtained pipes machine-PipeLaws child.inner world distinct
        (omega arith)
        child.inner.stdout
        (outputs (result whole).0).0
        (result whole).2
    × Obtained pipes machine-PipeLaws child.inner world distinct
        (omega arith)
        child.inner.stderr
        (outputs (result whole).0).1
        (result whole).2
unfolding whole
read-Obtained_example =
    read-Obtained pipes machine-PipeLaws child (result whole).1 world (result whole).2 distinct
      (omega arith) 9 1 (result whole).0 refl

communicate-Returns_example :
    Returns (communicate (some 3) (some 4) none (some []))
    ↔ (is_none {A = ℕ} (some 3) ≡ is_none {A = Bytes} (some []))
communicate-Returns_example = communicate-Returns (some 3) (some 4) none (some [])
