-- ===== src/Popen/Streams/Tests.antt =====
-- Pipes on a system that counts its descriptors.
use rust_subprocess.Prelude.{
  ℕ, ◌+◌, ◌≡◌, refl, Bool, true, false, none, some, ◌==◌, ==_iff, if◌then◌else◌, ok,
}
use rust_subprocess.Popen.State.{Popen, preparing}
use rust_subprocess.Popen.Streams.{
  no_redirection, pipe, merge, file, StreamsOs, Context, setup_streams, setup_outputs, prepare,
  merge_streams, merge_kind, reuse_stream, get_standard_stream,
}
use rust_subprocess.Popen.Streams.Descriptors.{Yields, Descriptors, DescriptorLaws}
use rust_subprocess.Popen.Streams.Wiring.{Wired, setup_streams-Wired}

record System : Type 0 where
  next : ℕ
  private : ℕ → Bool

-- Two descriptors that follow one another are a pipe; `F_SETFD` closes on exec.
abbrev system : StreamsOs
system = record {
  World = System;
  sys_pipe = λ w. (ok (w.next, w.next + 1), record w { next = w.next + 2 });
  sys_getfd = λ f w. (ok 0, w);
  sys_setfd =
      λ f flags w. (ok tt, record w { private = λ n. if n == f then true else w.private n });
  fd_cloexec = 1;
}

abbrev descriptors : Descriptors system
descriptors = record { is_pipe = λ r w. r + 1 == w; cloexec = λ f w. w.private f }

laws : DescriptorLaws descriptors
laws = record {
  pipe_keeps = λ w f h. h;
  pipe_reply = λ w. (==_iff (w.next + 1) (w.next + 1)).1 refl;
  getfd_keeps = λ f w n h. h;
  setfd_keeps = λ f old w n h. kept (n == f) (w.private n) h;
  setfd_reply = λ f old w. rw ((==_iff f f).1 refl) refl;
}
  where
    kept : (b p : Bool) → p ≡ true → (if b then true else p) ≡ true
    kept true p h = refl
    kept false p h = h

abbrev fresh : Popen
fresh = record {
  stdin = none;
  stdout = none;
  stderr = none;
  child_state = preparing;
  detached = false;
}

abbrev context : Context system
context = record {
  world = record { next = 3; private = λ f. false };
  streams = record { stdin = none; stdout = none; stderr = none };
}

-- Both outputs merged: the standard output, with no error.
both_merged :
    (setup_streams fresh no_redirection merge merge context).0
    ≡ ok
        (record { popen = fresh; child_stdin = none; child_stdout = some 1; child_stderr = some 1 })
unfolding setup_streams setup_outputs prepare merge_streams merge_kind reuse_stream
    get_standard_stream
both_merged = refl

setup_streams-Wired_example :
    Yields
      (Wired descriptors laws pipe (file 9) merge)
      (setup_streams fresh pipe (file 9) merge context)
setup_streams-Wired_example =
    setup_streams-Wired descriptors laws fresh pipe (file 9) merge context refl refl refl
      (tt, tt, tt)
