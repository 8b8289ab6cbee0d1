-- ===== src/Communicate/ReadLoop/Answers.antt =====
-- The answer of `maybe_poll` in a turn of `read_into` (src/communicate.rs).
use rust_subprocess.Prelude.{
  ℕ, zero, suc, ◌-◌, ◌*◌, ◌≤◌, ◌<◌, ◌≡◌, refl, Bool, true, false, [], ◌∷◌, Option, none, some,
  arith, Result, ok, err, IoError, Run, Returns, returned, panicked, unfinished, and_then,
  Option-cases, inl, inr, List,
}
use rust_subprocess.Posix.Os.{Os, PollFd, Flag, Revents, test, pollin, pollout, pollhup}
use rust_subprocess.Posix.Poll.{i32_max, Polled, poll}
use rust_subprocess.Posix.Poll.Waiting.{WaitsTimeout, poll-Returns, poll-Returns_untimed}
use rust_subprocess.Communicate.Progress.{Progress, ProgressLaws, AbsentIdle, Later}
use rust_subprocess.Communicate.Ready.{Ready, as_pollfd, single_stream, remaining, maybe_poll}
use rust_subprocess.Communicate.Raw.{Loop}
use rust_subprocess.Posix.Poll.Frame.{
  ReplyHas, PolledIn, poll-PolledIn, RepliesWith, poll-RepliesWith,
}
use rust_subprocess.Communicate.ReadLoop.Progress.{FitsStreams}
use rust_subprocess.Communicate.ReadLoop.Measure.{work, output_work-le}

single_stream-fits :
    (fin fout ferr deadline : Option ℕ) (ready : Ready)
    → single_stream fin fout ferr deadline ≡ some ready
    → (ready.in_ready ≡ true → (fd : ℕ) × (fin ≡ some fd))
      × (ready.out_ready ≡ true → (fd : ℕ) × (fout ≡ some fd))
      × (ready.err_ready ≡ true → (fd : ℕ) × (ferr ≡ some fd))
unfolding single_stream
single_stream-fits none none (some e) none ready h =
    (λ i. ground (arith, h, i), λ o. ground (arith, h, o), λ _. (e, refl))
single_stream-fits none (some o) none none ready h =
    (λ i. ground (arith, h, i), λ _. (o, refl), λ e. ground (arith, h, e))
single_stream-fits (some i) none none none ready h =
    (λ _. (i, refl), λ o. ground (arith, h, o), λ e. ground (arith, h, e))
single_stream-fits fin fout ferr deadline ready h = cc

module _ {os : Os} (p : Progress os) (laws : ProgressLaws p) where
  open os use {World, now}
  open p use {left}

  -- The poll's rounds are enough for what is left of the time, and the deadline can be represented.
  abbrev pub EnoughTime : ℕ → Option ℕ → World → Type 0
  EnoughTime poll_fuel none w = 0 < poll_fuel
  EnoughTime poll_fuel (some deadline) w =
      (deadline - now w < poll_fuel * (i32_max * 1_000_000)) × (deadline ≤ os.latest)

  -- What `maybe_poll` answers.
  abbrev pub Answers : Loop os → Run (Result Ready IoError × World) → Type 0
  Answers l (returned (err e, w)) = Unit
  Answers l (returned (ok ready, w)) =
      FitsStreams p laws ready (record l { world = w })
      × (now l.world ≤ now w)
      × (work p laws (record l { world = w }) ≤ work p laws l)
  Answers l panicked = ⊥
  Answers l unfinished = ⊥

  -- The events of a stream that is not there are none.
  test_absent :
      (fd : Option ℕ) (for_read : Bool) (revents : Revents) (a b : Flag)
      → AbsentIdle (as_pollfd fd for_read) revents
      → test revents (a ∷ b ∷ []) ≡ true
      → (n : ℕ) × (fd ≡ some n)
  test_absent none for_read revents a b idle h =
      absurd (ground (arith, idle refl a, idle refl b, h))
  test_absent (some n) for_read revents a b idle h = (n, refl)

  output_work-Later :
      (l : Loop os) (w : World)
      → Later p l.world w
      → work p laws (record l { world = w }) ≤ work p laws l
  output_work-Later l w later = omega (
    arith,
    output_work-le p laws l.stdout_ref l.world w later.left_less,
    output_work-le p laws l.stderr_ref l.world w later.left_less,
  )

  Later-refl : (w : World) → Later p w w
  Later-refl w = record { now_later = omega arith; left_less = λ fd. omega arith }

  Later-trans : (u v w : World) → Later p u v → Later p v w → Later p u w
  Later-trans u v w a b = record {
    now_later = omega (arith, a.now_later, b.now_later);
    left_less = λ fd. omega (arith, a.left_less fd, b.left_less fd);
  }

  -- The three descriptors of the poll.
  abbrev fds_of : Loop os → List PollFd
  fds_of l =
      as_pollfd l.comm.stdin false ∷ as_pollfd l.stdout_ref true ∷ as_pollfd l.stderr_ref true ∷ []

  -- No event of a stream that is not there.
  abbrev Idle3 : Loop os → (ℕ → Revents) → Type 0
  Idle3 l revents =
      AbsentIdle (as_pollfd l.comm.stdin false) (revents 0)
      × AbsentIdle (as_pollfd l.stdout_ref true) (revents 1)
      × AbsentIdle (as_pollfd l.stderr_ref true) (revents 2)

  -- What a poll's reply becomes.
  abbrev answer : Run (Polled os) → Run (Result Ready IoError × World)
  answer r = and_then r λ polled.
      let (reply, w') = polled in
      returned (
        elim reply [
          | err e ↦ err e
          | ok (cnt, revents) ↦ ok (record {
            in_ready = test (revents 0) (pollout ∷ pollhup ∷ []);
            out_ready = test (revents 1) (pollin ∷ pollhup ∷ []);
            err_ready = test (revents 2) (pollin ∷ pollhup ∷ []);
          })
        ],
        w',
      )

  answer-Answers :
      (l : Loop os) (r : Run (Polled os))
      → Returns r
      → PolledIn os (Later p l.world) r
      → RepliesWith os (Idle3 l) r
      → Answers l (answer r)
  answer-Answers l (returned (ok (cnt, revents), w)) h later idle = (
    record {
      in_there = test_absent l.comm.stdin false (revents 0) pollout pollhup idle.0;
      out_there = test_absent l.stdout_ref true (revents 1) pollin pollhup idle.1;
      err_there = test_absent l.stderr_ref true (revents 2) pollin pollhup idle.2;
    },
    later.now_later,
    output_work-Later l w later,
  )
  answer-Answers l (returned (err e, w)) h later idle = tt
  answer-Answers l panicked h later idle = absurd h
  answer-Answers l unfinished h later idle = absurd h

  replies3 :
      (l : Loop os) (ms : Option ℕ) (w : World)
      → ReplyHas os (Idle3 l) (os.sys_poll (fds_of l) ms w).0
  replies3 l ms w = ground (arith, laws.poll_reply (fds_of l) ms w)

  poll-Answers :
      WaitsTimeout os
      → (poll_fuel : ℕ) (deadline : Option ℕ) (l : Loop os) → EnoughTime poll_fuel deadline l.world
      → Answers l (answer (poll os poll_fuel (fds_of l) (remaining deadline (now l.world)) l.world))
  poll-Answers waits poll_fuel deadline l enough =
      answer-Answers l _ (ends poll_fuel deadline enough)
        (poll-PolledIn os (Later p l.world)
          (λ fds ms w h. Later-trans l.world w _ h (laws.poll_later fds ms w)) poll_fuel (fds_of l)
          (remaining deadline (now l.world)) l.world (Later-refl l.world))
        (poll-RepliesWith os (Idle3 l) (fds_of l) (replies3 l) poll_fuel
          (remaining deadline (now l.world)) l.world)
    where
      ends :
          (fuel : ℕ) (d : Option ℕ)
          → EnoughTime fuel d l.world
          → Returns (poll os fuel (fds_of l) (remaining d (now l.world)) l.world)
      ends zero none h = absurd (omega (arith, h))
      ends (suc fuel) none h = poll-Returns_untimed os waits fuel (fds_of l) l.world
      ends fuel (some d) h =
          poll-Returns os waits fuel (fds_of l) _ l.world (ground (arith, h)) (ground (arith, h))

  -- `maybe_poll` answers, and it calls a stream ready only if it is there.
  pub maybe_poll-Answers :
      WaitsTimeout os
      → (poll_fuel : ℕ) (deadline : Option ℕ) (l : Loop os) → EnoughTime poll_fuel deadline l.world
      → Answers l (maybe_poll os poll_fuel l.comm.stdin l.stdout_ref l.stderr_ref deadline l.world)
  unfolding maybe_poll
  maybe_poll-Answers waits poll_fuel deadline l enough =
      elim (Option-cases (single_stream l.comm.stdin l.stdout_ref l.stderr_ref deadline)) [
        | inl e ↦ rw (e, Answers, maybe_poll) (poll-Answers waits poll_fuel deadline l enough)
        | inr (ready, e) ↦
            let (i, o, r) =
              single_stream-fits l.comm.stdin l.stdout_ref l.stderr_ref deadline ready e in
            rw (e, Answers, maybe_poll)
              (record { in_there = i; out_there = o; err_there = r }, omega arith, omega arith)
      ]
