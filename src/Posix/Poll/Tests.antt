-- ===== src/Posix/Poll/Tests.antt =====
-- A wait longer than one call of poll(2), on a machine that has no descriptor to poll.
use rust_subprocess.Prelude.{
  ℕ, ◌+◌, ◌*◌, ◌^◌, ◌<◌, ◌≤◌, ◌≡◌, refl, arith, false, none, some, [], List, Option, ok, Returns,
  returned,
}
use rust_subprocess.Posix.Os.{Os, PollFd, Revents}
use rust_subprocess.Posix.Poll.{i32_max, poll, poll_loop}
use rust_subprocess.Posix.Poll.Waiting.{WaitsTimeout, poll_elapsed, poll-Returns}

abbrev waited : Option ℕ → ℕ → ℕ
waited none w = w
waited (some ms) w = w + ms * 1_000_000

-- The clock alone, and no events ever.
abbrev quiet : Os
quiet = record {
  World = ℕ;
  now = λ w. w;
  latest = 2 ^ 63 * 1_000_000_000;
  sys_poll = λ fds ms w. (ok (0, λ i flag. false), waited ms w);
  sys_read = λ fd len w. (ok [], w);
  sys_write = λ fd buf w. (ok 0, w);
  sys_close = λ fd w. w;
}

quiet-WaitsTimeout : WaitsTimeout quiet
quiet-WaitsTimeout = record { waits = waits }
  where
    waits :
        (fds : List PollFd) (ms w : ℕ) (revents : ℕ → Revents) (w' : ℕ)
        → quiet.sys_poll fds (some ms) w ≡ (ok (0, revents), w')
        → w + ms * 1_000_000 ≤ w'
    waits fds ms w revents w' e = ground (arith, e)

-- A second longer than one call can wait.
abbrev long_time : ℕ
long_time = (i32_max + 1000) * 1_000_000

poll_long : poll quiet 2 [] (some long_time) 5 ≡ returned (ok (0, λ i flag. false), 5 + long_time)
unfolding poll poll_loop
poll_long = refl

poll_elapsed_example : 5 + long_time < (5 + long_time) + 1_000_000
poll_elapsed_example =
    poll_elapsed quiet quiet-WaitsTimeout 2 [] long_time 5 (λ i flag. false) (5 + long_time)
      poll_long

poll-Returns_example : Returns (poll quiet 2 [] (some long_time) 5)
poll-Returns_example =
    poll-Returns quiet quiet-WaitsTimeout 2 [] long_time 5 (omega arith) (omega arith)
