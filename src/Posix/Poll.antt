-- ===== src/Posix/Poll.antt =====
-- `poll` of src/posix.rs: a wait of any length by calls that wait 2 ^ 31 - 1 milliseconds at most.
pub mod Waiting
pub mod Frame
mod Tests
use rust_subprocess.Prelude.{
  ℕ, zero, suc, ◌+◌, ◌-◌, ◌/◌, ◌^◌, Bool, true, false, not, ◌||◌, List, Option, none, some, ◌==◌,
  leb, if◌then◌else◌, Result, ok, err, IoError, Run, returned, panicked, unfinished, and_then,
  deadline_at,
}
use rust_subprocess.Posix.Os.{Os, PollFd, Revents}

-- `i32::max_value()`
abbrev pub i32_max : ℕ
i32_max = 2 ^ 31 - 1

-- `Duration::as_millis`
abbrev pub as_millis : ℕ → ℕ
as_millis d = d / 1_000_000

-- The milliseconds that one call waits, and whether the wait is longer than that.
abbrev pub timeout_ms : Option ℕ → Option ℕ × Bool
timeout_ms none = (none, false)
timeout_ms (some timeout) =
    if leb (as_millis timeout) i32_max
    then (some (as_millis timeout), false)
    else (some i32_max, true)

abbrev pub Polled : Os → Type 0
Polled os = Result (ℕ × (ℕ → Revents)) IoError × os.World

module _ (os : Os) where
  open os use {World, now, latest, sys_poll}

  -- The `loop`; the first argument bounds its rounds.
  unfoldable pub poll_loop : ℕ → List PollFd → Option ℕ → Option ℕ → World → Run (Polled os)
  poll_loop zero fds deadline timeout w = unfinished
  poll_loop (suc fuel) fds deadline timeout w =
      let (ms, overflow) = timeout_ms timeout in
      let (reply, w') = sys_poll fds ms w in
      elim reply [
        | err e ↦ returned (err e, w')
        | ok (cnt, revents) ↦
            if not (cnt == 0) || not overflow
            then returned (ok (cnt, revents), w')
            else elim deadline [
              | none ↦ panicked
              | some d ↦
                  let again = poll_loop fuel fds (some d) (some (d - now w')) w' in
                  if leb d (now w') then returned (ok (0, revents), w') else again
            ]
      ]

  unfoldable pub poll : ℕ → List PollFd → Option ℕ → World → Run (Polled os)
  unfolding poll_loop
  poll fuel fds timeout w =
      and_then (deadline_at latest (now w) timeout)
        λ deadline. poll_loop fuel fds deadline timeout w
