-- ===== src/Posix/Poll/Waiting.antt =====
-- The time that `poll` of src/posix.rs waits.
use rust_subprocess.Prelude.{
  ℕ, zero, suc, ◌+◌, ◌-◌, ◌*◌, ◌≤◌, ◌<◌, ◌≡◌, false, List, none, some, arith, leb, Bool-cases, inl,
  inr, Result, ok, err, IoError, Run, Returns, returned, true,
}
use rust_subprocess.Posix.Os.{Os, PollFd, Revents}
use rust_subprocess.Posix.Poll.{i32_max, as_millis, Polled, poll_loop, poll}

-- What poll(2) promises of its timeout: a call that reports no event has waited for all of it.
pub record WaitsTimeout (os : Os) : Type 0 where
  pub waits :
      (fds : List PollFd) (ms : ℕ) (w : os.World) (revents : ℕ → Revents) (w' : os.World)
      → os.sys_poll fds (some ms) w ≡ (ok (0, revents), w')
      → os.now w + ms * 1_000_000 ≤ os.now w'

module _ (os : Os) (law : WaitsTimeout os) where
  open os use {World, now, latest, sys_poll}

  -- The longest single wait, in nanoseconds.
  abbrev round : ℕ
  round = i32_max * 1_000_000

  -- Where the reply of a round is `r`, the loop goes on at `r`'s world or ends.
  abbrev Elapsed : ℕ → Run (Polled os) → Type 0
  Elapsed d r =
      (revents : ℕ → Revents) (w' : World)
      → r ≡ returned (ok (0, revents), w')
      → d < now w' + 1_000_000

  poll_loop-Elapsed :
      (fuel : ℕ) (fds : List PollFd) (d : ℕ) (w : World)
      → Elapsed d (poll_loop os fuel fds (some d) (some (d - now w)) w)
  unfolding poll_loop
  poll_loop-Elapsed zero fds d w revents w' e = cc
  poll_loop-Elapsed (suc fuel) fds d w revents w' e =
      elim (Bool-cases (leb (as_millis (d - now w)) i32_max)) [
        | inl short ↦ ground (arith, short, law.waits fds (as_millis (d - now w)) w revents w')
        | inr long ↦
            let w1 = (sys_poll fds (some i32_max) w).1 in
            ground (
              arith,
              long,
              law.waits fds i32_max w revents w1,
              poll_loop-Elapsed fuel fds d w1 revents w',
            )
      ]

  -- If each call of poll(2) waits out its timeout: `poll` reports no event only when its own
  -- timeout is over, but for the part below a millisecond that the conversion to milliseconds
  -- drops.
  pub poll_elapsed :
      (fuel : ℕ) (fds : List PollFd) (timeout : ℕ) (w : World) (revents : ℕ → Revents) (w' : World)
      → poll os fuel fds (some timeout) w ≡ returned (ok (0, revents), w')
      → now w + timeout < now w' + 1_000_000
  unfolding poll
  poll_elapsed fuel fds timeout w revents w' e =
      let same : now w + timeout - now w ≡ timeout = omega arith in
      elim (Bool-cases (leb timeout (latest - now w))) [
        | inl fits ↦
            poll_loop-Elapsed fuel fds (now w + timeout) w revents w' (rw same (rw fits at e))
        | inr late ↦ let e' = rw late at e in cc
      ]

  abbrev events_of : Result (ℕ × (ℕ → Revents)) IoError → ℕ → Revents
  events_of (ok (cnt, revents)) = revents
  events_of (err e) = λ _ _. false

  poll_loop-Returns :
      (fuel : ℕ) (fds : List PollFd) (d : ℕ) (w : World)
      → d - now w < fuel * round
      → Returns (poll_loop os fuel fds (some d) (some (d - now w)) w)
  unfolding poll_loop
  poll_loop-Returns zero fds d w h = absurd (omega arith)
  poll_loop-Returns (suc fuel) fds d w h = elim (Bool-cases (leb (as_millis (d - now w)) i32_max)) [
    | inl short ↦ ground (arith, short)
    | inr long ↦
        let w1 = (sys_poll fds (some i32_max) w).1 in
        ground (
          arith,
          long,
          law.waits fds i32_max w (events_of (sys_poll fds (some i32_max) w).0) w1,
          poll_loop-Returns fuel fds d w1,
        )
  ]

  -- If each call of poll(2) waits out its timeout: with a round for every 2 ^ 31 - 1 milliseconds
  -- of its own timeout, and one more, `poll` returns, unless its timeout would be over later than
  -- at the last instant that can be represented.
  pub poll-Returns :
      (fuel : ℕ) (fds : List PollFd) (timeout : ℕ) (w : World)
      → timeout < fuel * round
      → timeout ≤ latest - now w
      → Returns (poll os fuel fds (some timeout) w)
  unfolding poll
  poll-Returns fuel fds timeout w h in_time =
      let fits : leb timeout (latest - now w) ≡ true = ground (arith, in_time) in
      let same : now w + timeout - now w ≡ timeout = omega arith in
      rw fits (rw same at (poll_loop-Returns fuel fds (now w + timeout) w (omega arith)))

  pub poll-Returns_untimed :
      (fuel : ℕ) (fds : List PollFd) (w : World) → Returns (poll os (suc fuel) fds none w)
  unfolding poll poll_loop
  poll-Returns_untimed fuel fds w = ground arith
