-- ===== src/Posix/Poll/Frame.antt =====
-- What no single call of poll(2) changes, in `poll` of src/posix.rs.
use rust_subprocess.Prelude.{
  ℕ, zero, suc, ◌-◌, List, Option, none, some, arith, Result, ok, err, IoError, Run, returned,
  panicked, unfinished, ◌+◌,
}
use rust_subprocess.Posix.Os.{Os, PollFd, Revents}
use rust_subprocess.Posix.Poll.{timeout_ms, Polled, poll_loop, poll}

module _ (os : Os) (P : os.World → Type 0) where
  open os use {World, now, sys_poll}

  abbrev pub PolledIn : Run (Polled os) → Type 0
  PolledIn (returned (reply, w)) = P w
  PolledIn panicked = Unit
  PolledIn unfinished = Unit

  module _
      (frame : (fds : List PollFd) (ms : Option ℕ) (w : World)
        → P w
        → P (sys_poll fds ms w).1) where
    poll_loop-PolledIn :
        (fuel : ℕ) (fds : List PollFd) (deadline timeout : Option ℕ) (w : World)
        → P w
        → PolledIn (poll_loop os fuel fds deadline timeout w)
    unfolding poll_loop
    poll_loop-PolledIn zero fds deadline timeout w h = tt
    poll_loop-PolledIn (suc fuel) fds none timeout w h =
        ground (arith, frame fds (timeout_ms timeout).0 w h)
    poll_loop-PolledIn (suc fuel) fds (some d) timeout w h =
        let w1 = (sys_poll fds (timeout_ms timeout).0 w).1 in
        let kept = frame fds (timeout_ms timeout).0 w h in
        ground (arith, kept, poll_loop-PolledIn fuel fds (some d) (some (d - now w1)) w1 kept)

    pub poll-PolledIn :
        (fuel : ℕ) (fds : List PollFd) (timeout : Option ℕ) (w : World)
        → P w
        → PolledIn (poll os fuel fds timeout w)
    unfolding poll
    poll-PolledIn fuel fds none w h = poll_loop-PolledIn fuel fds none none w h
    poll-PolledIn fuel fds (some t) w h =
        ground (arith, poll_loop-PolledIn fuel fds (some (now w + t)) (some t) w h)

-- What holds of the events of every call holds of the events that `poll` returns.
module _ (os : Os) (R : (ℕ → Revents) → Type 0) where
  open os use {World, now, sys_poll}

  abbrev pub ReplyHas : Result (ℕ × (ℕ → Revents)) IoError → Type 0
  ReplyHas (ok (cnt, revents)) = R revents
  ReplyHas (err e) = Unit

  abbrev pub RepliesWith : Run (Polled os) → Type 0
  RepliesWith (returned (reply, w)) = ReplyHas reply
  RepliesWith panicked = Unit
  RepliesWith unfinished = Unit

  module _ (fds : List PollFd)
      (replies : (ms : Option ℕ) (w : World) → ReplyHas (sys_poll fds ms w).0) where
    poll_loop-RepliesWith :
        (fuel : ℕ) (deadline timeout : Option ℕ) (w : World)
        → RepliesWith (poll_loop os fuel fds deadline timeout w)
    unfolding poll_loop
    poll_loop-RepliesWith zero deadline timeout w = tt
    poll_loop-RepliesWith (suc fuel) none timeout w =
        ground (arith, replies (timeout_ms timeout).0 w)
    poll_loop-RepliesWith (suc fuel) (some d) timeout w =
        let w1 = (sys_poll fds (timeout_ms timeout).0 w).1 in
        ground (
          arith,
          replies (timeout_ms timeout).0 w,
          poll_loop-RepliesWith fuel (some d) (some (d - now w1)) w1,
        )

    pub poll-RepliesWith :
        (fuel : ℕ) (timeout : Option ℕ) (w : World) → RepliesWith (poll os fuel fds timeout w)
    unfolding poll
    poll-RepliesWith fuel none w = poll_loop-RepliesWith fuel none none w
    poll-RepliesWith fuel (some t) w =
        ground (arith, poll_loop-RepliesWith fuel (some (now w + t)) (some t) w)
