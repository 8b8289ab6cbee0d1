-- ===== src/Communicate/ReadLoop/Termination.antt =====
-- The turns that `read` (src/communicate.rs) needs.
use rust_subprocess.Prelude.{
  ℕ, zero, suc, ◌+◌, ◌≤◌, ◌<◌, ◌≡◌, refl, Bool, true, false, not, ◌&&◌, ◌||◌, Option, none, some,
  arith, Result, ok, err, IoError, length, Run, Returns, returned, panicked, unfinished, Bool-cases,
  inl, inr,
}
use rust_subprocess.Posix.Os.{Os}
use rust_subprocess.Posix.Poll.Waiting.{WaitsTimeout}
use rust_subprocess.Communicate.Progress.{Progress, ProgressLaws}
use rust_subprocess.Communicate.Ready.{Ready}
use rust_subprocess.Communicate.Raw.{RawCommunicator, Loop, Flow, next, leave, limit_reached}
use rust_subprocess.Communicate.ReadLoop.{use_streams, serve, turn, is_over, read_loop, start, read}
use rust_subprocess.Communicate.ReadLoop.Progress.{Goes-map, AfterTurn, use_streams-AfterTurn}
use rust_subprocess.Communicate.ReadLoop.Answers.{EnoughTime, Answers, maybe_poll-Answers}
use rust_subprocess.Communicate.ReadLoop.Measure.{Goes, work, IsValid}

some_ready : (i o r : Bool) → (not i && not o && not r) ≡ false → ((i || o) || r) ≡ true
some_ready true o r h = refl
some_ready false true r h = refl
some_ready false false true h = refl
some_ready false false false h = cc

module _ {os : Os} (p : Progress os) (laws : ProgressLaws p) where
  open os use {World, now}

  serve-AfterTurn :
      (size_limit : Option ℕ) (l : Loop os) (answer : Run (Result Ready IoError × World))
      → limit_reached size_limit (length l.outvec + length l.errvec) ≡ false
      → IsValid p laws l.comm
      → Answers p laws l answer
      → Goes (AfterTurn p laws l) (serve os size_limit l answer)
  unfolding serve
  serve-AfterTurn size_limit l panicked free v h = absurd h
  serve-AfterTurn size_limit l unfinished free v h = absurd h
  serve-AfterTurn size_limit l (returned (err e, w)) free v h = tt
  serve-AfterTurn size_limit l (returned (ok ready, w)) free v (fits, later, less) =
      elim (Bool-cases (not ready.in_ready && not ready.out_ready && not ready.err_ready)) [
        | inl none_ready ↦ rw none_ready tt
        | inr e ↦ rw e (
            Goes-map (AfterTurn p laws (record l { world = w })) (AfterTurn p laws l)
              (use_streams os size_limit ready (record l { world = w }))
              (use_streams-AfterTurn p laws size_limit ready (record l { world = w }) free v fits
                (some_ready ready.in_ready ready.out_ready ready.err_ready e))
              λ l' a. record {
                valid = a.valid;
                later = omega (arith, a.later, later);
                fewer = omega (arith, a.fewer, less);
              })
      ]

  EnoughTime-later :
      (poll_fuel : ℕ) (deadline : Option ℕ) (w w' : World)
      → now w ≤ now w'
      → EnoughTime p laws poll_fuel deadline w
      → EnoughTime p laws poll_fuel deadline w'
  EnoughTime-later poll_fuel none w w' later h = h
  EnoughTime-later poll_fuel (some d) w w' later h = (omega (arith, later, h.0), h.1)

  module _ (waits : WaitsTimeout os) (poll_fuel : ℕ) (deadline size_limit : Option ℕ) where
    turn-AfterTurn :
        (l : Loop os)
        → limit_reached size_limit (length l.outvec + length l.errvec) ≡ false
        → IsValid p laws l.comm
        → EnoughTime p laws poll_fuel deadline l.world
        → Goes (AfterTurn p laws l) (turn os poll_fuel deadline size_limit l)
    unfolding turn
    turn-AfterTurn l free v enough =
        serve-AfterTurn size_limit l _ free v
          (maybe_poll-Answers p laws waits poll_fuel deadline l enough)

    continued :
        (fuel : ℕ) (l : Loop os) (m : Flow os)
        → Goes (AfterTurn p laws l) m
        → ((l' : Loop os)
            → AfterTurn p laws l l'
            → Returns (read_loop os fuel poll_fuel deadline size_limit l'))
        → Returns
            (elim m [ next l' ↦ read_loop os fuel poll_fuel deadline size_limit l' | leave r ↦ r ])
    continued fuel l (next l') a again = again l' a
    continued fuel l (leave (returned ending)) a again = tt
    continued fuel l (leave panicked) a again = absurd a
    continued fuel l (leave unfinished) a again = absurd a

    read_loop-Returns :
        (fuel : ℕ) (l : Loop os)
        → work p laws l < fuel
        → IsValid p laws l.comm
        → EnoughTime p laws poll_fuel deadline l.world
        → Returns (read_loop os fuel poll_fuel deadline size_limit l)
    unfolding read_loop
    read_loop-Returns zero l less v enough = absurd (omega (arith, less))
    read_loop-Returns (suc fuel) l less v enough = elim (Bool-cases (is_over os size_limit l)) [
      | inl e ↦ rw (e, Returns, read_loop) tt
      | inr e ↦
          rw (e, Returns, read_loop)
            (continued fuel l (turn os poll_fuel deadline size_limit l)
              (turn-AfterTurn l (ground (arith, e)) v enough)
              λ l' a.
                read_loop-Returns fuel l' (omega (arith, a.fewer, less)) a.valid
                  (EnoughTime-later poll_fuel deadline l.world l'.world a.later enough))
    ]

    -- If each output still gives finitely many bytes, a write of some bytes takes at least one, and
    -- poll(2) waits out its timeouts: with more turns than the bytes that are still to be carried,
    -- one more for each stream, with rounds of poll(2) for the time that is left, and a position
    -- within the input data, `read` returns. It neither panics nor goes on for ever, with or
    -- without a limit, and with or without a deadline, which is an instant that can be represented.
    pub read-Returns :
        (fuel : ℕ) (comm : RawCommunicator) (w : World)
        → work p laws (start os comm w) < fuel
        → IsValid p laws comm
        → EnoughTime p laws poll_fuel deadline w
        → Returns (read os fuel poll_fuel deadline size_limit comm w)
    unfolding read
    read-Returns fuel comm w less v enough =
        ground (arith, read_loop-Returns fuel (start os comm w) less v enough)
