-- ===== src/Communicate/ReadLoop/Invariant.antt =====
-- The rule by which a property of the variables of `read_into` (src/communicate.rs) is carried through
-- its loop.
use rust_subprocess.Prelude.{
  ℕ, zero, suc, ◌≡◌, Bool, true, false, ◌&&◌, not, List, Option, [], ◌∷◌, arith, Result, ok, err,
  IoError, Bool-cases, inl, inr, Run, returned, panicked, unfinished, if◌then◌else◌,
}
use rust_subprocess.Posix.Os.{Os, PollFd}
use rust_subprocess.Posix.Poll.Frame.{poll-PolledIn}
use rust_subprocess.Communicate.Ready.{Ready, as_pollfd, remaining, maybe_poll}
use rust_subprocess.Communicate.Raw.{
  Loop, Ending, Flow, next, leave, ◌>>=◌, feed_stdin, drain_stdout, drain_stderr,
}
use rust_subprocess.Communicate.ReadLoop.{
  use_streams, serve, turn, is_over, read_loop, timeout_error,
}

module _ (os : Os) (P : Loop os → Type 0) (Q : Ending os → Type 0) where
  -- `Q` holds at the end, if there is one.
  abbrev pub Ends : Run (Ending os) → Type 0
  Ends (returned ending) = Q ending
  Ends panicked = Unit
  Ends unfinished = Unit

  -- `P` holds where the statement goes on, and `Q` where it leaves the function.
  abbrev pub Keeps : Flow os → Type 0
  Keeps (next l) = P l
  Keeps (leave r) = Ends r

  Keeps-bind :
      (m : Flow os) (f : Loop os → Flow os)
      → Keeps m
      → ((l : Loop os) → P l → Keeps (f l))
      → Keeps (m >>= f)
  Keeps-bind (next l) f h k = k l h
  Keeps-bind (leave r) f h k = h

  Keeps-if :
      (b : Bool) (m : Flow os) (l : Loop os) → Keeps m → P l → Keeps (if b then m else next l)
  Keeps-if true m l h p = h
  Keeps-if false m l h p = p

  Keeps-else :
      (b : Bool) (r : Run (Ending os)) (m : Flow os)
      → Ends r
      → Keeps m
      → Keeps (if b then leave r else m)
  Keeps-else true r m h k = h
  Keeps-else false r m h k = k

  -- `P` holds of the loop in the world that the poll left.
  abbrev PolledAt : Loop os → Run (Result Ready IoError × os.World) → Type 0
  PolledAt l (returned (reply, w)) = P (record l { world = w })
  PolledAt l panicked = Unit
  PolledAt l unfinished = Unit

  pub read_loop-Ends :
      (poll_fuel : ℕ) (deadline size_limit : Option ℕ)
      → ((l : Loop os)
          → P l
          → is_over os size_limit l ≡ false
          → Keeps (turn os poll_fuel deadline size_limit l))
      → ((l : Loop os) → P l → is_over os size_limit l ≡ true → Q (ok tt, l))
      → (fuel : ℕ) (l : Loop os) → P l
      → Ends (read_loop os fuel poll_fuel deadline size_limit l)
  unfolding read_loop
  read_loop-Ends poll_fuel deadline size_limit step over zero l p = tt
  read_loop-Ends poll_fuel deadline size_limit step over (suc fuel) l p =
      elim (Bool-cases (is_over os size_limit l)) [
        | inl e ↦ rw (e, Ends, read_loop) (over l p e)
        | inr e ↦
            rw (e, Ends, read_loop)
              (turned (turn os poll_fuel deadline size_limit l) (step l p e)
                (λ l'. read_loop-Ends poll_fuel deadline size_limit step over fuel l'))
      ]
    where
      turned :
          (flow : Flow os)
          → Keeps flow
          → ((l' : Loop os) → P l' → Ends (read_loop os fuel poll_fuel deadline size_limit l'))
          → Ends (elim flow [
            | next l' ↦ read_loop os fuel poll_fuel deadline size_limit l'
            | leave r ↦ r
          ])
      turned (next l') h later = later l' h
      turned (leave r) h later = h

  -- One turn, from what each of its parts does.
  module _ (size_limit : Option ℕ)
      (polled : (fds : List PollFd) (ms : Option ℕ) (l : Loop os)
        → P l
        → P (record l { world = (os.sys_poll fds ms l.world).1 }))
      (failed : (e : IoError) (l : Loop os) → P l → Q (err e, l))
      (fed : (l : Loop os) → P l → Keeps (feed_stdin os l))
      (out : (l : Loop os) → P l → Keeps (drain_stdout os size_limit l))
      (errs : (l : Loop os) → P l → Keeps (drain_stderr os size_limit l)) where
    use_streams-Keeps :
        (ready : Ready) (l : Loop os) → P l → Keeps (use_streams os size_limit ready l)
    unfolding use_streams
    use_streams-Keeps ready l p = Keeps-bind _ _ (Keeps-if ready.in_ready _ l (fed l p) p) λ l1 p1.
        Keeps-bind _ _ (Keeps-if ready.out_ready _ l1 (out l1 p1) p1)
          λ l2 p2. Keeps-if ready.err_ready _ l2 (errs l2 p2) p2

    serve-Keeps :
        (l : Loop os) (r : Run (Result Ready IoError × os.World))
        → PolledAt l r
        → Keeps (serve os size_limit l r)
    unfolding serve
    serve-Keeps l panicked h = tt
    serve-Keeps l unfinished h = tt
    serve-Keeps l (returned (err e, w)) h = failed e _ h
    serve-Keeps l (returned (ok ready, w)) h =
        Keeps-else (not ready.in_ready && not ready.out_ready && not ready.err_ready) _ _
          (failed timeout_error _ h) (use_streams-Keeps ready _ h)

    maybe_poll-PolledAt :
        (fuel : ℕ) (deadline : Option ℕ) (l : Loop os)
        → P l
        → PolledAt l (maybe_poll os fuel l.comm.stdin l.stdout_ref l.stderr_ref deadline l.world)
    unfolding maybe_poll
    maybe_poll-PolledAt fuel deadline l p =
        let fds =
          as_pollfd l.comm.stdin false
          ∷ as_pollfd l.stdout_ref true
          ∷ as_pollfd l.stderr_ref true
          ∷ [] in
        ground (
          arith,
          p,
          poll-PolledIn os (λ w. P (record l { world = w }))
              (λ fds ms w. polled fds ms (record l { world = w })) fuel fds
              (remaining deadline (os.now l.world)) l.world p,
        )

    pub turn-Keeps :
        (poll_fuel : ℕ) (deadline : Option ℕ) (l : Loop os)
        → P l
        → Keeps (turn os poll_fuel deadline size_limit l)
    unfolding turn
    turn-Keeps poll_fuel deadline l p = serve-Keeps l _ (maybe_poll-PolledAt poll_fuel deadline l p)

-- The endings of a statement that leaves the function by an error only.
abbrev pub Fails : {os : Os} → (Loop os → Type 0) → Ending os → Type 0
Fails A (ok u, l) = ⊥
Fails A (err e, l) = A l

-- From two facts about a statement to a third.
pub Keeps-join :
    (os : Os) (A B P : Loop os → Type 0) (Q : Ending os → Type 0) (flow : Flow os)
    → ((l : Loop os) → A l → B l → P l)
    → ((e : IoError) (l : Loop os) → P l → Q (err e, l))
    → Keeps os A (Fails A) flow
    → Keeps os B (Fails B) flow
    → Keeps os P Q flow
Keeps-join os A B P Q (next l) join fail a b = join l a b
Keeps-join os A B P Q (leave (returned (ok u, l))) join fail a b = absurd a
Keeps-join os A B P Q (leave (returned (err e, l))) join fail a b = fail e l (join l a b)
Keeps-join os A B P Q (leave panicked) join fail a b = tt
Keeps-join os A B P Q (leave unfinished) join fail a b = tt

pub Keeps-weaken :
    (os : Os) (A P : Loop os → Type 0) (Q : Ending os → Type 0) (flow : Flow os)
    → ((l : Loop os) → A l → P l)
    → ((e : IoError) (l : Loop os) → P l → Q (err e, l))
    → Keeps os A (Fails A) flow
    → Keeps os P Q flow
Keeps-weaken os A P Q flow weaken fail a = Keeps-join os A A P Q flow (λ l h _. weaken l h) fail a a
