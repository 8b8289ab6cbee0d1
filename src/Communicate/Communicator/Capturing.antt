-- ===== src/Communicate/Communicator/Capturing.antt =====
-- The results of `Communicator::read` and `communicate` of src/communicate.rs.
use rust_subprocess.Prelude.{
  ℕ, ◌+◌, ◌-◌, leb, Bool-cases, deadline_at, over_at, ◌≤◌, ◌≡◌, ◌↔◌, refl, subst, sym, Option-cases,
  Option, none, some, is_none, Bytes, Result, ok, err, Run, Returns, returned, panicked, unfinished,
  and_then, length, inl, inr,
}
use rust_subprocess.Posix.Os.{Os}
use rust_subprocess.Communicate.Raw.{RawCommunicator}
use rust_subprocess.Communicate.Pipes.{Pipes, PipeLaws, ReadsWithin}
use rust_subprocess.Communicate.ReadLoop.{Capture}
use rust_subprocess.Communicate.ReadLoop
use rust_subprocess.Communicate.ReadLoop.Carried.{AreDistinct}
use rust_subprocess.Communicate.ReadLoop.Limit.{held, read_limit}
use rust_subprocess.Communicate.ReadLoop.Transfer.{Supplied, Obtained, read_transfer}
use rust_subprocess.Communicate.Communicator.{
  Communicator, Outputs, CommunicateError, communicate, limit_size, outcome, read,
}

-- The outputs that come with the result, which is an error or not.
abbrev pub outputs : Result Outputs CommunicateError → Outputs
outputs (ok o) = o
outputs (err e) = e.capture

outputs-outcome : (t : Capture) → outputs (outcome t) ≡ (t.stdout, t.stderr)
outputs-outcome t = elim (Option-cases t.error) [ inl e ↦ rw e refl | inr (error, e) ↦ rw e refl ]

abbrev handed :
    {W : Type 0}
    → Communicator
    → Capture × RawCommunicator × W
    → Run (Result Outputs CommunicateError × Communicator × W)
handed c t = returned (outcome t.0, record c { inner = t.1 }, t.2)

-- A fact about the result of `read`, from one about the capture.
from_capture :
    (os : Os) (T : Outputs → RawCommunicator → os.World → Type 0) (fuel poll_fuel : ℕ)
    (c : Communicator) (w : os.World)
    → ((t : Capture) (comm' : RawCommunicator) (w' : os.World)
        → ReadLoop.read os fuel poll_fuel (over_at (os.now w) c.time_limit) c.size_limit c.inner w
          ≡ returned (t, comm', w')
        → T (t.stdout, t.stderr) comm' w')
    → (r : Result Outputs CommunicateError) (c' : Communicator) (w' : os.World)
    → read os fuel poll_fuel c w ≡ returned (r, c', w')
    → T (outputs r) c'.inner w'
unfolding read
from_capture os T fuel poll_fuel c w step r c' w' e =
    start c.time_limit (λ deadline. ReadLoop.read os fuel poll_fuel deadline c.size_limit c.inner w)
      step e
  where
    at :
        (run : Run (Capture × RawCommunicator × os.World))
        → ((t : Capture) (comm' : RawCommunicator) (w' : os.World)
            → run ≡ returned (t, comm', w')
            → T (t.stdout, t.stderr) comm' w')
        → and_then run (handed c) ≡ returned (r, c', w')
        → T (outputs r) c'.inner w'
    at (returned (t, comm', w1)) step e =
        let reached : ◌≡◌ {A = Result Outputs CommunicateError × Communicator × os.World}
            (outcome t, record c { inner = comm' }, w1) (r, c', w') =
          cc in
        subst (λ x. T (outputs x.0) x.1.inner x.2) reached
          (subst (λ o. T o comm' w1) (sym (outputs-outcome t)) (step t comm' w1 refl))
    at panicked step e = cc
    at unfinished step e = cc

    start :
        (timeout : Option ℕ) (runs : Option ℕ → Run (Capture × RawCommunicator × os.World))
        → ((t : Capture) (comm' : RawCommunicator) (w' : os.World)
            → runs (over_at (os.now w) timeout) ≡ returned (t, comm', w')
            → T (t.stdout, t.stderr) comm' w')
        → and_then
            (deadline_at os.latest (os.now w) timeout)
            (λ deadline. and_then (runs deadline) (handed c))
          ≡ returned (r, c', w')
        → T (outputs r) c'.inner w'
    start none runs step e = at (runs none) step e
    start (some t) runs step e = elim (Bool-cases (leb t (os.latest - os.now w))) [
      | inl fits ↦ at (runs (some (os.now w + t))) step (rw fits at e)
      | inr late ↦ let e' = rw late at e in cc
    ]

-- If no read returns more than its buffer holds: a communicator with a size limit hands out no more
-- bytes than that, with an error as without.
pub read-held :
    (os : Os) (law : ReadsWithin os) (fuel poll_fuel limit : ℕ) (c c' : Communicator)
    (w w' : os.World) (r : Result Outputs CommunicateError)
    → read os fuel poll_fuel (limit_size c limit) w ≡ returned (r, c', w')
    → held (outputs r).0 + held (outputs r).1 ≤ limit
unfolding limit_size
read-held os law fuel poll_fuel limit c c' w w' r e =
    from_capture os (λ o _ _. held o.0 + held o.1 ≤ limit) fuel poll_fuel
      (record c { size_limit = some limit }) w
      (λ t comm' w1 h. read_limit os law limit fuel poll_fuel _ c.inner comm' w w1 t h) r c' w' e

-- For two different outputs, and a position within the input data: whether `read` reports an error,
-- a timeout included, or none, the outputs that come with it are exactly the bytes that were taken
-- from the pipes, and the input that the child has not got is still there for the next call.
pub read-Obtained :
    {os : Os} (p : Pipes os) (laws : PipeLaws p) (c c' : Communicator) (w w' : os.World)
    (distinct : AreDistinct c.inner.stdout c.inner.stderr)
    (valid : c.inner.input_pos ≤ length c.inner.input_data) (fuel poll_fuel : ℕ)
    (r : Result Outputs CommunicateError)
    → read os fuel poll_fuel c w ≡ returned (r, c', w')
    → Supplied p laws c.inner w distinct valid c.inner.stdin c'.inner w'
      × Obtained p laws c.inner w distinct valid c.inner.stdout (outputs r).0 w'
      × Obtained p laws c.inner w distinct valid c.inner.stderr (outputs r).1 w'
read-Obtained {os} p laws c c' w w' distinct valid fuel poll_fuel r e =
    from_capture os
      (λ o comm' w1.
        Supplied p laws c.inner w distinct valid c.inner.stdin comm' w1
        × Obtained p laws c.inner w distinct valid c.inner.stdout o.0 w1
        × Obtained p laws c.inner w distinct valid c.inner.stderr o.1 w1)
      fuel poll_fuel c w
      (λ t comm' w1 h.
        read_transfer p laws c.inner w distinct valid fuel poll_fuel _ c.size_limit t comm' w1 h)
      r c' w' e

-- `communicate` takes its arguments, and does not panic, exactly if there is input data for a standard
-- input that is redirected, and none for one that is not.
pub communicate-Returns :
    (stdin stdout stderr : Option ℕ) (input_data : Option Bytes)
    → Returns (communicate stdin stdout stderr input_data) ↔ (is_none stdin ≡ is_none input_data)
unfolding communicate
communicate-Returns none stdout stderr none = (λ _. refl, λ _. tt)
communicate-Returns none stdout stderr (some bytes) = (λ h. absurd h, λ h. cc)
communicate-Returns (some fd) stdout stderr none = (λ h. absurd h, λ h. cc)
communicate-Returns (some fd) stdout stderr (some bytes) = (λ _. refl, λ _. tt)
