-- ===== src/Communicate/Ready.antt =====
-- `maybe_poll` of src/communicate.rs (Unix): which streams can be used without blocking.
use rust_subprocess.Prelude.{
  ℕ, ◌-◌, Bool, true, false, [], ◌∷◌, Option, none, some, leb, if◌then◌else◌, Result, ok, err,
  IoError, Run, returned, and_then,
}
use rust_subprocess.Posix.Os.{Os, PollFd, pollin, pollout, pollhup, test}
use rust_subprocess.Posix.Poll.{poll}

abbrev pub as_pollfd : Option ℕ → Bool → PollFd
as_pollfd f for_read = record { fd = f; events = if for_read then pollin else pollout }

-- Which of the three streams a round may use.
pub record Ready : Type 0 where
  pub in_ready : Bool
  pub out_ready : Bool
  pub err_ready : Bool

-- The answer without a system call: one stream, and no deadline.
unfoldable pub single_stream : Option ℕ → Option ℕ → Option ℕ → Option ℕ → Option Ready
single_stream none none (some e) none =
    some (record { in_ready = false; out_ready = false; err_ready = true })
single_stream none (some o) none none =
    some (record { in_ready = false; out_ready = true; err_ready = false })
single_stream (some i) none none none =
    some (record { in_ready = true; out_ready = false; err_ready = false })
single_stream fin fout ferr deadline = none

-- `deadline - now`, and nothing if that has passed.
abbrev pub remaining : Option ℕ → ℕ → Option ℕ
remaining none now = none
remaining (some deadline) now = some (if leb deadline now then 0 else deadline - now)

module _ (os : Os) where
  open os use {World, now}

  unfoldable pub maybe_poll :
      ℕ → Option ℕ → Option ℕ → Option ℕ → Option ℕ → World → Run (Result Ready IoError × World)
  maybe_poll fuel fin fout ferr deadline w = elim (single_stream fin fout ferr deadline) [
    | some ready ↦ returned (ok ready, w)
    | none ↦
        let fds = as_pollfd fin false ∷ as_pollfd fout true ∷ as_pollfd ferr true ∷ [] in
        and_then (poll os fuel fds (remaining deadline (now w)) w) λ polled.
          let (reply, w') = polled in
          returned (
            elim reply [
              | err e ↦ err e
              | ok (cnt, revents) ↦ ok (record {
                in_ready = test (revents 0) (pollout ∷ pollhup ∷ []);
                out_ready = test (revents 1) (pollin ∷ pollhup ∷ []);
                err_ready = test (revents 2) (pollin ∷ pollhup ∷ []);
              })
            ],
            w',
          )
  ]
