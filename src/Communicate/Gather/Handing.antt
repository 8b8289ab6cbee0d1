-- ===== src/Communicate/Gather/Handing.antt =====
-- The outputs of a Windows communicator that were asked for, and how they are handed out
-- (src/communicate.rs).
use rust_subprocess.Prelude.{
  ℕ, [], Bool, true, false, not, Option, none, some, ◌≡◌, refl, Bytes, is_none, returned, Gives,
  if◌then◌else◌, Result, IoError,
}
use rust_subprocess.Communicate.ReadLoop.{Capture}
use rust_subprocess.Communicate.Helpers.{
  stream_out, stream_err, RawCommunicator, OutFile, InFile, bits, is_reading, is_writing, writing,
  reader, new, Writer, joined,
}
use rust_subprocess.Communicate.Helpers.Arrivals.{active, AllClose, AllClean}
use rust_subprocess.Communicate.Gather.{Gather, start, capture, hand_out, error_of}
use rust_subprocess.Communicate.Gather.Soundness.{LeftIsAsked, Asked, Goes}

-- The set of helpers is the set of the threads that have not left, and threads and leftover are of
-- requested outputs.
pub record IsSound (comm : RawCommunicator) : Type 0 where
  pub has_out : Bool
  pub has_err : Bool
  pub announced : comm.helper_set ≡ active comm.rx
  pub requested : comm.requested_streams ≡ bits false has_out has_err
  pub out_asked : is_reading comm.rx.output ≡ true → has_out ≡ true
  pub err_asked : is_reading comm.rx.error ≡ true → has_err ≡ true
  pub left_asked : LeftIsAsked has_out has_err comm.leftover

pub IsSound-Goes :
    (deadline size_limit : Option ℕ) (Cleans : Type 0) (comm : RawCommunicator) (s : IsSound comm)
    → (is_none deadline ≡ true → AllClose comm.rx)
    → (Cleans → AllClean comm.rx)
    → Goes deadline size_limit Cleans s.has_out s.has_err (start comm)
IsSound-Goes deadline size_limit Cleans comm s alive clean = record {
  asked = record {
    requested = s.requested;
    out_asked = s.out_asked;
    err_asked = s.err_asked;
    out_empty = λ _. refl;
    err_empty = λ _. refl;
    left_asked = s.left_asked;
  };
  announced = s.announced;
  alive = alive;
  clean = clean;
}

pub Goes-IsSound :
    (deadline size_limit : Option ℕ) (Cleans : Type 0) (has_out has_err : Bool) (g : Gather)
    → Goes deadline size_limit Cleans has_out has_err g
    → IsSound g.comm
Goes-IsSound deadline size_limit Cleans has_out has_err g h = record {
  has_out = has_out;
  has_err = has_err;
  announced = h.announced;
  requested = h.asked.requested;
  out_asked = h.asked.out_asked;
  err_asked = h.asked.err_asked;
  left_asked = h.asked.left_asked;
}

-- A requested output is handed out, and another one is not there.
hand_out-stdout :
    (has_out has_err : Bool) (v : Bytes)
    → (has_out ≡ false → v ≡ [])
    → hand_out stream_out (bits false has_out has_err) v
      ≡ returned (if has_out then some v else none)
hand_out-stdout true true v h = refl
hand_out-stdout true false v h = refl
hand_out-stdout false true v h = rw (h refl)
hand_out-stdout false false v h = rw (h refl)

hand_out-stderr :
    (has_out has_err : Bool) (v : Bytes)
    → (has_err ≡ false → v ≡ [])
    → hand_out stream_err (bits false has_out has_err) v
      ≡ returned (if has_err then some v else none)
hand_out-stderr true true v h = refl
hand_out-stderr true false v h = rw (h refl)
hand_out-stderr false true v h = refl
hand_out-stderr false false v h = rw (h refl)

-- What `read` makes of the vectors.
abbrev pub handed : Bool → Bool → Result (Unit {0}) IoError → Gather → Capture
handed has_out has_err reply g = record {
  error = error_of reply;
  stdout = if has_out then some g.outvec else none;
  stderr = if has_err then some g.errvec else none;
}

pub capture-handed :
    (has_out has_err : Bool) (reply : Result (Unit {0}) IoError) (g : Gather)
    → Asked has_out has_err g
    → capture (reply, g) ≡ returned (handed has_out has_err reply g, g.comm)
unfolding capture
capture-handed has_out has_err reply g a =
    rw
      (
        a.requested,
        hand_out-stdout has_out has_err g.outvec a.out_empty,
        hand_out-stderr has_out has_err g.errvec a.err_empty,
      )
      refl

-- The set of the threads that `new` starts is announced.
joined_announced :
    (stdin : Option InFile) (stdout stderr : Option OutFile) (writer : Writer)
    → is_writing writer ≡ not (is_none stdin)
    → (joined stdin stdout stderr writer).helper_set ≡ active (joined stdin stdout stderr writer).rx
joined_announced none none none writer e = rw e
joined_announced none none (some s) writer e = rw e
joined_announced none (some o) none writer e = rw e
joined_announced none (some o) (some s) writer e = rw e
joined_announced (some i) none none writer e = rw e
joined_announced (some i) none (some s) writer e = rw e
joined_announced (some i) (some o) none writer e = rw e
joined_announced (some i) (some o) (some s) writer e = rw e

joined_requested :
    (stdin : Option InFile) (stdout stderr : Option OutFile) (writer : Writer)
    → (joined stdin stdout stderr writer).requested_streams
      ≡ bits false (not (is_none stdout)) (not (is_none stderr))
joined_requested stdin none none writer = refl
joined_requested stdin none (some s) writer = refl
joined_requested stdin (some o) none writer = refl
joined_requested stdin (some o) (some s) writer = refl

reader_asked : (file : Option OutFile) → is_reading (reader file) ≡ true → not (is_none file) ≡ true
reader_asked none e = cc
reader_asked (some outfile) e = refl

joined-IsSound :
    (stdin : Option InFile) (stdout stderr : Option OutFile) (writer : Writer)
    → is_writing writer ≡ not (is_none stdin)
    → IsSound (joined stdin stdout stderr writer)
joined-IsSound stdin stdout stderr writer e = record {
  has_out = not (is_none stdout);
  has_err = not (is_none stderr);
  announced = joined_announced stdin stdout stderr writer e;
  requested = joined_requested stdin stdout stderr writer;
  out_asked = reader_asked stdout;
  err_asked = reader_asked stderr;
  left_asked = tt;
}

-- A new communicator is sound.
pub new-IsSound :
    (stdin : Option InFile) (stdout stderr : Option OutFile) (input_data : Option Bytes)
    → Gives IsSound (new stdin stdout stderr input_data)
unfolding new
new-IsSound none stdout stderr input_data = joined-IsSound none stdout stderr Writer.left refl
new-IsSound (some stdin) stdout stderr none = tt
new-IsSound (some stdin) stdout stderr (some input_data) =
    joined-IsSound (some stdin) stdout stderr (writing (stdin input_data)) refl
