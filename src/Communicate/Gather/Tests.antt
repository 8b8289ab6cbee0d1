-- ===== src/Communicate/Gather/Tests.antt =====
-- A Windows communicator with two outputs and an input, and the theorems at its reads.
use rust_subprocess.Prelude.{
  [], ◌∷◌, ◌++◌, ◌≤◌, ◌+◌, true, none, some, ◌≡◌, refl, arith, unwrap_or, ok, err, simple, other,
  returned, panicked, Returns, Delivers, ◌⊎◌, if◌then◌else◌, ltb, and_then,
}
use rust_subprocess.Communicate.ReadLoop.{Capture, timeout_error}
use rust_subprocess.Communicate.ReadLoop.Limit.{held}
use rust_subprocess.Communicate.Helpers.{
  stream_out, stream_err, OutFile, Receiver, Reader, reading, Writer, writing, Schedule,
  RawCommunicator, new, recv_until, answer, arrival, message_of, write_stdin, read_and_transmit,
  remove,
}
use rust_subprocess.Communicate.Helpers.Arrivals.{AllClean}
use rust_subprocess.Communicate.Gather.{
  read, capture, read_into, use_leftover, receive, handle, grow_result, clip, push_part,
}
use rust_subprocess.Communicate.Gather.Owed.{owed_out, owed_err}
use rust_subprocess.Communicate.Gather.Shares.{read-Shares}
use rust_subprocess.Communicate.Gather.Handing.{IsSound}
use rust_subprocess.Communicate.Gather.Sessions.{sound_read-Returns, read-IsSound}
use rust_subprocess.Communicate.Gather.Whole.{read-Whole}

abbrev letters : OutFile
letters = ok (97 ∷ 98 ∷ 99 ∷ []) ∷ ok (100 ∷ []) ∷ ok [] ∷ []

abbrev warnings : OutFile
warnings = ok (119 ∷ []) ∷ ok [] ∷ []

abbrev receiver : Receiver
receiver = record {
  input = writing (some (ok tt));
  output = reading letters;
  error = reading warnings;
  received = 0;
}

abbrev both : RawCommunicator
both = record { rx = receiver; helper_set = 7; requested_streams = 6; leftover = none }

new-both : new (some (λ _. some (ok tt))) (some letters) (some warnings) (some []) ≡ returned both
unfolding new
new-both = refl

-- The first message is of the error output, then one of the output, and each takes one unit.
abbrev errors_first : Schedule
errors_first n = record { now = n; takes = 1; first = if ltb n 1 then stream_err else stream_out }

abbrev after_three : RawCommunicator
after_three = record {
  rx = record {
    input = writing (some (ok tt));
    output = reading (ok (100 ∷ []) ∷ ok [] ∷ []);
    error = reading (ok [] ∷ []);
    received = 2;
  };
  helper_set = 7;
  requested_streams = 6;
  leftover = some (stream_out, 99 ∷ []);
}

abbrev three_bytes : Capture
three_bytes = record { error = none; stdout = some (97 ∷ 98 ∷ []); stderr = some (119 ∷ []) }

read_three : read errors_first 9 none (some 3) both ≡ returned (three_bytes, after_three)
unfolding read read_into use_leftover receive handle recv_until answer arrival message_of
    write_stdin read_and_transmit grow_result clip push_part capture remove
read_three = refl

read-Shares_example :
    (unwrap_or three_bytes.stdout [] ++ owed_out after_three ≡ owed_out both)
    × (unwrap_or three_bytes.stderr [] ++ owed_err after_three ≡ owed_err both)
    × (held three_bytes.stdout + held three_bytes.stderr ≤ 3)
read-Shares_example =
    read-Shares errors_first 9 none (some 3) both after_three three_bytes (λ e. ground (arith, e))
      read_three

both-IsSound : IsSound both
both-IsSound = record {
  has_out = true;
  has_err = true;
  announced = refl;
  requested = refl;
  out_asked = λ _. refl;
  err_asked = λ _. refl;
  left_asked = tt;
}

sound_read-Returns_example : Returns (read errors_first 9 (some 0) (some 3) both)
sound_read-Returns_example =
    sound_read-Returns errors_first 9 (some 0) (some 3) both both-IsSound (λ e. ground (arith, e))
      (λ e. cc) (omega arith)

read-IsSound_example :
    Delivers
      (λ t. IsSound t.1 × AllClean t.1.rx × ((t.0.error ≡ none) ⊎ (t.0.error ≡ some timeout_error)))
      (read errors_first 9 (some 0) (some 3) both)
read-IsSound_example =
    read-IsSound errors_first 9 (some 0) (some 3) both both-IsSound (tt, tt, tt)
      (λ e. ground (arith, e)) (λ e. cc) (omega arith)

read-Whole_example :
    Delivers
      (λ t.
        (t.0.error ≡ none)
        × (unwrap_or t.0.stdout [] ≡ 97 ∷ 98 ∷ 99 ∷ 100 ∷ [])
        × (unwrap_or t.0.stderr [] ≡ 119 ∷ [])
        × (t.1.helper_set ≡ 0))
      (read errors_first 9 none none both)
read-Whole_example =
    read-Whole errors_first 9 both both-IsSound (tt, tt, tt) (tt, tt, tt) (omega arith)

-- An output whose only read fails.
abbrev failing : RawCommunicator
failing = record {
  rx = record {
    input = Writer.left;
    output = reading (err (simple (other 5)) ∷ []);
    error = Reader.left;
    received = 0;
  };
  helper_set = 2;
  requested_streams = 2;
  leftover = none;
}

-- The call after the one that reports the error finds the channel disconnected.
read_after_error :
    and_then (read errors_first 9 none none failing) (λ t. read errors_first 9 none none t.1)
    ≡ panicked
unfolding read read_into use_leftover receive handle recv_until answer arrival message_of
    write_stdin read_and_transmit grow_result clip push_part capture remove
read_after_error = refl

abbrev emptied : Capture
emptied = record { error = none; stdout = some []; stderr = some [] }

-- A limit of zero drops the leftover.
read_nothing :
    read errors_first 9 none (some 0) after_three
    ≡ returned (emptied, record after_three { leftover = none })
unfolding read read_into use_leftover receive handle recv_until answer arrival message_of
    write_stdin read_and_transmit grow_result clip push_part capture remove
read_nothing = refl
