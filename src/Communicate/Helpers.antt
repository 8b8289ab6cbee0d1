-- ===== src/Communicate/Helpers.antt =====
-- The helper threads of src/communicate.rs (Windows), which read the outputs and write the input,
-- and the channel that carries their messages. The channel holds nothing: a message passes when the
-- main thread receives it, so that an interleaving of the threads is the order in which their
-- messages arrive. Files and the clock are not part of the program: they are arguments.
mod Bitset
pub mod Threads
pub mod Messages
pub mod Arrivals
pub mod Receives
use rust_subprocess.Prelude.{
  ℕ, suc, ◌+◌, ◌-◌, Bool, true, false, ◌&&◌, List, [], ◌∷◌, Option, none, some, bit_and, bit_or,
  ltb, if◌then◌else◌, Bytes, Result, ok, err, IoError, unwrap_or, is_none, Run, returned, panicked,
  unfinished,
}
use mathlib.Core.Option
unfoldable pub use Bitset.*

pub data Payload : Type 0 where
  bytes : Bytes → Payload
  eof : Payload
  io_err : IoError → Payload

abbrev pub Message : Type 0
Message = StreamIdent × Payload

-- What the reads of an output give, one after another. Behind the last one a read never returns.
abbrev pub OutFile : Type 0
OutFile = List (Result Bytes IoError)

-- What `write_all` of the input gives, if it returns.
abbrev pub InFile : Type 0
InFile = Bytes → Option (Result (Unit {0}) IoError)

-- A thread that runs `read_and_transmit`, with the reads that are left.
pub data Reader : Type 0 where
  reading : OutFile → Reader
  left : Reader

-- The thread that writes the input.
pub data Writer : Type 0 where
  writing : Option (Result (Unit {0}) IoError) → Writer
  left : Writer

-- One turn of the loop of `read_and_transmit`: the message that it sends, and how it goes on.
unfoldable pub read_and_transmit : OutFile → Option (Payload × Reader)
read_and_transmit [] = none
read_and_transmit (ok [] ∷ outfile) = some (eof, Reader.left)
read_and_transmit (ok (b ∷ chunk) ∷ outfile) = some (bytes (b ∷ chunk), reading outfile)
read_and_transmit (err e ∷ outfile) = some (io_err e, Reader.left)

abbrev pub read_next : Reader → Option (Payload × Reader)
read_next (reading outfile) = read_and_transmit outfile
read_next Reader.left = none

-- The thread that writes the input sends one message.
unfoldable pub write_stdin : Writer → Option (Payload × Writer)
write_stdin (writing none) = none
write_stdin (writing (some (ok _))) = some (eof, Writer.left)
write_stdin (writing (some (err e))) = some (io_err e, Writer.left)
write_stdin Writer.left = none

abbrev pub is_reading : Reader → Bool
is_reading (reading outfile) = true
is_reading Reader.left = false

abbrev pub is_writing : Writer → Bool
is_writing (writing outcome) = true
is_writing Writer.left = false

-- The receiver, with the threads that hold its senders and the count of the receives so far.
pub record Receiver : Type 0 where
  pub input : Writer
  pub output : Reader
  pub error : Reader
  pub received : ℕ

-- One receive: the time at its start, how long the next message takes, and the thread that is
-- ready first.
pub record Wait : Type 0 where
  pub now : ℕ
  pub takes : ℕ
  pub first : StreamIdent

abbrev pub Schedule : Type 0
Schedule = ℕ → Wait

-- The message of one thread, and the threads after it.
unfoldable pub message_of : StreamIdent → Receiver → Option (Message × Receiver)
message_of stream_in rx =
    Option.map (λ (s : Payload × Writer). ((stream_in, s.0), record rx { input = s.1 }))
      (write_stdin rx.input)
message_of stream_out rx =
    Option.map (λ (s : Payload × Reader). ((stream_out, s.0), record rx { output = s.1 }))
      (read_next rx.output)
message_of stream_err rx =
    Option.map (λ (s : Payload × Reader). ((stream_err, s.0), record rx { error = s.1 }))
      (read_next rx.error)

abbrev pub or_else {ℓ} : {A : Type ℓ} → Option A → Option A → Option A
or_else none o = o
or_else (some a) o = some a

-- A thread that has nothing to send lets the others go first.
unfoldable pub arrival : StreamIdent → Receiver → Option (Message × Receiver)
arrival first rx = or_else (message_of first rx) (
    or_else (message_of stream_out rx)
      (or_else (message_of stream_err rx) (message_of stream_in rx)))

-- All threads have left, and dropped their senders.
abbrev pub is_disconnected : Receiver → Bool
is_disconnected rx =
    if is_writing rx.input
    then false
    else if is_reading rx.output
    then false
    else if is_reading rx.error
    then false
    else true

pub data Timeout : Type 0 where
  timeout : Timeout

-- The message takes longer than the time that is left.
abbrev pub expires : Option ℕ → Wait → Bool
expires none wait = false
expires (some deadline) wait = ltb (deadline - wait.now) wait.takes

-- What the receive gives, from the message that arrives. A disconnected channel is a panic, and
-- without a deadline a receive may not return.
unfoldable pub answer :
    Option ℕ
    → Wait
    → Receiver
    → Option (Message × Receiver)
    → Run (Result Message Timeout × Receiver)
answer deadline wait rx none =
    if is_disconnected rx
    then panicked
    else if is_none deadline
    then unfinished
    else returned (err timeout, rx)
answer deadline wait rx (some (message, after)) =
    if expires deadline wait then returned (err timeout, rx) else returned (ok message, after)

unfoldable pub recv_until : Schedule → Option ℕ → Receiver → Run (Result Message Timeout × Receiver)
recv_until schedule deadline rx =
    let wait = schedule rx.received in
    let rx' = record rx { received = rx.received + 1 } in
    answer deadline wait rx' (arrival wait.first rx')

pub record RawCommunicator : Type 0 where
  pub rx : Receiver
  pub helper_set : ℕ
  pub requested_streams : ℕ
  pub leftover : Option (StreamIdent × Bytes)

abbrev pub reader : Option OutFile → Reader
reader none = Reader.left
reader (some outfile) = reading outfile

-- `|=` of the bit of a stream that is there.
abbrev pub insert_if {ℓ} : {A : Type ℓ} → Option A → StreamIdent → ℕ → ℕ
insert_if none ident set = set
insert_if (some a) ident set = bit_or set (bit ident)

abbrev pub joined : Option InFile → Option OutFile → Option OutFile → Writer → RawCommunicator
joined stdin stdout stderr writer =
    let requested = insert_if stderr stream_err (insert_if stdout stream_out 0) in
    record {
      rx = record { input = writer; output = reader stdout; error = reader stderr; received = 0 };
      helper_set = insert_if stdin stream_in requested;
      requested_streams = requested;
      leftover = none;
    }

-- `RawCommunicator::new`: a redirected standard input wants input data.
unfoldable pub new :
    Option InFile → Option OutFile → Option OutFile → Option Bytes → Run RawCommunicator
new none stdout stderr input_data = returned (joined none stdout stderr Writer.left)
new (some stdin) stdout stderr none = panicked
new (some stdin) stdout stderr (some input_data) =
    returned (joined (some stdin) stdout stderr (writing (stdin input_data)))
