-- ===== src/Posix/Os.antt =====
-- The system calls that `poll`, the communicator and the waiting methods make. The operating system
-- is not part of the program: it is this record, an argument of what uses it. A file is its
-- descriptor, and times are in nanoseconds.
use rust_subprocess.Prelude.{ℕ, Bool, List, Option, Bytes, Result, IoError, any}

-- The bits of `pollfd.events` and `pollfd.revents`; a mask is a list of them.
pub data Flag : Type 0 where
  pollin pollout pollhup pollerr pollnval : Flag

-- `PollFd`: a descriptor (-1 for `None`), and the event that is asked for.
pub record PollFd : Type 0 where
  pub fd : Option ℕ
  pub events : Flag

abbrev pub Revents : Type 0
Revents = Flag → Bool

-- `PollFd::test`: `revents & mask != 0`.
abbrev pub test : Revents → List Flag → Bool
test revents mask = any revents mask

pub record Os : Type 1 where
  pub World : Type 0
  -- `Instant::now()`
  pub now : World → ℕ
  -- The last instant that can be represented.
  pub latest : ℕ
  -- One call of `poll(2)` with a timeout in milliseconds, -1 being `none`: the count of descriptors
  -- that have events, and the events of each.
  pub sys_poll : List PollFd → Option ℕ → World → Result (ℕ × (ℕ → Revents)) IoError × World
  -- `File::read` into a buffer of the given length, and `File::write`.
  pub sys_read : ℕ → ℕ → World → Result Bytes IoError × World
  pub sys_write : ℕ → Bytes → World → Result ℕ IoError × World
  -- Dropping a `File`.
  pub sys_close : ℕ → World → World
