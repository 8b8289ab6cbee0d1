-- ===== src/Communicate/Pipes.antt =====
-- What is assumed of the operating system's pipes: what each end has carried, and what the calls of
-- the communicator do to that.
use rust_subprocess.Prelude.{
  ℕ, ◌≤◌, ◌<◌, ◌≡◌, ◌≢◌, Bool, true, List, [], ◌++◌, Option, Result, ok, err, IoError, Bytes,
  length, take,
}
use rust_subprocess.Posix.Os.{Os, PollFd}

-- A read returns no more than its buffer holds.
abbrev pub AtMost : ℕ → Result Bytes IoError → Type 0
AtMost len (ok buf) = length buf ≤ len
AtMost len (err e) = Unit

pub record ReadsWithin (os : Os) : Type 0 where
  pub reads : (fd len : ℕ) (w : os.World) → AtMost len (os.sys_read fd len w).0

pub record Pipes (os : Os) : Type 0 where
  -- The bytes that were written to a descriptor, and those that were read from it.
  pub sent : ℕ → os.World → Bytes
  pub taken : ℕ → os.World → Bytes
  -- A read of it has met the end of its data; it was closed on this side.
  pub ended : ℕ → os.World → Bool
  pub closed : ℕ → os.World → Bool

module _ {os : Os} (p : Pipes os) where
  open p use {sent, taken, ended, closed}

  -- Nothing was carried, and no end was forgotten.
  pub record Idle (w w' : os.World) : Type 0 where
    pub sent_same : (fd : ℕ) → sent fd w' ≡ sent fd w
    pub taken_same : (fd : ℕ) → taken fd w' ≡ taken fd w
    pub ended_kept : (fd : ℕ) → ended fd w ≡ true → ended fd w' ≡ true
    pub closed_kept : (fd : ℕ) → closed fd w ≡ true → closed fd w' ≡ true

  -- Only what was read from `fd` may differ.
  pub record Reads (fd : ℕ) (w w' : os.World) : Type 0 where
    pub sent_same : (fd : ℕ) → sent fd w' ≡ sent fd w
    pub taken_same : (other : ℕ) → other ≢ fd → taken other w' ≡ taken other w
    pub ended_kept : (fd : ℕ) → ended fd w ≡ true → ended fd w' ≡ true
    pub closed_kept : (fd : ℕ) → closed fd w ≡ true → closed fd w' ≡ true

  -- Only what was written may differ.
  pub record Writes (w w' : os.World) : Type 0 where
    pub taken_same : (fd : ℕ) → taken fd w' ≡ taken fd w
    pub ended_kept : (fd : ℕ) → ended fd w ≡ true → ended fd w' ≡ true
    pub closed_kept : (fd : ℕ) → closed fd w ≡ true → closed fd w' ≡ true

  -- The bytes that a read returns are the next ones of the stream; none of a buffer that has room
  -- means the end.
  abbrev pub ReadReply : ℕ → ℕ → os.World → Result Bytes IoError × os.World → Type 0
  ReadReply fd len w (ok buf, w') =
      (taken fd w' ≡ taken fd w ++ buf) × (0 < len → buf ≡ [] → ended fd w' ≡ true)
  ReadReply fd len w (err e, w') = taken fd w' ≡ taken fd w

  -- A write takes the first bytes of its buffer, as many as it says.
  abbrev pub WriteReply : ℕ → Bytes → os.World → Result ℕ IoError × os.World → Type 0
  WriteReply fd buf w (ok n, w') = (n ≤ length buf) × (sent fd w' ≡ sent fd w ++ take n buf)
  WriteReply fd buf w (err e, w') = sent fd w' ≡ sent fd w

  pub record PipeLaws : Type 0 where
    pub poll_idle :
        (fds : List PollFd) (ms : Option ℕ) (w : os.World) → Idle w (os.sys_poll fds ms w).1
    pub read_frame : (fd len : ℕ) (w : os.World) → Reads fd w (os.sys_read fd len w).1
    pub read_reply : (fd len : ℕ) (w : os.World) → ReadReply fd len w (os.sys_read fd len w)
    pub write_frame : (fd : ℕ) (buf : Bytes) (w : os.World) → Writes w (os.sys_write fd buf w).1
    pub write_reply :
        (fd : ℕ) (buf : Bytes) (w : os.World) → WriteReply fd buf w (os.sys_write fd buf w)
    pub close_idle : (fd : ℕ) (w : os.World) → Idle w (os.sys_close fd w)
    pub close_closes : (fd : ℕ) (w : os.World) → closed fd (os.sys_close fd w) ≡ true
