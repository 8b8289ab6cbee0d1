-- ===== src/Communicate/Progress.antt =====
-- What is assumed of the operating system and of a child that writes finitely many bytes, where the
-- end of a communication is at stake.
use rust_subprocess.Prelude.{
  ℕ, ◌+◌, ◌≤◌, ◌<◌, ◌≡◌, false, List, [], ◌∷◌, Option, none, Result, ok, err, IoError, Bytes,
  length,
}
use rust_subprocess.Posix.Os.{Os, PollFd, Flag, Revents}

pub record Progress (os : Os) : Type 0 where
  -- The bytes that a descriptor will still give.
  pub left : ℕ → os.World → ℕ

-- A descriptor that is not there (-1) has no events.
abbrev pub AbsentIdle : PollFd → Revents → Type 0
AbsentIdle f revents = f.fd ≡ none → (flag : Flag) → revents flag ≡ false

abbrev pub PollReply : List PollFd → Result (ℕ × (ℕ → Revents)) IoError → Type 0
PollReply (a ∷ b ∷ c ∷ []) (ok (cnt, revents)) =
    AbsentIdle a (revents 0) × AbsentIdle b (revents 1) × AbsentIdle c (revents 2)
PollReply _ _ = Unit

-- A write of some bytes takes at least one, and no more than there are.
abbrev pub WroteSome : Bytes → Result ℕ IoError → Type 0
WroteSome buf (ok n) = (n ≤ length buf) × (0 < length buf → 0 < n)
WroteSome buf (err e) = Unit

module _ {os : Os} (p : Progress os) where
  open os use {World, now}
  open p use {left}

  -- What a read returns is no longer to come.
  abbrev pub ReadSome : ℕ → World → Result Bytes IoError × World → Type 0
  ReadSome fd w (ok buf, w') = left fd w' + length buf ≤ left fd w
  ReadSome fd w (err e, w') = Unit

  -- Time goes on, and no new bytes are promised.
  pub record Later (w w' : World) : Type 0 where
    pub now_later : now w ≤ now w'
    pub left_less : (fd : ℕ) → left fd w' ≤ left fd w

  pub record ProgressLaws : Type 0 where
    pub poll_later :
        (fds : List PollFd) (ms : Option ℕ) (w : World) → Later w (os.sys_poll fds ms w).1
    pub poll_reply :
        (fds : List PollFd) (ms : Option ℕ) (w : World) → PollReply fds (os.sys_poll fds ms w).0
    pub read_later : (fd len : ℕ) (w : World) → Later w (os.sys_read fd len w).1
    pub read_some : (fd len : ℕ) (w : World) → ReadSome fd w (os.sys_read fd len w)
    pub write_later : (fd : ℕ) (buf : Bytes) (w : World) → Later w (os.sys_write fd buf w).1
    pub write_some : (fd : ℕ) (buf : Bytes) (w : World) → WroteSome buf (os.sys_write fd buf w).0
    pub close_later : (fd : ℕ) (w : World) → Later w (os.sys_close fd w)
