-- ===== src/Communicate/Machine.antt =====
-- A small operating system for runs of the communicator: each output holds the bytes that it will
-- still give, every stream that is there is ready, and a wait with no stream takes all of its time.
use rust_subprocess.Prelude.{
  ℕ, zero, suc, ◌+◌, ◌*◌, ◌≤◌, ◌≡◌, ◌≢◌, refl, Bool, true, false, ◌||◌, List, [], ◌∷◌, ◌++◌, Option,
  none, some, arith, ◌==◌, ==_iff, Bool-cases, inl, inr, if◌then◌else◌, ok, Bytes, length, take,
  drop, is_empty, length-take, length-drop, ◌^◌,
}
use rust_subprocess.Posix.Os.{Os, PollFd, Flag, Revents, pollin, pollout}
use rust_subprocess.Posix.Poll.Waiting.{WaitsTimeout}
use rust_subprocess.Communicate.Pipes.{ReadsWithin, Pipes, PipeLaws, Idle}
use rust_subprocess.Communicate.Progress.{Progress, ProgressLaws, Later, PollReply, AbsentIdle}

pub record Machine : Type 0 where
  pub clock : ℕ
  pub source : ℕ → Bytes
  pub sent : ℕ → Bytes
  pub taken : ℕ → Bytes
  pub ended : ℕ → Bool
  pub closed : ℕ → Bool

abbrev update {ℓ} : {A : Type ℓ} → (ℕ → A) → ℕ → A → ℕ → A
update f n a m = if m == n then a else f m

abbrev same_flag : Flag → Flag → Bool
same_flag pollin pollin = true
same_flag pollout pollout = true
same_flag _ _ = false

abbrev events_of : Option PollFd → Revents
events_of none flag = false
events_of (some f) flag = elim f.fd [ none ↦ false | some n ↦ same_flag flag f.events ]

abbrev nth : List PollFd → ℕ → Option PollFd
nth [] i = none
nth (f ∷ fds) zero = some f
nth (f ∷ fds) (suc i) = nth fds i

abbrev is_some : Option ℕ → Bool
is_some none = false
is_some (some n) = true

abbrev count : List PollFd → ℕ
count [] = 0
count (f ∷ fds) = if is_some f.fd then suc (count fds) else count fds

abbrev wait : ℕ → Option ℕ → Machine → Machine
wait zero (some ms) w = record w { clock = w.clock + ms * 1_000_000 }
wait _ _ w = w

abbrev pub machine : Os
machine = record {
  World = Machine;
  now = λ w. w.clock;
  latest = 2 ^ 63 * 1_000_000_000;
  sys_poll = λ fds ms w. (ok (count fds, λ i. events_of (nth fds i)), wait (count fds) ms w);
  sys_read = λ fd len w.
      let buf = take len (w.source fd) in
      (
        ok buf,
        record w {
          source = update w.source fd (drop len (w.source fd));
          taken = update w.taken fd (w.taken fd ++ buf);
          ended = update w.ended fd (w.ended fd || is_empty buf);
        },
      );
  sys_write =
      λ fd buf w. (ok (length buf), record w { sent = update w.sent fd (w.sent fd ++ buf) });
  sys_close = λ fd w. record w { closed = update w.closed fd true };
}

take-length : (xs : Bytes) → take (length xs) xs ≡ xs
take-length [] = refl
take-length (x ∷ xs) = rw (take-length xs)

same : (n : ℕ) → (n == n) ≡ true
same n = (==_iff n n).1 refl

other : (m n : ℕ) → m ≢ n → (m == n) ≡ false
other m n h = elim (Bool-cases (m == n)) [ inl e ↦ absurd (h ((==_iff m n).0 e)) | inr e ↦ e ]

pub machine-WaitsTimeout : WaitsTimeout machine
machine-WaitsTimeout = record { waits = waits }
  where
    waits :
        (fds : List PollFd) (ms : ℕ) (w : Machine) (revents : ℕ → Revents) (w' : Machine)
        → machine.sys_poll fds (some ms) w ≡ (ok (0, revents), w')
        → machine.now w + ms * 1_000_000 ≤ machine.now w'
    waits fds ms w revents w' e = ground (arith, e)

pub machine-ReadsWithin : ReadsWithin machine
machine-ReadsWithin = record { reads = λ fd len w. omega (arith, length-take len (w.source fd)) }

abbrev pub pipes : Pipes machine
pipes = record {
  sent = λ fd w. w.sent fd;
  taken = λ fd w. w.taken fd;
  ended = λ fd w. w.ended fd;
  closed = λ fd w. w.closed fd;
}

update_kept :
    (f : ℕ → Bool) (fd n : ℕ) (b : Bool)
    → (f fd ≡ true → b ≡ true)
    → f n ≡ true
    → update f fd b n ≡ true
update_kept f fd n b keep h = elim (Bool-cases (n == fd)) [
  | inl e ↦ let s : n ≡ fd = (==_iff n fd).0 e in rw e (keep (rw s at h))
  | inr e ↦ rw e h
]

pub machine-PipeLaws : PipeLaws pipes
machine-PipeLaws = record {
  poll_idle = λ fds ms w. idle (count fds) ms w;
  read_frame = λ fd len w. record {
    sent_same = λ n. refl;
    taken_same = λ n h. rw (other n fd h) refl;
    ended_kept = λ n h. update_kept w.ended fd n _ (λ k. ground (arith, k)) h;
    closed_kept = λ n h. h;
  };
  read_reply =
      λ fd len w. (rw (same fd) refl, λ room none_left. rw (same fd) (ground (arith, none_left)));
  write_frame =
      λ fd buf w. record { taken_same = λ n. refl; ended_kept = λ n h. h; closed_kept = λ n h. h };
  write_reply = λ fd buf w. (omega arith, rw (same fd, take-length buf) refl);
  close_idle = λ fd w. record {
    sent_same = λ n. refl;
    taken_same = λ n. refl;
    ended_kept = λ n h. h;
    closed_kept = λ n h. update_kept w.closed fd n true (λ _. refl) h;
  };
  close_closes = λ fd w. rw (same fd) refl;
}
  where
    idle : (n : ℕ) (ms : Option ℕ) (w : Machine) → Idle pipes w (wait n ms w)
    idle zero (some ms) w = record {
      sent_same = λ n. refl;
      taken_same = λ n. refl;
      ended_kept = λ n h. h;
      closed_kept = λ n h. h;
    }
    idle zero none w = record {
      sent_same = λ n. refl;
      taken_same = λ n. refl;
      ended_kept = λ n h. h;
      closed_kept = λ n h. h;
    }
    idle (suc n) ms w = record {
      sent_same = λ n. refl;
      taken_same = λ n. refl;
      ended_kept = λ n h. h;
      closed_kept = λ n h. h;
    }

abbrev pub progress : Progress machine
progress = record { left = λ fd w. length (w.source fd) }

pub machine-ProgressLaws : ProgressLaws progress
machine-ProgressLaws = record {
  poll_later = λ fds ms w. later (count fds) ms w;
  poll_reply = reply;
  read_later = λ fd len w. record { now_later = omega arith; left_less = shorter fd len w };
  read_some = λ fd len w.
      rw (same fd) (omega (arith, length-take len (w.source fd), length-drop len (w.source fd)));
  write_later = λ fd buf w. record { now_later = omega arith; left_less = λ n. omega arith };
  write_some = λ fd buf w. (omega arith, λ h. h);
  close_later = λ fd w. record { now_later = omega arith; left_less = λ n. omega arith };
}
  where
    later : (n : ℕ) (ms : Option ℕ) (w : Machine) → Later progress w (wait n ms w)
    later zero (some ms) w = record { now_later = omega arith; left_less = λ n. omega arith }
    later zero none w = record { now_later = omega arith; left_less = λ n. omega arith }
    later (suc n) ms w = record { now_later = omega arith; left_less = λ n. omega arith }

    absent : (f : PollFd) → AbsentIdle f (events_of (some f))
    absent f e flag = rw e refl

    reply :
        (fds : List PollFd) (ms : Option ℕ) (w : Machine)
        → PollReply fds (machine.sys_poll fds ms w).0
    reply (a ∷ b ∷ c ∷ []) ms w = (absent a, absent b, absent c)
    reply [] ms w = tt
    reply (a ∷ []) ms w = tt
    reply (a ∷ b ∷ []) ms w = tt
    reply (a ∷ b ∷ c ∷ d ∷ fds) ms w = tt

    shorter :
        (fd len : ℕ) (w : Machine) (n : ℕ)
        → length (update w.source fd (drop len (w.source fd)) n) ≤ length (w.source n)
    shorter fd len w n = elim (Bool-cases (n == fd)) [
      | inl e ↦
          let s : n ≡ fd = (==_iff n fd).0 e in
          rw (s, same fd) (omega (arith, length-drop len (w.source fd)))
      | inr e ↦ rw e (omega arith)
    ]
