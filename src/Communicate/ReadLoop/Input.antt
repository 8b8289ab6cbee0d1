-- ===== src/Communicate/ReadLoop/Input.antt =====
-- The child's standard input in `read_into` (src/communicate.rs).
use rust_subprocess.Prelude.{
  ℕ, ◌+◌, ◌≤◌, min, ◌≡◌, ◌⊎◌, inl, inr, true, [], ◌++◌, append_assoc, Option, none, some, arith,
  Bytes, length, take, drop, length-take, length-drop, drop-nil, drop-drop, drop_all,
  take-take-drop, ok_or,
}
use rust_subprocess.Posix.Os.{Os}
use rust_subprocess.Communicate.Pipes.{Pipes, PipeLaws}
use rust_subprocess.Communicate.Raw.{RawCommunicator, write_size, Loop, Flow, feed_stdin}
use rust_subprocess.Communicate.ReadLoop.Invariant.{Keeps, Fails}

-- The chunk that a turn writes.
abbrev pub chunk : RawCommunicator → Bytes
chunk comm =
    take (min write_size (length (drop comm.input_pos comm.input_data)))
      (drop comm.input_pos comm.input_data)

module _ {os : Os} (p : Pipes os) (laws : PipeLaws p) where
  open os use {World}
  open p use {sent, closed}

  -- The stream has taken the input up to the position, `total` being all that it is to carry; it is
  -- closed as soon as it has taken all. A stream that was not requested stays away.
  abbrev pub Fed : Option ℕ → Bytes → RawCommunicator → World → Type 0
  Fed none total comm w = comm.stdin ≡ none
  Fed (some fd) total comm w =
      (sent fd w ++ drop comm.input_pos comm.input_data ≡ total)
      × (((comm.stdin ≡ some fd) × (comm.input_pos ≤ length comm.input_data))
          ⊎ ((comm.stdin ≡ none) × (comm.input_data ≡ []) × (closed fd w ≡ true)))

  pub Fed-frame :
      (fd : Option ℕ) (total : Bytes) (comm : RawCommunicator) (w w' : World)
      → ((n : ℕ) → sent n w' ≡ sent n w)
      → ((n : ℕ) → closed n w ≡ true → closed n w' ≡ true)
      → Fed fd total comm w
      → Fed fd total comm w'
  Fed-frame none total comm w w' same kept f = f
  Fed-frame (some n) total comm w w' same kept (t, inl open_) = (rw (same n) t, inl open_)
  Fed-frame (some n) total comm w w' same kept (t, inr (s, d, c)) =
      (rw (same n) t, inr (s, d, kept n c))

  -- The input behind a write of `n` bytes of the chunk.
  input_step :
      (old new total input : Bytes) (pos n k : ℕ)
      → old ++ drop pos input ≡ total
      → n ≤ length (take k (drop pos input))
      → new ≡ old ++ take n (take k (drop pos input))
      → new ++ drop (pos + n) input ≡ total
  input_step old new total input pos n k h fits e =
      rw (e, append_assoc, ← drop-drop pos n input, take-take-drop n k (drop pos input) fits) h

  -- What a statement on the input leaves.
  abbrev pub FlowFed : Option ℕ → Bytes → Flow os → Type 0
  FlowFed fd total =
      Keeps os (λ l. Fed fd total l.comm l.world) (Fails (λ l. Fed fd total l.comm l.world))

  feed_open :
      (fd : ℕ) (total : Bytes) (l : Loop os)
      → sent fd l.world ++ drop l.comm.input_pos l.comm.input_data ≡ total
      → l.comm.stdin ≡ some fd
      → FlowFed (some fd) total (feed_stdin os l)
  unfolding feed_stdin
  feed_open fd total l t open_ =
      let (reply, w) = os.sys_write fd (chunk l.comm) l.world in
      let n = ok_or reply 0 in
      ground (
        arith,
        t,
        open_,
        laws.write_reply fd (chunk l.comm) l.world,
        (laws.close_idle fd w).sent_same fd,
        laws.close_closes fd w,
        drop-nil {A = ℕ} (l.comm.input_pos + n),
        drop_all (l.comm.input_pos + n) l.comm.input_data,
        length-take (min write_size (length (drop l.comm.input_pos l.comm.input_data)))
            (drop l.comm.input_pos l.comm.input_data),
        length-drop l.comm.input_pos l.comm.input_data,
        input_step (sent fd l.world) (sent fd w) total l.comm.input_data l.comm.input_pos n
            (min write_size (length (drop l.comm.input_pos l.comm.input_data))),
      )

  feed_closed :
      (fd : Option ℕ) (total : Bytes) (l : Loop os)
      → l.comm.stdin ≡ none
      → Fed fd total l.comm l.world
      → FlowFed fd total (feed_stdin os l)
  unfolding feed_stdin
  feed_closed fd total l s f = ground (arith, s)

  pub feed_stdin-FlowFed :
      (fd : Option ℕ) (total : Bytes) (l : Loop os)
      → Fed fd total l.comm l.world
      → FlowFed fd total (feed_stdin os l)
  feed_stdin-FlowFed none total l f = feed_closed none total l f f
  feed_stdin-FlowFed (some fd) total l (t, inl (open_, h)) = feed_open fd total l t open_
  feed_stdin-FlowFed (some fd) total l (t, inr (s, d, c)) =
      feed_closed (some fd) total l s (t, inr (s, d, c))
