-- ===== src/Communicate/ReadLoop/Outputs.antt =====
-- The two outputs in `read_into` (src/communicate.rs).
use rust_subprocess.Prelude.{
  ℕ, ◌<◌, ◌≡◌, ◌⊎◌, inl, inr, refl, ◌∙◌, true, [], ◌++◌, append_assoc, append-nil, Option, none,
  some, arith, Bytes, ok_or, false,
}
use rust_subprocess.Posix.Os.{Os}
use rust_subprocess.Communicate.Pipes.{Pipes, PipeLaws}
use rust_subprocess.Communicate.Raw.{limit_reached, buffer_length, do_read}
use rust_subprocess.Communicate.ReadLoop.Statements.{ReadRun, ReadHas}

module _ {os : Os} (p : Pipes os) (laws : PipeLaws p) where
  open os use {World}
  open p use {taken, ended}

  -- Of the stream `fd` all that was read since the bytes `before` is in `vec`; the loop has given it
  -- up only at its end. A stream that was not requested has no reader and no bytes.
  abbrev pub Drained : Option ℕ → Bytes → Option ℕ → Bytes → World → Type 0
  Drained none before source vec w = (source ≡ none) × (vec ≡ [])
  Drained (some fd) before source vec w =
      (taken fd w ≡ before ++ vec) × ((source ≡ some fd) ⊎ ((source ≡ none) × (ended fd w ≡ true)))

  pub Drained-frame :
      (fd : Option ℕ) (before : Bytes) (source : Option ℕ) (vec : Bytes) (w w' : World)
      → ((n : ℕ) → fd ≡ some n → taken n w' ≡ taken n w)
      → ((n : ℕ) → ended n w ≡ true → ended n w' ≡ true)
      → Drained fd before source vec w
      → Drained fd before source vec w'
  Drained-frame none before source vec w w' same kept d = d
  Drained-frame (some n) before source vec w w' same kept (t, inl open_) =
      (same n refl ∙ t, inl open_)
  Drained-frame (some n) before source vec w w' same kept (t, inr (shut, e)) =
      (same n refl ∙ t, inr (shut, kept n e))

  -- A stream that still has its reader is the one that was requested.
  pub Drained-source :
      (fd : Option ℕ) (before : Bytes) (s : ℕ) (source : Option ℕ) (vec : Bytes) (w : World)
      → source ≡ some s
      → Drained fd before source vec w
      → fd ≡ some s
  Drained-source none before s source vec w e d = cc (e, d.0)
  Drained-source (some n) before s source vec w e (t, inl open_) = cc
  Drained-source (some n) before s source vec w e (t, inr (shut, _)) = cc

  abbrev pub ReadDrained : Option ℕ → Bytes → ReadRun os → Type 0
  ReadDrained fd before = ReadHas os (Drained fd before)

  buffer_pos :
      (size_limit : Option ℕ) (total : ℕ)
      → limit_reached size_limit total ≡ false
      → 0 < buffer_length size_limit total
  buffer_pos none total h = omega arith
  buffer_pos (some limit) total h = ground (arith, h)

  read_open :
      (fd : ℕ) (before dest : Bytes) (size_limit : Option ℕ) (total : ℕ) (w : World)
      → taken fd w ≡ before ++ dest
      → ReadDrained (some fd) before (do_read os (some fd) dest size_limit total w)
  unfolding do_read
  read_open fd before dest size_limit total w t =
      let len = buffer_length size_limit total in
      ground (
        arith,
        t,
        laws.read_reply fd len w,
        buffer_pos size_limit total,
        append-nil (taken fd w),
        append_assoc before dest (ok_or (os.sys_read fd len w).0 []),
      )

  read_closed :
      (fd : Option ℕ) (before dest : Bytes) (size_limit : Option ℕ) (total : ℕ) (w : World)
      → Drained fd before none dest w
      → ReadDrained fd before (do_read os none dest size_limit total w)
  unfolding do_read
  read_closed none before dest size_limit total w d = ground (arith, d)
  read_closed (some fd) before dest size_limit total w d = ground (arith, d)

  pub do_read-ReadDrained :
      (fd : Option ℕ) (before : Bytes) (source : Option ℕ) (dest : Bytes) (size_limit : Option ℕ)
      (total : ℕ) (w : World)
      → Drained fd before source dest w
      → ReadDrained fd before (do_read os source dest size_limit total w)
  do_read-ReadDrained fd before none dest size_limit total w d =
      read_closed fd before dest size_limit total w d
  do_read-ReadDrained none before (some s) dest size_limit total w d = cc (d.0)
  do_read-ReadDrained (some fd) before (some s) dest size_limit total w (t, inr (shut, e)) = cc
  do_read-ReadDrained (some fd) before (some s) dest size_limit total w (t, inl open_) =
      let same : s ≡ fd = cc in rw same (read_open fd before dest size_limit total w t)
