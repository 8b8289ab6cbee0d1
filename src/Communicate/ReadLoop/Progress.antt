-- ===== src/Communicate/ReadLoop/Progress.antt =====
-- The work that a whole turn of `read_into` (src/communicate.rs) does.
use rust_subprocess.Prelude.{
  ℕ, ◌+◌, ◌≤◌, ◌<◌, ◌≡◌, refl, ◌∙◌, Bool, true, false, not, ◌||◌, Option, some, arith, length,
  returned, panicked, unfinished, if◌then◌else◌,
}
use rust_subprocess.Posix.Os.{Os}
use rust_subprocess.Communicate.Progress.{Progress, ProgressLaws}
use rust_subprocess.Communicate.Ready.{Ready}
use rust_subprocess.Communicate.Raw.{
  Loop, Flow, next, leave, ◌>>=◌, limit_reached, feed_stdin, drain_stdout, drain_stderr,
}
use rust_subprocess.Communicate.ReadLoop.{use_streams}
use rust_subprocess.Communicate.ReadLoop.Measure.{
  Goes, work, IsValid, Fewer, feed_stdin-Fewer, Drains, DrainsOut, drain_stdout-DrainsOut,
  drain_stderr-Drains,
}

Goes-bind :
    {os : Os} (P Q : Loop os → Type 0) (m : Flow os) (f : Loop os → Flow os)
    → Goes P m
    → ((l : Loop os) → P l → Goes Q (f l))
    → Goes Q (m >>= f)
Goes-bind P Q (next l) f h k = k l h
Goes-bind P Q (leave (returned ending)) f h k = tt
Goes-bind P Q (leave panicked) f h k = absurd h
Goes-bind P Q (leave unfinished) f h k = absurd h

pub Goes-map :
    {os : Os} (P Q : Loop os → Type 0) (m : Flow os)
    → Goes P m
    → ((l : Loop os) → P l → Q l)
    → Goes Q m
Goes-map P Q (next l) h k = k l h
Goes-map P Q (leave (returned ending)) h k = tt
Goes-map P Q (leave panicked) h k = absurd h
Goes-map P Q (leave unfinished) h k = absurd h

or-true : (b : Bool) → (b || true) ≡ true
or-true true = refl
or-true false = refl

module _ {os : Os} (p : Progress os) (laws : ProgressLaws p) where
  open os use {World, now}

  -- After the input's statement, which ran if `i`.
  record AfterInput (i : Bool) (l l' : Loop os) : Type 0 where
    valid : IsValid p laws l'.comm
    stdout_same : l'.stdout_ref ≡ l.stdout_ref
    stderr_same : l'.stderr_ref ≡ l.stderr_ref
    outvec_same : l'.outvec ≡ l.outvec
    errvec_same : l'.errvec ≡ l.errvec
    later : now l.world ≤ now l'.world
    no_more : work p laws l' ≤ work p laws l
    fewer : i ≡ true → work p laws l' < work p laws l

  -- After the first output's too, which ran if `o`.
  record AfterOutput (i o : Bool) (l l' : Loop os) : Type 0 where
    valid : IsValid p laws l'.comm
    stderr_same : l'.stderr_ref ≡ l.stderr_ref
    total_same : o ≡ false → length l'.outvec + length l'.errvec ≡ length l.outvec + length l.errvec
    later : now l.world ≤ now l'.world
    no_more : work p laws l' ≤ work p laws l
    fewer : (i || o) ≡ true → work p laws l' < work p laws l

  -- After the whole turn.
  pub record AfterTurn (l l' : Loop os) : Type 0 where
    pub valid : IsValid p laws l'.comm
    pub later : now l.world ≤ now l'.world
    pub fewer : work p laws l' < work p laws l

  -- Only streams that are there are ready.
  pub record FitsStreams (ready : Ready) (l : Loop os) : Type 0 where
    pub in_there : ready.in_ready ≡ true → (fd : ℕ) × (l.comm.stdin ≡ some fd)
    pub out_there : ready.out_ready ≡ true → (fd : ℕ) × (l.stdout_ref ≡ some fd)
    pub err_there : ready.err_ready ≡ true → (fd : ℕ) × (l.stderr_ref ≡ some fd)

  valid_at :
      (l : Loop os) (fd : ℕ)
      → l.comm.stdin ≡ some fd
      → IsValid p laws l.comm
      → l.comm.input_pos ≤ length l.comm.input_data
  valid_at l fd e v = ground (arith, e, v)

  input_stage :
      (i : Bool) (l : Loop os)
      → IsValid p laws l.comm
      → (i ≡ true → (fd : ℕ) × (l.comm.stdin ≡ some fd))
      → Goes (AfterInput i l) (if i then feed_stdin os l else next l)
  input_stage false l v there = ground (arith, v)
  input_stage true l v there =
      let (fd, e) = there refl in
      Goes-map (Fewer p laws l) (AfterInput true l) (feed_stdin os l)
        (feed_stdin-Fewer p laws l fd e (valid_at l fd e v))
        λ l' f. record {
          valid = f.valid;
          stdout_same = f.stdout_same;
          stderr_same = f.stderr_same;
          outvec_same = f.outvec_same;
          errvec_same = f.errvec_same;
          later = f.later;
          no_more = omega (arith, f.fewer);
          fewer = λ _. f.fewer;
        }

  output_stage :
      (i o : Bool) (size_limit : Option ℕ) (l l1 : Loop os)
      → limit_reached size_limit (length l.outvec + length l.errvec) ≡ false
      → AfterInput i l l1
      → (o ≡ true → (fd : ℕ) × (l.stdout_ref ≡ some fd))
      → Goes (AfterOutput i o l) (if o then drain_stdout os size_limit l1 else next l1)
  output_stage i false size_limit l l1 free a there = record {
    valid = a.valid;
    stderr_same = a.stderr_same;
    total_same = λ _. rw (a.outvec_same, a.errvec_same);
    later = a.later;
    no_more = a.no_more;
    fewer = λ h. ground (arith, a.fewer, h);
  }
  output_stage i true size_limit l l1 free a there =
      let (fd, e) = there refl in
      Goes-map
        (DrainsOut p laws (not (limit_reached size_limit (length l1.outvec + length l1.errvec))) l1)
        (AfterOutput i true l) (drain_stdout os size_limit l1)
        (drain_stdout-DrainsOut p laws size_limit l1 fd (a.stdout_same ∙ e))
        λ l' d.
          let still_free : not (limit_reached size_limit (length l1.outvec + length l1.errvec))
              ≡ true =
            rw (a.outvec_same, a.errvec_same, free) refl in
          record {
            valid = rw d.drains.comm_same a.valid;
            stderr_same = d.stderr_same ∙ a.stderr_same;
            total_same = λ h. cc;
            later = omega (arith, d.drains.later, a.later);
            no_more = omega (arith, d.drains.no_more, a.no_more);
            fewer = λ _. omega (arith, d.drains.fewer still_free, a.no_more);
          }

  -- The last read makes progress where it may read, and else the output's read has made it.
  err_fewer :
      (i o : Bool) (size_limit : Option ℕ) (l l2 l' : Loop os)
      → limit_reached size_limit (length l.outvec + length l.errvec) ≡ false
      → AfterOutput i o l l2
      → Drains p laws (not (limit_reached size_limit (length l2.outvec + length l2.errvec))) l2 l'
      → work p laws l' < work p laws l
  err_fewer i false size_limit l l2 l' free a d =
      let still_free : not (limit_reached size_limit (length l2.outvec + length l2.errvec)) ≡ true =
        rw (a.total_same refl, free) refl in
      omega (arith, d.fewer still_free, a.no_more)
  err_fewer i true size_limit l l2 l' free a d = omega (arith, d.no_more, a.fewer (or-true i))

  err_stage :
      (i o r : Bool) (size_limit : Option ℕ) (l l2 : Loop os)
      → limit_reached size_limit (length l.outvec + length l.errvec) ≡ false
      → AfterOutput i o l l2
      → (r ≡ true → (fd : ℕ) × (l.stderr_ref ≡ some fd))
      → ((i || o) || r) ≡ true
      → Goes (AfterTurn l) (if r then drain_stderr os size_limit l2 else next l2)
  err_stage i o false size_limit l l2 free a there some_ready = record {
    valid = a.valid;
    later = a.later;
    fewer = a.fewer (ground (arith, some_ready));
  }
  err_stage i o true size_limit l l2 free a there some_ready =
      let (fd, e) = there refl in
      let full = limit_reached size_limit (length l2.outvec + length l2.errvec) in
      Goes-map (Drains p laws (not full) l2) (AfterTurn l) (drain_stderr os size_limit l2)
        (drain_stderr-Drains p laws size_limit l2 fd (a.stderr_same ∙ e))
        λ l' d. record {
          valid = rw d.comm_same a.valid;
          later = omega (arith, d.later, a.later);
          fewer = err_fewer i o size_limit l l2 l' free a d;
        }

  pub use_streams-AfterTurn :
      (size_limit : Option ℕ) (ready : Ready) (l : Loop os)
      → limit_reached size_limit (length l.outvec + length l.errvec) ≡ false
      → IsValid p laws l.comm
      → FitsStreams ready l
      → ((ready.in_ready || ready.out_ready) || ready.err_ready) ≡ true
      → Goes (AfterTurn l) (use_streams os size_limit ready l)
  unfolding use_streams
  use_streams-AfterTurn size_limit ready l free v fits some_ready =
      Goes-bind (AfterInput ready.in_ready l) (AfterTurn l) _ _
        (input_stage ready.in_ready l v fits.in_there)
        λ l1 a1.
          Goes-bind (AfterOutput ready.in_ready ready.out_ready l) (AfterTurn l) _ _
            (output_stage ready.in_ready ready.out_ready size_limit l l1 free a1 fits.out_there)
            λ l2 a2.
              err_stage ready.in_ready ready.out_ready ready.err_ready size_limit l l2 free a2
                fits.err_there some_ready
