-- ===== src/Posix/Wrappers/Descriptors.antt =====
-- The wrappers of src/posix.rs keep what `setup_streams` needs of them, if libc does.
use rust_subprocess.Prelude.{ℕ, ◌≡◌, refl, true, none, some, bit_or, ok, err, ℤ, pos, negsuc}
use rust_subprocess.Popen.Streams.Descriptors.{Descriptors, DescriptorLaws, IfOk}
use rust_subprocess.Posix.Wrappers.{Libc, Reply, check_err, mapped, open_pipe, fcntl, streams_os}

-- A call of libc that is no error.
abbrev pub IfDone : ℤ → Type 0 → Type 0
IfDone (pos n) P = P
IfDone (negsuc n) P = Unit

module _ (libc : Libc) where
  open libc use {World, libc_pipe, libc_fcntl, f_getfd, f_setfd}

  -- What libc promises, in the terms of `Descriptors`.
  pub record LibcLaws (d : Descriptors (streams_os libc)) : Type 0 where
    pub pipe_keeps : (w : World) (f : ℕ) → d.cloexec f w ≡ true → d.cloexec f (libc_pipe w).2 ≡ true
    pub pipe_reply :
        (w : World) → IfDone (libc_pipe w).0 (d.is_pipe (libc_pipe w).1.0 (libc_pipe w).1.1 ≡ true)
    pub getfd_keeps :
        (f : ℕ) (w : World) (g : ℕ)
        → d.cloexec g w ≡ true
        → d.cloexec g (libc_fcntl f f_getfd none w).1 ≡ true
    pub setfd_keeps :
        (f old : ℕ) (w : World) (g : ℕ)
        → d.cloexec g w ≡ true
        → d.cloexec g (libc_fcntl f f_setfd (some (bit_or old libc.fd_cloexec)) w).1 ≡ true
    pub setfd_reply :
        (f old : ℕ) (w : World)
        → IfDone
            (libc_fcntl f f_setfd (some (bit_or old libc.fd_cloexec)) w).0
            (d.cloexec f (libc_fcntl f f_setfd (some (bit_or old libc.fd_cloexec)) w).1 ≡ true)

  -- A wrapper leaves the world that the call leaves.
  check_err-world : (t : ℤ × World) → (check_err libc t).1 ≡ t.1
  unfolding check_err
  check_err-world (pos n, w) = refl
  check_err-world (negsuc n, w) = refl

  mapped-world : {A B : Type 0} (f : A → B) (t : Reply libc A) → (mapped libc f t).1 ≡ t.1
  mapped-world f (ok a, w) = refl
  mapped-world f (err e, w) = refl

  -- It succeeds only if the call has.
  mapped-done :
      {B : Type 0} (f : ℤ → B) (P : Type 0) (Q : B → Type 0) (t : ℤ × World)
      → IfDone t.0 P
      → ((n : ℕ) → P → Q (f (pos n)))
      → IfOk Q (mapped libc f (check_err libc t)).0
  unfolding check_err
  mapped-done f P Q (pos n, w) h k = k n h
  mapped-done f P Q (negsuc n, w) h k = tt

  pub streams_os-DescriptorLaws :
      (d : Descriptors (streams_os libc)) → LibcLaws d → DescriptorLaws d
  unfolding open_pipe fcntl
  streams_os-DescriptorLaws d laws = record {
    pipe_keeps = λ w f h. rw (mapped-world _ _, check_err-world _) (laws.pipe_keeps w f h);
    pipe_reply = λ w. mapped-done _ _ _ _ (laws.pipe_reply w) λ n h. h;
    getfd_keeps = λ f w g h. rw (mapped-world _ _, check_err-world _) (laws.getfd_keeps f w g h);
    setfd_keeps =
        λ f old w g h. rw (mapped-world _ _, check_err-world _) (laws.setfd_keeps f old w g h);
    setfd_reply = λ f old w.
        mapped-done _ _ _ _ (laws.setfd_reply f old w)
          λ n h. rw (mapped-world _ _, check_err-world _) h;
  }
