-- ===== src/Win32/Start/Standard.antt =====
-- Statements of `os_start` of src/popen.rs (Windows), and the standard streams of the child.
use rust_subprocess.Prelude.{
  ℕ, ◌≡◌, refl, Bool-cases, List, Option, none, some, ◌==◌, Result, ok, err, ◌⊎◌, inl, inr,
}
use rust_subprocess.OsCommon.{StandardStream, input, output, error}
use rust_subprocess.Popen.State.{PopenError, io_error}
use rust_subprocess.Win32.Cmdline.{Units, bad_pathname}
use rust_subprocess.Win32.Calls.{WinOs, make_standard_stream, get_std_handle}
use rust_subprocess.Win32.Start.{
  Context, Act, call, kept, keeping, get_standard_stream, ensure_child_stream,
}
use rust_subprocess.Win32.Cmdline.Nuls.{HasNul}

module _ (os : WinOs) (argv : List Units) where
  open os use {World, last_error, invalid_handle, sys_std_handle, sys_create_process, sys_close}

  -- The error of a call, or that of an argument with a NUL.
  abbrev pub Refused : PopenError → Type 0
  Refused e =
      ((w : World) × (e ≡ io_error (last_error w))) ⊎ ((e ≡ io_error bad_pathname) × HasNul argv)

  -- `P` of what a statement gives and leaves, unless it is refused.
  abbrev pub After :
      {A : Type 0} → (A → Context os → Type 0) → Result A PopenError × Context os → Type 0
  After P (ok a, c) = P a c
  After P (err e, c) = Refused e

  pub After-bind :
      {A B : Type 0} (P : A → Context os → Type 0) (Q : B → Context os → Type 0)
      (r : Result A PopenError × Context os) (f : A → Act os B)
      → After P r
      → ((a : A) (c : Context os) → P a c → After Q (f a c))
      → After Q (elim r.0 [ ok a ↦ f a r.1 | err e ↦ (err e, r.1) ])
  After-bind P Q (ok a, c) f h k = k a c h
  After-bind P Q (err e, c) f h k = h

  -- The stream is the one that is given, or the one that the thread keeps, or that of the parent.
  abbrev pub Stands : StandardStream → Option ℕ → Option ℕ → ℕ → Type 0
  Stands which (some given) thread stream = stream ≡ given
  Stands which none (some thread) stream = stream ≡ thread
  Stands which none none stream = (w : World) × ((make_standard_stream os which w).0 ≡ ok stream)

  -- A thread may keep one more stream.
  abbrev pub Grown : StandardStream → ℕ → Context os → Context os → Type 0
  Grown which stream c c' = (c'.streams ≡ c.streams) ⊎ (c'.streams ≡ keeping which stream c.streams)

  -- The stream is made sure of.
  pub ensure_child_stream-Stands :
      (given : Option ℕ) (which : StandardStream) (c : Context os)
      → After
          (λ stream c'. Stands which given (kept which c.streams) stream × Grown which stream c c')
          (ensure_child_stream os given which c)
  unfolding ensure_child_stream get_standard_stream make_standard_stream get_std_handle
  ensure_child_stream-Stands (some f) which c = (refl, inl refl)
  ensure_child_stream-Stands none which c = at (kept which c.streams)
    where
      keep : ℕ → Context os → Result ℕ PopenError × Context os
      keep stream c' = (ok stream, record c' { streams = keeping which stream c'.streams })

      made :
          After
            (λ stream c'. Stands which none none stream × (c'.streams ≡ c.streams))
            (call (make_standard_stream os which) c)
      made = elim (Bool-cases ((sys_std_handle which c.world).0 == invalid_handle)) [
        | inl h ↦ rw h (inl ((sys_std_handle which c.world).1, refl))
        | inr h ↦ rw h ((c.world, rw h refl), refl)
      ]

      at :
          (thread : Option ℕ)
          → After
              (λ stream c'. Stands which none thread stream × Grown which stream c c')
              (elim thread as (λ _. Result ℕ PopenError × Context os) [
                | some stream ↦ (ok stream, c)
                | none ↦
                    let (reply, c') = call (make_standard_stream os which) c in
                    elim reply [ ok a ↦ keep a c' | err e ↦ (err e, c') ]
              ])
      at (some f) = (refl, inl refl)
      at none =
          After-bind (λ stream c'. Stands which none none stream × (c'.streams ≡ c.streams))
            (λ stream c'. Stands which none none stream × Grown which stream c c')
            (call (make_standard_stream os which) c) keep made
            λ stream c' (stands, same). (stands, inr (rw same refl))

  -- The streams of the others stay as they are.
  pub kept_behind_input :
      (stream : ℕ) (c c' : Context os)
      → Grown input stream c c'
      → (kept output c'.streams ≡ kept output c.streams)
        × (kept error c'.streams ≡ kept error c.streams)
  kept_behind_input stream c c' (inl e) = (rw e refl, rw e refl)
  kept_behind_input stream c c' (inr e) = (rw e refl, rw e refl)

  pub kept_behind_output :
      (stream : ℕ) (c c' : Context os)
      → Grown output stream c c'
      → kept error c'.streams ≡ kept error c.streams
  kept_behind_output stream c c' (inl e) = rw e refl
  kept_behind_output stream c c' (inr e) = rw e refl
