-- ===== src/Popen/Streams/Descriptors.antt =====
-- What is assumed of the calls on descriptors, and `prepare_pipe` of src/popen.rs by them.
use rust_subprocess.Prelude.{
  ℕ, bit_or, ◌≡◌, refl, ◌∙◌, Bool, true, false, Option, none, some, Result, ok, err, IoError,
}
use rust_subprocess.Popen.State.{PopenError, io_error}
use rust_subprocess.Popen.Streams.{
  Redirection, no_redirection, pipe, merge, file, rc_file, StreamsOs, Context, Act, bound,
  set_inheritable, ends, prepare_pipe, prepare_file, prepare,
}

-- `P` holds of what an action that succeeds returns, and of the context then.
abbrev pub Yields :
    {os : StreamsOs} {A : Type 0}
    → (A → Context os → Type 0)
    → Result A PopenError × Context os
    → Type 0
Yields P (ok a, c) = P a c
Yields P (err e, c) = Unit

pub bound-Yields :
    {os : StreamsOs} {A B : Type 0} (P : A → Context os → Type 0) (Q : B → Context os → Type 0)
    (f : A → Act os B) (r : Result A PopenError × Context os)
    → Yields P r
    → ((a : A) (c : Context os) → P a c → Yields Q (f a c))
    → Yields Q (bound f r)
bound-Yields P Q f (ok a, c) h k = k a c h
bound-Yields P Q f (err e, c) h k = tt

pub Yields-map :
    {os : StreamsOs} {A : Type 0} (P Q : A → Context os → Type 0)
    (r : Result A PopenError × Context os)
    → Yields P r
    → ((a : A) (c : Context os) → P a c → Q a c)
    → Yields Q r
Yields-map P Q (ok a, c) h k = k a c h
Yields-map P Q (err e, c) h k = tt

-- `P` holds of the result, if it is one.
abbrev pub IfOk : {A E : Type 0} → (A → Type 0) → Result A E → Type 0
IfOk P (ok a) = P a
IfOk P (err e) = Unit

IfOk-trivial : {A E : Type 0} (r : Result A E) → IfOk (λ _. Unit) r
IfOk-trivial (ok a) = tt
IfOk-trivial (err e) = tt

-- What the system calls promise: `is_pipe r w`, the ends are one pipe's; `cloexec f w`, the
-- descriptor is closed in a child that executes a program.
pub record Descriptors (os : StreamsOs) : Type 0 where
  pub is_pipe : ℕ → ℕ → Bool
  pub cloexec : ℕ → os.World → Bool

module _ {os : StreamsOs} (d : Descriptors os) where
  open os use {World, sys_pipe, sys_getfd, sys_setfd, fd_cloexec}
  open d use {is_pipe, cloexec}

  -- What is closed on exec stays so.
  abbrev pub KeepsCloexec : World → World → Type 0
  KeepsCloexec w w' = (f : ℕ) → cloexec f w ≡ true → cloexec f w' ≡ true

  pub record DescriptorLaws : Type 0 where
    pub pipe_keeps : (w : World) → KeepsCloexec w (sys_pipe w).1
    pub pipe_reply : (w : World) → IfOk (λ t. is_pipe t.0 t.1 ≡ true) (sys_pipe w).0
    pub getfd_keeps : (f : ℕ) (w : World) → KeepsCloexec w (sys_getfd f w).1
    -- `FD_CLOEXEC` in the flags of one descriptor takes nothing from the others.
    pub setfd_keeps :
        (f old : ℕ) (w : World) → KeepsCloexec w (sys_setfd f (bit_or old fd_cloexec) w).1
    pub setfd_reply :
        (f old : ℕ) (w : World)
        → IfOk
            (λ _. cloexec f (sys_setfd f (bit_or old fd_cloexec) w).1 ≡ true)
            (sys_setfd f (bit_or old fd_cloexec) w).0

  -- The child's end and the parent's end of one pipe, the right way round.
  abbrev pub IsPiped : Bool → ℕ → ℕ → Type 0
  IsPiped true parent child = is_pipe child parent ≡ true
  IsPiped false parent child = is_pipe parent child ≡ true

  -- What a redirection gives the parent, which had nothing, and the child, apart from a merge.
  abbrev pub Ends : Bool → Redirection → Option ℕ → Option ℕ → Type 0
  Ends parent_writes no_redirection parent child = (parent ≡ none) × (child ≡ none)
  Ends parent_writes pipe parent child =
      (a : ℕ) × (b : ℕ) × (parent ≡ some a) × (child ≡ some b) × IsPiped parent_writes a b
  Ends parent_writes merge parent child = (parent ≡ none) × (child ≡ none)
  Ends parent_writes (file f) parent child = (parent ≡ none) × (child ≡ some f)
  Ends parent_writes (rc_file f) parent child = (parent ≡ none) × (child ≡ some f)

  -- The parent's end does not get into the child.
  abbrev pub IsPrivate : Option ℕ → World → Type 0
  IsPrivate none w = Unit
  IsPrivate (some f) w = cloexec f w ≡ true

  module _ (laws : DescriptorLaws) where
    -- An action that leaves the thread's streams, and what is closed on exec.
    abbrev pub Quiet : Context os → Context os → Type 0
    Quiet c c' = KeepsCloexec c.world c'.world × (c'.streams ≡ c.streams)

    called :
        {A : Type 0} (P : A → World → Type 0) (c : Context os) (r : Result A IoError × World)
        → IfOk (λ a. P a r.1) r.0
        → KeepsCloexec c.world r.1
        → Yields
            (λ a c'. P a c'.world × Quiet c c')
            (
              elim r.0 as (λ _. Result A PopenError) [ ok a ↦ ok a | err e ↦ err (io_error e) ],
              record c { world = r.1 },
            )
    called P c (ok a, w) h keeps = (h, ((λ f k. keeps f k), refl))
    called P c (err e, w) h keeps = tt

    pub Quiet-trans : (a b c : Context os) → Quiet a b → Quiet b c → Quiet a c
    Quiet-trans a b c (k, e) (l, f) = (λ n h. l n (k n h), f ∙ e)

    set_inheritable-IsPrivate :
        (f : ℕ) (c : Context os)
        → Yields (λ _ c'. (cloexec f c'.world ≡ true) × Quiet c c') (set_inheritable f false c)
    unfolding set_inheritable
    set_inheritable-IsPrivate f c =
        bound-Yields (λ _ c1. Unit × Quiet c c1) (λ _ c'. (cloexec f c'.world ≡ true) × Quiet c c')
          _ _
          (called (λ _ _. Unit) c (sys_getfd f c.world) (IfOk-trivial (sys_getfd f c.world).0)
            (laws.getfd_keeps f c.world))
          λ old c1 q.
            let set =
              called (λ _ w. cloexec f w ≡ true) c1 (sys_setfd f (bit_or old fd_cloexec) c1.world)
                (laws.setfd_reply f old c1.world) (laws.setfd_keeps f old c1.world) in
            Yields-map (λ _ c2. (cloexec f c2.world ≡ true) × Quiet c1 c2)
              (λ _ c2. (cloexec f c2.world ≡ true) × Quiet c c2) _ set
              λ u c2 q2. (q2.0, Quiet-trans c c1 c2 q.1 q2.1)

    piped :
        (parent_writes : Bool) (r w : ℕ)
        → is_pipe r w ≡ true
        → IsPiped parent_writes (ends parent_writes (r, w)).0 (ends parent_writes (r, w)).1
    piped true r w h = h
    piped false r w h = h

    prepare_pipe-Prepared :
        (parent_writes : Bool) (c : Context os)
        → Yields
            (λ t c'. IsPiped parent_writes t.0 t.1 × (cloexec t.0 c'.world ≡ true) × Quiet c c')
            (prepare_pipe parent_writes c)
    unfolding prepare_pipe
    prepare_pipe-Prepared parent_writes c =
        bound-Yields (λ t c1. (is_pipe t.0 t.1 ≡ true) × Quiet c c1) _ _ _
          (called (λ t w. is_pipe t.0 t.1 ≡ true) c (sys_pipe c.world) (laws.pipe_reply c.world)
            (laws.pipe_keeps c.world))
          λ t c1 p.
            bound-Yields (λ _ c2. (cloexec (ends parent_writes t).0 c2.world ≡ true) × Quiet c1 c2)
              _ _ _ (set_inheritable-IsPrivate (ends parent_writes t).0 c1)
              λ _ c2 q. (piped parent_writes t.0 t.1 p.0, q.0, Quiet-trans c c1 c2 p.1 q.1)

    -- What one redirection has prepared.
    abbrev pub Prepared :
        Bool → Redirection → Context os → Option ℕ × Option ℕ → Context os → Type 0
    Prepared parent_writes r c t c' =
        Ends parent_writes r t.0 t.1 × IsPrivate t.0 c'.world × Quiet c c'

    pub prepare-Prepared :
        (parent_writes : Bool) (r : Redirection) (c : Context os)
        → Yields (Prepared parent_writes r c) (prepare parent_writes r none c)
    unfolding prepare prepare_file set_inheritable
    prepare-Prepared parent_writes no_redirection c = ((refl, refl), tt, ((λ f k. k), refl))
    prepare-Prepared parent_writes merge c = ((refl, refl), tt, ((λ f k. k), refl))
    prepare-Prepared parent_writes (file f) c = ((refl, refl), tt, ((λ f k. k), refl))
    prepare-Prepared parent_writes (rc_file f) c = ((refl, refl), tt, ((λ f k. k), refl))
    prepare-Prepared parent_writes pipe c =
        bound-Yields
          (λ t c'. IsPiped parent_writes t.0 t.1 × (cloexec t.0 c'.world ≡ true) × Quiet c c') _ _ _
          (prepare_pipe-Prepared parent_writes c) λ t c1 p. ((t.0, t.1, refl, refl, p.0), p.1, p.2)

    pub IsPrivate-Quiet :
        (f : Option ℕ) (c c' : Context os) → Quiet c c' → IsPrivate f c.world → IsPrivate f c'.world
    IsPrivate-Quiet none c c' q h = tt
    IsPrivate-Quiet (some f) c c' q h = q.0 f h
