-- ===== src/Win32/Child/Truth.antt =====
-- The exit status that a `Popen` records on Windows (src/popen.rs), and that of its process.
use rust_subprocess.Prelude.{
  ℕ, zero, suc, ◌-◌, ◌≡◌, ◌≢◌, sym, ap, ◌∙◌, Option, none, some, arith, ◌==◌, leb, Result, ok, err,
  IoError, returned, panicked, Gives, Gives-map, Gives-if, if◌then◌else◌, and_then, ℕ_discrete,
  and_then-Gives, Option-cases, Bool-cases, ◌⊎◌, inl, inr, deadline_at, Gives-any,
}
use rust_subprocess.OsCommon.{exited}
use rust_subprocess.Win32.Calls.{
  WinOs, WaitEvent, object_0, abandoned, timed_out, wait_object_0, wait_timeout, still_active,
  clamp_timeout, wait_rounds, event_of, wait_for_single_object, get_exit_code_process,
}
use rust_subprocess.Win32.Child.{Popen, ChildState, preparing, running, finished}

-- With what code the process of a handle has ended.
pub record Processes (os : WinOs) : Type 0 where
  pub exit_of : ℕ → os.World → Option ℕ

module _ {os : WinOs} (processes : Processes os) where
  open os use {World, sys_wait, sys_exit_code, sys_terminate}
  open processes use {exit_of}

  -- A process that has ended stays ended.
  abbrev pub Later : World → World → Type 0
  Later w w' = (handle code : ℕ) → exit_of handle w ≡ some code → exit_of handle w' ≡ some code

  -- What the Windows API promises of processes.
  pub record ProcessLaws : Type 0 where
    pub wait_later : (handle ms : ℕ) (w : World) → Later w (sys_wait handle ms w).1
    pub wait_ends :
        (handle ms : ℕ) (w : World)
        → (sys_wait handle ms w).0 ≡ wait_object_0
        → exit_of handle (sys_wait handle ms w).1 ≢ none
    pub code_later : (handle : ℕ) (w : World) → Later w (sys_exit_code handle w).2
    pub code_active :
        (handle : ℕ) (w : World)
        → exit_of handle w ≡ none
        → (sys_exit_code handle w).1 ≡ still_active
    pub code_ended :
        (handle code : ℕ) (w : World)
        → exit_of handle w ≡ some code
        → (sys_exit_code handle w).1 ≡ code
    pub terminate_later :
        (handle exit_code : ℕ) (w : World) → Later w (sys_terminate handle exit_code w).1

  -- A status that the object has is that of its process.
  abbrev pub TrueState : ℕ → ChildState → World → Type 0
  TrueState handle preparing w = ⊥
  TrueState handle (running pid h) w = h ≡ handle
  TrueState handle (finished status) w =
      (code : ℕ) × (status ≡ exited code) × (exit_of handle w ≡ some code)

  abbrev pub IsTrue : ℕ → Popen → World → Type 0
  IsTrue handle p w = TrueState handle p.child_state w

  abbrev pub After : {A E : Type 0} → ℕ → Result A E × Popen × World → Type 0
  After handle (reply, p', w') = IsTrue handle p' w'

  module _ (laws : ProcessLaws) where
    pub TrueState-Later :
        (handle : ℕ) (s : ChildState) (w w' : World)
        → Later w w'
        → TrueState handle s w
        → TrueState handle s w'
    TrueState-Later handle preparing w w' later t = t
    TrueState-Later handle (running pid h) w w' later t = t
    TrueState-Later handle (finished status) w w' later (code, same, ended) =
        (code, same, later handle code ended)

    pub Later-trans : (w w1 w2 : World) → Later w w1 → Later w1 w2 → Later w w2
    Later-trans w w1 w2 l k handle code e = k handle code (l handle code e)

    -- A result of the rounds that reports the process's end.
    abbrev RoundsEnd : ℕ → World → ℕ × World → Type 0
    RoundsEnd handle w (result, w') =
        Later w w' × ((result ≢ wait_object_0) ⊎ (exit_of handle w' ≢ none))

    wait_RoundsEnd : (handle ms : ℕ) (w : World) → RoundsEnd handle w (sys_wait handle ms w)
    wait_RoundsEnd handle ms w = (
      laws.wait_later handle ms w,
      elim (ℕ_discrete (sys_wait handle ms w).0 wait_object_0) [
        | yes e ↦ inr (laws.wait_ends handle ms w e)
        | no n ↦ inl n
      ],
    )

    wait_rounds-RoundsEnd :
        (fuel handle : ℕ) (deadline timeout : Option ℕ) (w : World)
        → Gives (RoundsEnd handle w) (wait_rounds os fuel handle deadline timeout w)
    unfolding wait_rounds
    wait_rounds-RoundsEnd zero handle deadline timeout w = tt
    wait_rounds-RoundsEnd (suc fuel) handle none timeout w =
        Gives-if (RoundsEnd handle w) _ (returned (sys_wait handle (clamp_timeout timeout).0 w))
          panicked (λ _. wait_RoundsEnd handle (clamp_timeout timeout).0 w) (λ _. tt)
    wait_rounds-RoundsEnd (suc fuel) handle (some d) timeout w =
        let ms = (clamp_timeout timeout).0 in
        let first = wait_RoundsEnd handle ms w in
        let w1 = (sys_wait handle ms w).1 in
        let again = wait_rounds os fuel handle (some d) (some (d - os.now w1)) w1 in
        Gives-if (RoundsEnd handle w) _ (returned (sys_wait handle ms w))
          (if leb d (os.now w1) then returned (wait_timeout, w1) else again) (λ _. first)
          λ _.
            Gives-if (RoundsEnd handle w) (leb d (os.now w1)) (returned (wait_timeout, w1)) again
              (λ _. (first.0, inl λ e. ground (arith, e)))
              λ _.
                Gives-map (RoundsEnd handle w1) (RoundsEnd handle w) again
                  (wait_rounds-RoundsEnd fuel handle (some d) (some (d - os.now w1)) w1)
                  λ t h. (Later-trans w w1 t.1 first.0 h.0, h.1)

    -- An event that reports the process's end.
    abbrev pub Waited : ℕ → World → Result WaitEvent IoError × World → Type 0
    Waited handle w (ok object_0, w') = Later w w' × (exit_of handle w' ≢ none)
    Waited handle w (ok abandoned, w') = Later w w'
    Waited handle w (ok timed_out, w') = Later w w'
    Waited handle w (err e, w') = Later w w'

    event_of-Waited :
        (handle : ℕ) (w : World) (t : ℕ × World)
        → RoundsEnd handle w t
        → Gives (Waited handle w) (and_then (event_of os t.0 t.1) λ event. returned (event, t.1))
    unfolding event_of
    event_of-Waited handle w (result, w') (later, inl n) = ground (arith, n, later)
    event_of-Waited handle w (result, w') (later, inr ended) = ground (arith, later, ended)

    pub wait-Waited :
        (fuel handle : ℕ) (timeout : Option ℕ) (w : World)
        → Gives (Waited handle w) (wait_for_single_object os fuel handle timeout w)
    unfolding wait_for_single_object
    wait-Waited fuel handle timeout w =
        and_then-Gives (λ _. Unit) (Waited handle w) (deadline_at os.latest (os.now w) timeout) _
          (Gives-any (deadline_at os.latest (os.now w) timeout))
          λ deadline _.
            and_then-Gives (RoundsEnd handle w) (Waited handle w)
              (wait_rounds os fuel handle deadline timeout w) _
              (wait_rounds-RoundsEnd fuel handle deadline timeout w) (event_of-Waited handle w)

    -- A code that a handle is asked for.
    abbrev pub Coded : ℕ → World → Result ℕ IoError × World → Type 0
    Coded handle w (err e, w') = Later w w'
    Coded handle w (ok code, w') =
        Later w w'
        × ((exit_of handle w ≡ none) × (code ≡ still_active) ⊎ (exit_of handle w ≡ some code))

    pub exit_code-Coded :
        (handle : ℕ) (w : World) → Coded handle w (get_exit_code_process os handle w)
    unfolding get_exit_code_process
    exit_code-Coded handle w = elim (Bool-cases ((sys_exit_code handle w).0 == 0)) [
      | inl e ↦ rw e (laws.code_later handle w)
      | inr e ↦ rw e (
        laws.code_later handle w,
        elim (Option-cases (exit_of handle w)) [
          | inl active ↦ inl (active, laws.code_active handle w active)
          | inr (code, ended) ↦ inr (ended ∙ ap some (sym (laws.code_ended handle code w ended)))
        ],
      )
    ]
