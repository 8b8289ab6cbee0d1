-- ===== src/Win32/Calls/Waiting.antt =====
-- The time that `WaitForSingleObject` of src/win32.rs waits.
use rust_subprocess.Prelude.{
  ℕ, zero, suc, ◌+◌, ◌-◌, ◌*◌, ◌/◌, ◌≤◌, ◌<◌, ◌≡◌, ◌≢◌, ◌⊎◌, none, some, Option, arith, ltb,
  Bool-cases, inl, inr, Result, ok, IoError, returned, Delivers, and_then, and_then-Delivers, Fits,
  deadline_at-Fits,
}
use rust_subprocess.Win32.Calls.{
  WinOs, wait_object_0, wait_abandoned, wait_timeout, wait_failed, infinite, WaitEvent, timed_out,
  wait_rounds, event_of, wait_for_single_object,
}

-- What the Windows API promises of its wait: it gives one of four results, and a wait that times
-- out was not an infinite one and has taken all of its time.
pub record WaitsTimeout (os : WinOs) : Type 0 where
  pub documented :
      (handle ms : ℕ) (w : os.World)
      → ((os.sys_wait handle ms w).0 ≡ wait_object_0)
        ⊎ ((os.sys_wait handle ms w).0 ≡ wait_abandoned)
        ⊎ ((os.sys_wait handle ms w).0 ≡ wait_timeout)
        ⊎ ((os.sys_wait handle ms w).0 ≡ wait_failed)
  pub waits :
      (handle ms : ℕ) (w : os.World)
      → (os.sys_wait handle ms w).0 ≡ wait_timeout
      → (ms < infinite) × (os.now w + ms * 1_000_000 ≤ os.now (os.sys_wait handle ms w).1)

-- The longest single wait with a limit, in nanoseconds.
abbrev pub round : ℕ
round = (infinite - 1) * 1_000_000

module _ (os : WinOs) (law : WaitsTimeout os) (handle : ℕ) where
  open os use {World, now, sys_wait}

  abbrev Documented : ℕ → Type 0
  Documented result =
      (result ≡ wait_object_0)
      ⊎ (result ≡ wait_abandoned)
      ⊎ (result ≡ wait_timeout)
      ⊎ (result ≡ wait_failed)

  -- A timeout comes with the time being over, but for less than a millisecond.
  abbrev RoundsAnswer : ℕ → ℕ × World → Type 0
  RoundsAnswer d (result, w') =
      Documented result × ((result ≢ wait_timeout) ⊎ (d < now w' + 1_000_000))

  wait_rounds-Answers :
      (fuel d : ℕ) (w : World)
      → d - now w < fuel * round
      → Delivers (RoundsAnswer d) (wait_rounds os fuel handle (some d) (some (d - now w)) w)
  unfolding wait_rounds
  wait_rounds-Answers zero d w h = absurd (omega arith)
  wait_rounds-Answers (suc fuel) d w h =
      elim (Bool-cases (ltb ((d - now w) / 1_000_000) infinite)) [
        | inl short ↦
            let ms = (d - now w) / 1_000_000 in
            ground (arith, short, law.documented handle ms w, law.waits handle ms w)
        | inr long ↦ ground (
          arith,
          long,
          law.documented handle (infinite - 1) w,
          law.waits handle (infinite - 1) w,
          wait_rounds-Answers fuel d (sys_wait handle (infinite - 1) w).1,
        )
      ]

  -- What the event says of a wait that started at `w`.
  abbrev pub Answers : Option ℕ → World → Result WaitEvent IoError × World → Type 0
  Answers none w (ok timed_out, w') = ⊥
  Answers (some timeout) w (ok timed_out, w') = now w + timeout < now w' + 1_000_000
  Answers timeout w (_, w') = Unit

  -- A round for each longest wait of the timeout, and one more.
  abbrev pub IsEnough : ℕ → Option ℕ → Type 0
  IsEnough fuel none = 0 < fuel
  IsEnough fuel (some timeout) = timeout < fuel * round

  event_of-Answers :
      (timeout : Option ℕ) (w : World) (result : ℕ) (w' : World)
      → Documented result
      → ((result ≢ wait_timeout) ⊎ Answers timeout w (ok timed_out, w'))
      → Delivers
          (Answers timeout w)
          (and_then (event_of os result w') λ event. returned (event, w'))
  unfolding event_of
  event_of-Answers none w result w' d h = ground (arith, d, h)
  event_of-Answers (some timeout) w result w' d h = ground (arith, d, h)

  wait_rounds_untimed :
      (fuel : ℕ) (w : World)
      → Delivers
          (λ t. Documented t.0 × (t.0 ≢ wait_timeout))
          (wait_rounds os (suc fuel) handle none none w)
  unfolding wait_rounds
  wait_rounds_untimed fuel w =
      ground (arith, law.documented handle infinite w, law.waits handle infinite w)

  -- If a wait gives one of its four results, and one that times out has not been infinite and has
  -- taken its time: with a round for every 2 ^ 32 - 2 milliseconds of the timeout and one more,
  -- `WaitForSingleObject` returns without a panic, unless its timeout would be over later than at
  -- the last instant that can be represented. It reports a timeout only if there is one and it
  -- is over, but for the part below a millisecond that the conversion to milliseconds drops.
  pub wait_for_single_object-Answers :
      (fuel : ℕ) (timeout : Option ℕ) (w : World)
      → IsEnough fuel timeout
      → Fits os.latest (now w) timeout
      → Delivers (Answers timeout w) (wait_for_single_object os fuel handle timeout w)
  unfolding wait_for_single_object
  wait_for_single_object-Answers zero none w h fits = absurd (omega arith)
  wait_for_single_object-Answers (suc fuel) none w h fits =
      and_then-Delivers (λ t. Documented t.0 × (t.0 ≢ wait_timeout)) (Answers none w)
        (wait_rounds os (suc fuel) handle none none w) _ (wait_rounds_untimed fuel w)
        λ t answer. event_of-Answers none w t.0 t.1 answer.0 (inl answer.1)
  wait_for_single_object-Answers fuel (some timeout) w h fits =
      let same : now w + timeout - now w ≡ timeout = omega arith in
      rw (deadline_at-Fits os.latest (now w) (some timeout) fits) (
        and_then-Delivers (RoundsAnswer (now w + timeout)) (Answers (some timeout) w)
          (wait_rounds os fuel handle (some (now w + timeout)) (some timeout) w) _
          (rw same at (wait_rounds-Answers fuel (now w + timeout) w (omega arith)))
          λ t answer. event_of-Answers (some timeout) w t.0 t.1 answer.0 answer.1)
